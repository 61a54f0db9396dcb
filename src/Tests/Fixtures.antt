-- ===== src/Tests/Fixtures.antt =====
-- The data that the tests share.
use wqc_node.Base.{◌+◌, ◌-◌, ◌*◌, ◌/◌, max, true, [], ◌∷◌, none, some, ltb, leb, replicate}
use wqc_node.Base.Float.{Float}
use wqc_node.Base.Int.{pos}
use wqc_node.Base.Text.{text, text_eq}
use wqc_node.Config.{NodeConfig}
use wqc_node.Core.{new_health}
use wqc_node.Crypto.{Crypto}
use wqc_node.Json.{pos_int, number, no_items, item, array}
use wqc_node.Jobs.{PendingPcsJob}
use wqc_node.Memory.{MemoryCapSource}
use wqc_node.Models.{ComputeRequest, ComputeTask, Budget, Proof}
use wqc_node.P2p.{TaskAnnouncement}
use wqc_node.State.{AppState}
use wqc_node.Storage.{Storage, new_storage}
use wqc_node.Validation.{Gate}
use wqc_node.Work.{TnRates, Work, default_ledger}

-- Whole numbers in place of floats.
abbrev pub whole : Float
whole = record {
  of_u64 = λ n. n;
  to_u64 = λ x. x;
  add = λ x y. x + y;
  sub = λ x y. x - y;
  mul = λ x y. x * y;
  div = λ x y. x / y;
  fmax = λ x y. max x y;
  flt = ltb;
  fle = leb;
  is_finite = λ x. true;
  as_secs_f64 = λ n. n / 1000000000;
  sum_start = 0;
}

-- A signature is the payload, and every digest is zero.
abbrev pub plain : Crypto
plain = record {
  encode = λ b. b;
  decode = λ t. some t;
  signature_from_slice = λ b. some b;
  key_from_bytes = λ b. some b;
  verify = λ key payload signature. text_eq signature payload;
  sign = λ key payload. payload;
  sha256 = λ b. replicate 32 0;
}

abbrev pub rates : TnRates
rates = record { seconds_per_byte = 1; seconds_per_flop = 1 }

abbrev pub config : NodeConfig
config = record {
  peer_id = text "node-a";
  core_url = text "http://core";
  max_qubits = 28;
  max_mps_qubits = 2048;
  max_memory_gib = 16;
  requested_memory_gib = none;
  host_total_memory_bytes = 0;
  memory_cap_source = MemoryCapSource.ram;
  vram_budget_gib = none;
  compute_timeout_secs = 300;
  tn_rates = some rates;
  work_budget_margin = 1;
  work_overhead_secs = 5;
  work_unknown_secs = 30;
  pcs_timeout_secs = 7200;
  signing_key = [];
  bootstrap_urls = [];
  bootstrap_source_url = none;
  bootstrap_peers = [];
  p2p_listen_port = 0;
  p2p_idle_timeout_secs = 60;
  http_port = 0;
  database_url = [];
  stake_amount = pos 0;
  orchestrator_peer_id = none;
  orchestrator_public_key = none;
  operator_id = some (text "op");
  operator_signing_key = some [];
}

abbrev pub hadamard : Gate
hadamard = record { kind = text "H"; params = array (item (number (pos_int 0)) no_items) }

abbrev pub request : ComputeRequest
request = record {
  task_id = text "sub";
  parent_task_id = some (text "parent");
  circuit_id = text "circuit";
  node_id = none;
  qubit_count = 2;
  original_qubit_count = 2;
  slice_id = text "0";
  slice_assignments = [];
  circuit = hadamard ∷ [];
  required_votes = none;
  mps_max_bond_dim = none;
  mps_site_order = none;
  mps_time_split = none;
  contraction_tree = none;
  output_mode = [];
  classical_bit_count = none;
  shots = none;
  sample_seed = none;
  observables = [];
  noise_model = none;
  security_level = [];
}

abbrev pub budget : Budget
budget = record { deadline_secs = 60; expected_secs = 9 }

abbrev pub task : ComputeTask
task = record {
  request = request;
  orchestrator_pubkey = text "key";
  budget = some budget;
  accepted_at_ms = 1000;
}

abbrev pub fresh : Storage
fresh = new_storage []

abbrev pub state : AppState
state = record {
  config = config;
  supported_gates = text "H" ∷ text "RX" ∷ [];
  queue = [];
  receiving = true;
  pending_tasks = 0;
  core = new_health none none;
  storage = fresh;
  open_call_cache = [];
  work = default_ledger;
  in_flight = [];
}

abbrev pub proof : Proof
proof = record {
  public_inputs = record {
    circuit_id = [];
    sub_task_id = text "sub";
    node_id = text "node-a";
    slice_id = [];
    output_result_hash = [];
    measurement_spec_hash = [];
    security_level = [];
  };
  stark_proof_b64 = text "cHJvb2Y=";
}

abbrev pub job : PendingPcsJob
job = record {
  sub_task_id = text "sub";
  proof = proof;
  requested = true;
  leaf_pcs_b64 = none;
  leaf_pcs_bytes = none;
  open_call = none;
}

abbrev pub announced_work : Work
announced_work = record { traffic_bytes = 3; flops = 4 }

abbrev pub announcement : TaskAnnouncement
announcement = record {
  task_id = text "t";
  global_qubit_count = 30;
  required_features = 17;
  bid_difficulty = 1;
  required_votes = 2;
  nonce = 9;
  deadline_secs = some 300;
  work = some announced_work;
}
