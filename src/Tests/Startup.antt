-- ===== src/Tests/Startup.antt =====
-- Runs of the theorems on the configuration and the start of the process.
use wqc_node.Base.{
  ℕ, ◌+◌, ◌^◌, ◌≤◌, ◌≡◌, ◌≢◌, ◌↔◌, refl, true, false, [], ◌∷◌, ◌++◌, length-append, Option, none,
  some, ok, arith, length, take, replicate, if◌then◌else◌, ◌==◌,
}
use wqc_node.Base.Bytes.{Bytes}
use wqc_node.Base.Decimal.{parse_signed}
use wqc_node.Base.Int.{pos}
use wqc_node.Base.Text.{Text, text, text_eq}
use wqc_node.Config.{NodeConfig}
use wqc_node.Config.Environment.{Readers, from_env, apply_core_sysinfo}
use wqc_node.Config.Usable.{IsUsable, from_env-IsUsable}
use wqc_node.Config.Sysinfo.{apply_core_sysinfo-le}
use wqc_node.Core.{wait_until_up}
use wqc_node.Core.Wait.{AnswersAt, wait_until_up_lem}
use wqc_node.Host.{Reachable, begins, moves, established, closed, newly, handle_event, start_host}
use wqc_node.Host.Linked.{IsLinked, Reachable-IsLinked}
use wqc_node.Memory.{
  MemoryCapSource, max_qubits_from_dense_memory_budget, max_qubits_from_mps_memory_budget,
  effective_memory_bytes,
}
use wqc_node.Models.{CoreSystemInfo}
use wqc_node.Operator.{Primitives, hkdf_expand}
use wqc_node.Operator.Derived.{blocks, rounds, length-take, hkdf_expand_lem}
use wqc_node.Startup.Bootstrap.{
  BootstrapResponse, OrchestratorBootstrap, Libp2p, p2p, resolve_bootstrap,
}
use wqc_node.Startup.Bootstrap.Trusted.{IsFirst, resolve_bootstrap_iff}
use wqc_node.Tests.Fixtures.{whole}
use wqc_node.Work.{RateBounds}

abbrev pub named : Libp2p
named = record { parse_peer_id = λ t. some t; parse_multiaddr = λ t. some (p2p t ∷ []) }

abbrev pub payload : BootstrapResponse
payload = record {
  peer_id = text "orch";
  public_key_b64 = text " key ";
  multiaddrs = text "orch" ∷ [];
}

abbrev pub served : Text → Option BootstrapResponse
served url = if text_eq url (text "http://b") then some payload else none

abbrev pub boot : OrchestratorBootstrap
boot = record {
  source_url = text "http://b";
  peer_id = text "orch";
  public_key_b64 = text "key";
  multiaddrs = text "orch" ∷ [];
}

resolve_bootstrap_iff_example :
    let urls = text "http://a" ∷ text " " ∷ text "http://b" ∷ [] in
    (resolve_bootstrap named served urls ≡ ok boot) ↔ IsFirst named served boot urls
resolve_bootstrap_iff_example =
    resolve_bootstrap_iff named served (text "http://a" ∷ text " " ∷ text "http://b" ∷ []) boot

-- Tags of 32 zeros.
abbrev pub zeros : Primitives
zeros = record {
  hmac = λ key message. replicate 32 0;
  sha256 = λ b. b;
  verifying_key = λ b. b;
  hex = λ b. b;
}

-- A tag that shows the first 32 bytes of its message.
abbrev pub echo : Primitives
echo = record zeros { hmac = λ key message. take 32 (message ++ replicate 32 0) }

echo_length : (key message : Bytes) → length (echo.hmac key message) ≡ 32
echo_length key message =
    length-take 32 (message ++ replicate 32 0)
      (omega (arith, length-append message (replicate 32 0)))

hkdf_expand_lem_example :
    (hkdf_expand echo [] (7 ∷ []) 40 ≡ take 40 (blocks echo [] (7 ∷ []) (rounds 40)))
    × (length (hkdf_expand echo [] (7 ∷ []) 40) ≡ 40)
hkdf_expand_lem_example = hkdf_expand_lem echo [] (7 ∷ []) echo_length 40 (omega arith)

wait_until_up_lem_example :
    let probes = λ (i : ℕ). if i == 2 then true else false in
    let clock = λ (i : ℕ). 7 + i in
    (wait_until_up probes clock 7 3 ≢ none)
    × ((wait_until_up probes clock 7 3 ≡ some true)
        ↔ ((j : ℕ) × AnswersAt probes clock (7 + 3) 0 j))
wait_until_up_lem_example =
    wait_until_up_lem (λ i. if i == 2 then true else false) (λ i. 7 + i) 7 3 (λ k. omega arith)

-- Every float is read as one, and every key is 32 zeros.
abbrev pub readers : Readers
readers = record {
  parse_f64 = λ t. some 1;
  big_int = parse_signed (2 ^ 63);
  decode = λ t. some (replicate 32 0);
  peer_id_of = λ key. some (text "node-a");
}

abbrev pub env : Text → Option Text
env name =
    if text_eq name (text "WQC_NODE_PRIVATE_KEY")
    then some (text "AAAA")
    else if text_eq name (text "WQC_BOOTSTRAP_URLS")
    then some (text "http://a, http://b")
    else if text_eq name (text "WQC_P2P_LISTEN_PORT")
    then some (text "4003")
    else none

abbrev pub host_bytes : ℕ
host_bytes = 8589934592

abbrev pub read_config : NodeConfig
read_config = record {
  peer_id = text "node-a";
  core_url = text "http://localhost:3000";
  max_qubits = 28;
  max_mps_qubits = 14336;
  max_memory_gib = 7;
  requested_memory_gib = none;
  host_total_memory_bytes = 8589934592;
  memory_cap_source = MemoryCapSource.ram;
  vram_budget_gib = none;
  compute_timeout_secs = 300;
  tn_rates = none;
  work_budget_margin = 1;
  work_overhead_secs = 1;
  work_unknown_secs = 1;
  pcs_timeout_secs = 7200;
  signing_key = replicate 32 0;
  bootstrap_urls = text "http://a" ∷ text "http://b" ∷ [];
  bootstrap_source_url = none;
  bootstrap_peers = [];
  p2p_listen_port = 4003;
  p2p_idle_timeout_secs = 60;
  http_port = 8080;
  database_url = text "sqlite:wqc-node.db";
  stake_amount = pos 50000000000000000;
  orchestrator_peer_id = none;
  orchestrator_public_key = none;
  operator_id = none;
  operator_signing_key = none;
}

reads_config : from_env readers whole zeros host_bytes env ≡ ok read_config
unfolding from_env text_eq parse_signed max_qubits_from_dense_memory_budget
    max_qubits_from_mps_memory_budget effective_memory_bytes
reads_config = refl

from_env-IsUsable_example : IsUsable readers whole 8589934592 read_config
from_env-IsUsable_example =
    from_env-IsUsable readers whole zeros host_bytes env read_config reads_config

abbrev pub info : CoreSystemInfo
info = record {
  system_memory_used_kb = 1;
  system_memory_total_kb = 2;
  cpu_usage_percent = 3;
  tn_backend_requested = text "webgpu";
  tn_backend_active = text "WebGPU";
  tn_backend_note = none;
  mps_max_bond_dim = 128;
  pcs_memory_policy = text "spill";
  vram_budget_bytes = some 4294967296;
  tn_seconds_per_byte = some 1;
  tn_seconds_per_flop = some 1;
}

abbrev pub wide : RateBounds
wide = record { byte_lo = 0; byte_hi = 2; flop_lo = 0; flop_hi = 2 }

apply_core_sysinfo-le_example :
    let c' = apply_core_sysinfo whole wide info read_config in
    (c'.max_qubits ≤ 28) × (c'.max_mps_qubits ≤ 14336)
apply_core_sysinfo-le_example =
    apply_core_sysinfo-le whole readers zeros host_bytes env read_config wide info (omega arith)
      reads_config

-- The link comes up and is lost again.
lost : Reachable (text "orch") (
    handle_event
      (text "orch")
      (closed (text "orch"))
      (handle_event (text "orch") (established (text "orch") newly) (start_host (text "orch"))))
lost =
    moves (closed (text "orch")) (λ e. ground (arith, e))
      (moves (established (text "orch") newly) (λ e. ground (arith, e)) begins)

Reachable-IsLinked_example : IsLinked (text "orch") (
    handle_event
      (text "orch")
      (closed (text "orch"))
      (handle_event (text "orch") (established (text "orch") newly) (start_host (text "orch"))))
Reachable-IsLinked_example = Reachable-IsLinked (text "orch") lost
