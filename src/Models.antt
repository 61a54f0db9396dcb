-- ===== src/Models.antt =====
-- src/domain/models.rs: the records that travel between the parts. A `f64` is its 64 bits. `Budget`
-- is that of src/domain/work.rs.
use wqc_node.Base.{ℕ, List, Option}
use wqc_node.Base.Float.{F32, F64}
use wqc_node.Base.Text.{Text}
use wqc_node.Validation.{Gate}

pub record SliceAssignment : Type 0 where
  pub edge_id : Text
  pub value : ℕ

pub record NoiseModel : Type 0 where
  pub depolarizing_p : Option F64
  pub readout_error : Option F64

pub record TensorRefWire : Type 0 where
  pub ket0 : Option ℕ
  pub gate : Option ℕ
  pub node : Option ℕ
  pub bra0 : Option ℕ
  pub control : Option ℕ
  pub target : Option ℕ

pub record ContractNodeWire : Type 0 where
  pub op : Text
  pub left : TensorRefWire
  pub right : TensorRefWire

pub record ContractionTreeWire : Type 0 where
  pub kind : Option Text
  pub nodes : List ContractNodeWire
  pub peak_bytes : ℕ

pub record ComplexCoeff : Type 0 where
  pub real : F64
  pub imag : F64

pub record PauliTerm : Type 0 where
  pub label : Text
  pub coeff : ComplexCoeff

pub record ObservableSpec : Type 0 where
  pub id : Text
  pub terms : List PauliTerm

pub record ComputeRequest : Type 0 where
  pub task_id : Text
  pub parent_task_id : Option Text
  pub circuit_id : Text
  pub node_id : Option Text
  pub qubit_count : ℕ
  pub original_qubit_count : ℕ
  pub slice_id : Text
  pub slice_assignments : List SliceAssignment
  pub circuit : List Gate
  pub required_votes : Option ℕ
  pub mps_max_bond_dim : Option ℕ
  pub mps_site_order : Option (List ℕ)
  pub mps_time_split : Option ℕ
  pub contraction_tree : Option ContractionTreeWire
  pub output_mode : Text
  pub classical_bit_count : Option ℕ
  pub shots : Option ℕ
  pub sample_seed : Option ℕ
  pub observables : List ObservableSpec
  pub noise_model : Option NoiseModel
  pub security_level : Text

pub record Budget : Type 0 where
  pub deadline_secs : ℕ
  pub expected_secs : F64

pub record ComputeTask : Type 0 where
  pub request : ComputeRequest
  pub orchestrator_pubkey : Text
  pub budget : Option Budget
  pub accepted_at_ms : ℕ

pub record PublicInputs : Type 0 where
  pub circuit_id : Text
  pub sub_task_id : Text
  pub node_id : Text
  pub slice_id : Text
  pub output_result_hash : Text
  pub measurement_spec_hash : Text
  pub security_level : Text

pub record Proof : Type 0 where
  pub public_inputs : PublicInputs
  pub stark_proof_b64 : Text

pub record WorkReport : Type 0 where
  pub trace_rows : ℕ
  pub gate_count : ℕ
  pub compute_wall_ms : ℕ
  pub prove_wall_ms : ℕ
  pub proof_bytes : ℕ
  pub tn_backend : Text
  pub vram_peak_bytes : ℕ
  pub proof_scope : Text

pub record ComplexResult : Type 0 where
  pub real : F64
  pub imag : F64

-- A `BTreeMap` is the list of its pairs, by key.
pub record SampleResult : Type 0 where
  pub counts : List (Text × ℕ)
  pub shots : ℕ

pub record ExpectationResult : Type 0 where
  pub values : List (Text × ComplexResult)

pub record ComputeResponse : Type 0 where
  pub task_id : Text
  pub status : Text
  pub result_type : Text
  pub complex_result : ComplexResult
  pub sample_result : Option SampleResult
  pub expectation_result : Option ExpectationResult
  pub proof : Proof
  pub work_report : Option WorkReport

pub record TaskResultPayload : Type 0 where
  pub task_id : Text
  pub status : Text
  pub result_type : Text
  pub complex_result : Option ComplexResult
  pub sample_result : Option SampleResult
  pub expectation_result : Option ExpectationResult
  pub proof : Option Proof
  pub error : Option Text
  pub execution_time_ms : Option ℕ
  pub work_report : Option WorkReport

-- `GET /sysinfo` of core.
pub record CoreSystemInfo : Type 0 where
  pub system_memory_used_kb : ℕ
  pub system_memory_total_kb : ℕ
  pub cpu_usage_percent : F32
  pub tn_backend_requested : Text
  pub tn_backend_active : Text
  pub tn_backend_note : Option Text
  pub mps_max_bond_dim : ℕ
  pub pcs_memory_policy : Text
  pub vram_budget_bytes : Option ℕ
  pub tn_seconds_per_byte : Option F64
  pub tn_seconds_per_flop : Option F64

pub record NodeStatus : Type 0 where
  pub pending_tasks : ℕ
  pub outbox_pending : ℕ
  pub max_qubits : ℕ
  pub max_mps_qubits : ℕ
  pub max_memory_gib : F64
  pub memory_cap_source : Text
  pub vram_budget_gib : Option F64
  pub system_memory_used_kb : ℕ
  pub system_memory_total_kb : ℕ
  pub cpu_usage_percent : F32
  pub supported_gates : List Text
