-- ===== src/Config.antt =====
-- src/config.rs: the configuration that the other parts read. A `PeerId` is its text; keys are their
-- bytes.
pub mod Environment
pub mod Usable
pub mod Sysinfo
use wqc_node.Base.{ℕ, List, Option}
use wqc_node.Base.Bytes.{Bytes}
use wqc_node.Base.Float.{F64}
use wqc_node.Base.Int.{ℤ}
use wqc_node.Base.Text.{Text}
use wqc_node.Memory.{MemoryCapSource}
use wqc_node.Work.{TnRates}

pub record NodeConfig : Type 0 where
  pub peer_id : Text
  pub core_url : Text
  pub max_qubits : ℕ
  pub max_mps_qubits : ℕ
  pub max_memory_gib : F64
  pub requested_memory_gib : Option F64
  pub host_total_memory_bytes : ℕ
  pub memory_cap_source : MemoryCapSource
  pub vram_budget_gib : Option F64
  pub compute_timeout_secs : ℕ
  pub tn_rates : Option TnRates
  pub work_budget_margin : F64
  pub work_overhead_secs : F64
  pub work_unknown_secs : F64
  pub pcs_timeout_secs : ℕ
  pub signing_key : Bytes
  pub bootstrap_urls : List Text
  pub bootstrap_source_url : Option Text
  pub bootstrap_peers : List Text
  pub p2p_listen_port : ℕ
  pub p2p_idle_timeout_secs : ℕ
  pub http_port : ℕ
  pub database_url : Text
  pub stake_amount : ℤ
  pub orchestrator_peer_id : Option Text
  pub orchestrator_public_key : Option Text
  pub operator_id : Option Text
  pub operator_signing_key : Option Bytes
