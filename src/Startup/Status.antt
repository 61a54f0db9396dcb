-- ===== src/Startup/Status.antt =====
-- src/transport/http/handlers.rs: what is read from core at start-up, and the status endpoint. What
-- core answers is an argument: none where the request or its JSON fails.
use wqc_node.Base.{ℕ, List, [], ◌∷◌, Option, none, some, Result, ok, err}
use wqc_node.Base.Float.{F32}
use wqc_node.Base.Text.{Text, text}
use wqc_node.Memory.{as_str}
use wqc_node.Models.{CoreSystemInfo, NodeStatus}
use wqc_node.State.{AppState}
use wqc_node.Storage.{StorageError}
use wqc_node.Storage.Results.{count_pending_results}

abbrev pub default_gates : List Text
default_gates = text "H" ∷ text "X" ∷ text "Y" ∷ text "Z" ∷ text "CNOT" ∷ []

unfoldable pub sync_core_capabilities : Option (List Text) → List Text
sync_core_capabilities none = default_gates
sync_core_capabilities (some gates) = gates

-- `unwrap_or(0)`
abbrev pub or_zero : Result ℕ StorageError → ℕ
or_zero (ok n) = n
or_zero (err e) = 0

-- What the two arms of the match share.
abbrev pub status_with : ℕ → ℕ → F32 → ℕ → AppState → NodeStatus
status_with used total cpu outbox st = record {
  pending_tasks = st.pending_tasks;
  outbox_pending = outbox;
  max_qubits = st.config.max_qubits;
  max_mps_qubits = st.config.max_mps_qubits;
  max_memory_gib = st.config.max_memory_gib;
  memory_cap_source = as_str st.config.memory_cap_source;
  vram_budget_gib = st.config.vram_budget_gib;
  system_memory_used_kb = used;
  system_memory_total_kb = total;
  cpu_usage_percent = cpu;
  supported_gates = st.supported_gates;
}

-- `0.0`
abbrev pub zero_f32 : F32
zero_f32 = 0

abbrev pub status_from : Option CoreSystemInfo → ℕ → AppState → NodeStatus
status_from none outbox st = status_with 0 0 zero_f32 outbox st
status_from (some info) outbox st =
    status_with info.system_memory_used_kb info.system_memory_total_kb info.cpu_usage_percent outbox
      st

unfoldable pub collect_node_status : Option CoreSystemInfo → AppState → NodeStatus × AppState
unfolding count_pending_results
collect_node_status sysinfo st =
    let (counted, db) = count_pending_results st.storage in
    let st1 = record st { storage = db } in (status_from sysinfo (or_zero counted) st1, st1)
