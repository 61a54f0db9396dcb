-- ===== src/Accept.antt =====
-- src/application/accept_task.rs: how a dispatched sub-task gets into the queue. What JSON writes
-- for a request is a parameter, and so is how it reads a gate.
pub mod Cases
pub mod Twice
use wqc_node.Base.{
  ℕ, ◌+◌, Bool, true, false, ◌&&◌, ◌||◌, not, List, [], ◌∷◌, Option, none, some, Result, ok, err,
  ltb, is_empty, if◌then◌else◌,
}
use wqc_node.Base.Bytes.{Bytes}
use wqc_node.Base.Int.{ℤ}
use wqc_node.Base.Text.{Text, text, text_eq}
use wqc_node.Json.{Value}
use wqc_node.Models.{ComputeRequest, ComputeTask, Budget}
use wqc_node.State.{AppState, enqueue, fetch_add, fetch_sub}
use wqc_node.Storage.{Storage, StorageError, unique_violation, sql_error}
use wqc_node.Storage.Tasks.{load_task, save_task}
use wqc_node.Validation.{Gate, ValidationError, validate_circuit_logic, normalize_gate_params}
use wqc_node.Work.{hold, release}

-- `Validation`, `Storage` and `QueueFull`, with what each message is about.
pub data AcceptTaskError : Type 0 where
  qubit_limit queue_full : AcceptTaskError
  validation : ValidationError → AcceptTaskError
  lookup_failed storage_error : StorageError → AcceptTaskError
  different_payload : Text → AcceptTaskError

abbrev pub Accepted : Type 0
Accepted = Result (Unit {0}) AcceptTaskError × AppState

unfoldable pub compact_qubit_limit : Text → ℕ → ℕ → ℕ
compact_qubit_limit output_mode max_qubits max_mps_qubits =
    if (is_empty output_mode || text_eq output_mode (text "statevector_scalar"))
      && ltb 0 max_mps_qubits
    then max_mps_qubits
    else max_qubits

abbrev pub without_node : ComputeRequest → ComputeRequest
without_node request = record request { node_id = none }

-- The task that a request becomes.
abbrev pub task_of : ComputeRequest → Text → Option Budget → ℕ → AppState → ComputeTask
task_of request orchestrator_pubkey budget now_ms st = record {
  request = record request {
    circuit = normalize_gate_params request.circuit;
    node_id = some st.config.peer_id;
  };
  orchestrator_pubkey = orchestrator_pubkey;
  budget = budget;
  accepted_at_ms = now_ms;
}

module _ (to_vec : ComputeRequest → Option Bytes) where
  abbrev pub same_bytes : Option Bytes → Option Bytes → Bool
  same_bytes none b = false
  same_bytes (some a) none = false
  same_bytes (some a) (some b) = text_eq a b

  unfoldable pub dispatch_payload_matches : ComputeTask → ComputeTask → Bool
  unfolding text_eq
  dispatch_payload_matches existing incoming =
      if not (text_eq existing.orchestrator_pubkey incoming.orchestrator_pubkey)
      then false
      else same_bytes (to_vec (without_node existing.request))
          (to_vec (without_node incoming.request))

  -- After the row is stored.
  unfoldable pub hold_and_enqueue : ComputeTask → AppState → Accepted
  unfolding hold release enqueue
  hold_and_enqueue task st =
      let counted = fetch_add st in
      let held = record counted {
        work = hold task.request.task_id task.request.parent_task_id task.budget counted.work;
      } in
      let (sent, st1) = enqueue task held in
      elim sent [
        | ok u ↦ (ok tt, st1)
        | err e ↦
            let back = fetch_sub st1 in
            (err queue_full, record back { work = release task.request.task_id back.work })
      ]

  -- A duplicate is answered as accepted, another payload is an error.
  abbrev pub answer_existing : ComputeTask → ComputeTask → AcceptTaskError → AppState → Accepted
  answer_existing task existing e st =
      if dispatch_payload_matches existing task then (ok tt, st) else (err e, st)

  abbrev pub found_again :
      ComputeTask → Result (Option ComputeTask) StorageError → AppState → Accepted
  found_again task (err e) st = (err (storage_error unique_violation), st)
  found_again task (ok none) st = (err (storage_error unique_violation), st)
  found_again task (ok (some existing)) st =
      answer_existing task existing (storage_error unique_violation) st

  -- A second lookup where another handler stored the row in the meantime.
  unfoldable pub look_again : ComputeTask → StorageError → AppState → Accepted
  unfolding dispatch_payload_matches load_task
  look_again task unique_violation st =
      let (found, storage) = load_task task.orchestrator_pubkey task.request.task_id st.storage in
      found_again task found (record st { storage = storage })
  look_again task sql_error st = (err (storage_error sql_error), st)

  abbrev pub saved_or_not : ComputeTask → Result (Unit {0}) StorageError → AppState → Accepted
  saved_or_not task (ok u) st = hold_and_enqueue task st
  saved_or_not task (err e) st = look_again task e st

  unfoldable pub store_task : ComputeTask → ℤ → AppState → Accepted
  unfolding save_task look_again hold_and_enqueue
  store_task task now st =
      let (saved, storage) = save_task task now st.storage in
      saved_or_not task saved (record st { storage = storage })

  abbrev pub found_or_new :
      ComputeTask
      → ℤ
      → (Storage → Storage)
      → Result (Option ComputeTask) StorageError
      → AppState
      → Accepted
  found_or_new task now meanwhile (err e) st = (err (lookup_failed e), st)
  found_or_new task now meanwhile (ok (some existing)) st =
      answer_existing task existing (different_payload task.request.task_id) st
  found_or_new task now meanwhile (ok none) st =
      store_task task now (record st { storage = meanwhile st.storage })

  -- `meanwhile` is what other handlers do to the database between the lookup and the insertion.
  unfoldable pub accept_task : ComputeTask → ℤ → (Storage → Storage) → AppState → Accepted
  unfolding load_task dispatch_payload_matches store_task
  accept_task task now meanwhile st =
      let (found, storage) = load_task task.orchestrator_pubkey task.request.task_id st.storage in
      found_or_new task now meanwhile found (record st { storage = storage })

  abbrev pub valid_or_not :
      ComputeTask
      → ℤ
      → (Storage → Storage)
      → Result (Unit {0}) ValidationError
      → AppState
      → Accepted
  valid_or_not task now meanwhile (err e) st = (err (validation e), st)
  valid_or_not task now meanwhile (ok u) st = accept_task task now meanwhile st

  -- The fuel is for nested gates.
  unfoldable pub accept_compute_task :
      (Value → Option Gate)
      → ℕ
      → ComputeRequest
      → Text
      → Option Budget
      → ℕ
      → ℤ
      → (Storage → Storage)
      → AppState
      → Accepted
  unfolding compact_qubit_limit validate_circuit_logic accept_task normalize_gate_params
  accept_compute_task from_value fuel request orchestrator_pubkey budget now_ms now meanwhile st =
      if ltb (compact_qubit_limit request.output_mode st.config.max_qubits st.config.max_mps_qubits)
        request.qubit_count
      then (err qubit_limit, st)
      else valid_or_not (task_of request orchestrator_pubkey budget now_ms st) now meanwhile
          (validate_circuit_logic from_value fuel request.circuit request.qubit_count
            st.supported_gates)
          st
