-- ===== src/Accept/Cases.antt =====
-- What an answer to a dispatch says of the queue (src/application/accept_task.rs).
use wqc_node.Base.{
  ℕ, ◌+◌, ◌%◌, ◌^◌, ◌<◌, ◌≡◌, ◌⊎◌, refl, Bool, true, false, [], ◌∷◌, ◌++◌, Option, none, some,
  Result, ok, err, arith, ltb, Bool-cases, inl, inr, if◌then◌else◌,
}
use wqc_node.Base.Bytes.{Bytes}
use wqc_node.Base.Int.{ℤ}
use wqc_node.Base.Text.{Text}
use wqc_node.Json.{Value}
use wqc_node.Models.{ComputeRequest, ComputeTask, Budget}
use wqc_node.State.{AppState, enqueue}
use wqc_node.Storage.{Storage, StorageError, unique_violation, sql_error}
use wqc_node.Storage.Tasks.{load_task, save_task}
use wqc_node.Validation.{Gate, ValidationError, validate_circuit_logic}
use wqc_node.Accept.{
  AcceptTaskError, Accepted, hold_and_enqueue, look_again, store_task, accept_task, task_of,
  accept_compute_task, dispatch_payload_matches, found_again, saved_or_not, found_or_new,
  valid_or_not, compact_qubit_limit,
}

-- The queue and the counter grow together by the task, with the answer that it is accepted, or
-- neither changes.
abbrev pub IsCounted : ComputeTask → AppState → Accepted → Type 0
IsCounted task st (answer, st') =
    ((st'.queue ≡ st.queue) × (st'.pending_tasks ≡ st.pending_tasks))
    ⊎ ((answer ≡ ok tt)
        × (st'.queue ≡ st.queue ++ (task ∷ []))
        × (st'.pending_tasks ≡ (st.pending_tasks + 1) % 2 ^ 64))

module _ (to_vec : ComputeRequest → Option Bytes) where
  hold_and_enqueue-IsCounted :
      (task : ComputeTask) (st : AppState)
      → st.pending_tasks < 2 ^ 64
      → IsCounted task st (hold_and_enqueue to_vec task st)
  unfolding hold_and_enqueue enqueue
  hold_and_enqueue-IsCounted task st h = elim (Bool-cases st.receiving) [
    | inl t ↦ inr (ground (arith, t), ground (arith, t), ground (arith, t))
    | inr f ↦ inl (ground (arith, f), ground (arith, f, h))
  ]

  if-IsCounted :
      (task : ComputeTask) (b : Bool) (x y : Result (Unit {0}) AcceptTaskError) (st : AppState)
      → IsCounted task st (if b then (x, st) else (y, st))
  if-IsCounted task true x y st = inl (refl, refl)
  if-IsCounted task false x y st = inl (refl, refl)

  look_again-IsCounted :
      (task : ComputeTask) (e : StorageError) (st : AppState)
      → IsCounted task st (look_again to_vec task e st)
  unfolding look_again
  look_again-IsCounted task sql_error st = inl (refl, refl)
  look_again-IsCounted task unique_violation st =
      again (load_task task.orchestrator_pubkey task.request.task_id st.storage).0 (record st {
        storage = (load_task task.orchestrator_pubkey task.request.task_id st.storage).1;
      })
    where
      again :
          (found : Result (Option ComputeTask) StorageError) (st1 : AppState)
          → IsCounted task st1 (found_again to_vec task found st1)
      again (err x) st1 = inl (refl, refl)
      again (ok none) st1 = inl (refl, refl)
      again (ok (some existing)) st1 =
          if-IsCounted task (dispatch_payload_matches to_vec existing task) _ _ st1

  store_task-IsCounted :
      (task : ComputeTask) (now : ℤ) (st : AppState)
      → st.pending_tasks < 2 ^ 64
      → IsCounted task st (store_task to_vec task now st)
  unfolding store_task
  store_task-IsCounted task now st h =
      saved (save_task task now st.storage).0
        (record st { storage = (save_task task now st.storage).1 }) h
    where
      saved :
          (r : Result (Unit {0}) StorageError) (st1 : AppState)
          → st1.pending_tasks < 2 ^ 64
          → IsCounted task st1 (saved_or_not to_vec task r st1)
      saved (ok u) st1 h = hold_and_enqueue-IsCounted task st1 h
      saved (err e) st1 h = look_again-IsCounted task e st1

  accept_task-IsCounted :
      (task : ComputeTask) (now : ℤ) (meanwhile : Storage → Storage) (st : AppState)
      → st.pending_tasks < 2 ^ 64
      → IsCounted task st (accept_task to_vec task now meanwhile st)
  unfolding accept_task
  accept_task-IsCounted task now meanwhile st h =
      found (load_task task.orchestrator_pubkey task.request.task_id st.storage).0
        (record st {
          storage = (load_task task.orchestrator_pubkey task.request.task_id st.storage).1;
        })
        h
    where
      found :
          (r : Result (Option ComputeTask) StorageError) (st1 : AppState)
          → st1.pending_tasks < 2 ^ 64
          → IsCounted task st1 (found_or_new to_vec task now meanwhile r st1)
      found (err e) st1 h = inl (refl, refl)
      found (ok none) st1 h =
          store_task-IsCounted task now (record st1 { storage = meanwhile st1.storage }) h
      found (ok (some existing)) st1 h =
          if-IsCounted task (dispatch_payload_matches to_vec existing task) _ _ st1

  -- Whatever SQLite and the other handlers do, a dispatch puts its normalised task once at the end of
  -- the queue, raises the counter by one and answers that it is accepted; or the queue and the
  -- counter stay as they were.
  pub accept_compute_task-IsCounted :
      (from_value : Value → Option Gate) (fuel : ℕ) (request : ComputeRequest) (pubkey : Text)
      (budget : Option Budget) (now_ms : ℕ) (now : ℤ) (meanwhile : Storage → Storage)
      (st : AppState)
      → st.pending_tasks < 2 ^ 64
      → IsCounted
          (task_of request pubkey budget now_ms st)
          st
          (accept_compute_task to_vec from_value fuel request pubkey budget now_ms now meanwhile st)
  unfolding accept_compute_task
  accept_compute_task-IsCounted from_value fuel request pubkey budget now_ms now meanwhile st h =
      elim (Bool-cases (
        ltb (compact_qubit_limit request.output_mode st.config.max_qubits st.config.max_mps_qubits)
          request.qubit_count)) [
            | inl over ↦ rw over (inl (refl, refl))
            | inr fits ↦ rw fits (
                checked (
                  validate_circuit_logic from_value fuel request.circuit request.qubit_count
                    st.supported_gates))
          ]
    where
      checked :
          (r : Result (Unit {0}) ValidationError)
          → IsCounted
              (task_of request pubkey budget now_ms st)
              st
              (valid_or_not to_vec (task_of request pubkey budget now_ms st) now meanwhile r st)
      checked (err e) = inl (refl, refl)
      checked (ok u) =
          accept_task-IsCounted (task_of request pubkey budget now_ms st) now meanwhile st h
