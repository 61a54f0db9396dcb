-- ===== src/Accept/Twice.antt =====
-- A dispatch that is repeated (src/application/accept_task.rs), where SQLite does not fail and no
-- other handler comes between.
use wqc_node.Base.{
  ℕ, ◌≤◌, ◌≡◌, refl, ap, sym, subst, ◌∙◌, true, false, [], ◌∷◌, ◌++◌, Option, none, some, ok, err,
  arith, ltb, Bool-cases, inl, inr, if◌then◌else◌,
}
use wqc_node.Base.Bytes.{Bytes}
use wqc_node.Base.Int.{ℤ}
use wqc_node.Base.Text.{Text, text_eq_refl}
use wqc_node.Json.{Value}
use wqc_node.Models.{ComputeRequest, ComputeTask, Budget}
use wqc_node.State.{AppState, enqueue}
use wqc_node.Storage.{Storage}
use wqc_node.Storage.Tasks.{load_task, save_task}
use wqc_node.Storage.Steps.{load-keeps, save-keeps, save-new}
use wqc_node.Validation.{Gate, validate_circuit_logic}
use wqc_node.Accept.{
  Accepted, queue_full, hold_and_enqueue, store_task, accept_task, task_of, accept_compute_task,
  dispatch_payload_matches, without_node, compact_qubit_limit,
}

module _ (to_vec : ComputeRequest → Option Bytes) where
  matches_refl :
      (task task' : ComputeTask) (bytes : Bytes)
      → task.orchestrator_pubkey ≡ task'.orchestrator_pubkey
      → to_vec (without_node task.request) ≡ some bytes
      → to_vec (without_node task'.request) ≡ some bytes
      → dispatch_payload_matches to_vec task task' ≡ true
  unfolding dispatch_payload_matches
  matches_refl task task' bytes k e e' =
      rw (k, text_eq_refl task'.orchestrator_pubkey, e, e') (text_eq_refl bytes)

  -- A new task is saved and enqueued.
  accept_task-new :
      (task : ComputeTask) (now : ℤ) (st : AppState)
      → st.storage.faults ≡ []
      → (load_task task.orchestrator_pubkey task.request.task_id st.storage).0 ≡ ok none
      → accept_task to_vec task now (λ s. s) st
        ≡ hold_and_enqueue to_vec task (record st { storage = (save_task task now st.storage).1 })
  unfolding accept_task store_task
  accept_task-new task now st e new =
      rw
        (
          new,
          load-keeps task.orchestrator_pubkey task.request.task_id st.storage e,
          (save-new task now st.storage e new).0,
        )
        refl

  -- A task whose payload is stored is accepted with nothing done.
  accept_task-known :
      (task existing : ComputeTask) (now : ℤ) (meanwhile : Storage → Storage) (bytes : Bytes)
      (st : AppState)
      → st.storage.faults ≡ []
      → (load_task task.orchestrator_pubkey task.request.task_id st.storage).0 ≡ ok (some existing)
      → existing.orchestrator_pubkey ≡ task.orchestrator_pubkey
      → to_vec (without_node existing.request) ≡ some bytes
      → to_vec (without_node task.request) ≡ some bytes
      → accept_task to_vec task now meanwhile st ≡ (ok tt, st)
  unfolding accept_task
  accept_task-known task existing now meanwhile bytes st e known k b b' =
      rw
        (
          known,
          load-keeps task.orchestrator_pubkey task.request.task_id st.storage e,
          matches_refl existing task bytes k b b',
        )
        refl

  -- The parts that the queueing leaves alone.
  hold_and_enqueue-keeps :
      (task : ComputeTask) (st : AppState)
      → let (answer, st') = hold_and_enqueue to_vec task st in
        (st'.config ≡ st.config)
        × (st'.supported_gates ≡ st.supported_gates)
        × (st'.storage ≡ st.storage)
        × (if st.receiving
            then (answer ≡ ok tt) × (st'.queue ≡ st.queue ++ (task ∷ []))
            else (answer ≡ err queue_full) × (st'.queue ≡ st.queue))
  unfolding hold_and_enqueue enqueue
  hold_and_enqueue-keeps task st = elim (Bool-cases st.receiving) [
    | inl t ↦ rw t (refl, refl, refl, (refl, refl))
    | inr f ↦ rw f (refl, refl, refl, (refl, refl))
  ]

  module _ (from_value : Value → Option Gate) (fuel : ℕ) (request : ComputeRequest) (pubkey : Text)
      (bytes : Bytes) where
    -- The checks before the database.
    abbrev pub IsValidFor : AppState → Type 0
    IsValidFor st =
        (request.qubit_count
          ≤ compact_qubit_limit request.output_mode st.config.max_qubits st.config.max_mps_qubits)
        × (validate_circuit_logic from_value fuel request.circuit request.qubit_count
              st.supported_gates
            ≡ ok tt)

    accept-valid :
        (budget : Option Budget) (now_ms : ℕ) (now : ℤ) (meanwhile : Storage → Storage)
        (st : AppState)
        → IsValidFor st
        → accept_compute_task to_vec from_value fuel request pubkey budget now_ms now meanwhile st
          ≡ accept_task to_vec (task_of request pubkey budget now_ms st) now meanwhile st
    unfolding accept_compute_task
    accept-valid budget now_ms now meanwhile st (q, v) =
        let fits : ltb
              (compact_qubit_limit request.output_mode st.config.max_qubits
                st.config.max_mps_qubits)
              request.qubit_count
            ≡ false =
          ground (arith, q) in
        rw (fits, v) refl

    -- A valid dispatch of a task whose payload is stored.
    accept-known :
        (task : ComputeTask) (budget : Option Budget) (now_ms : ℕ) (now : ℤ)
        (meanwhile : Storage → Storage) (st : AppState)
        → st.storage.faults ≡ []
        → IsValidFor st
        → (load_task pubkey request.task_id st.storage).0 ≡ ok (some task)
        → task.orchestrator_pubkey ≡ pubkey
        → to_vec (without_node task.request) ≡ some bytes
        → to_vec (without_node (task_of request pubkey budget now_ms st).request) ≡ some bytes
        → accept_compute_task to_vec from_value fuel request pubkey budget now_ms now meanwhile st
          ≡ (ok tt, st)
    accept-known task budget now_ms now meanwhile st e v known k b b' =
        accept-valid budget now_ms now meanwhile st v
        ∙ accept_task-known (task_of request pubkey budget now_ms st) task now meanwhile bytes st e
            known k b b'

    -- A valid dispatch of a task that is not stored is saved and enqueued, and the same dispatch
    -- again, under whatever budget and whenever, is accepted with nothing done. If the worker is gone
    -- the first answer is that the queue is full; the row stays, and the second answer is that the
    -- task is accepted although it is in no queue.
    pub accept_twice :
        (budget budget' : Option Budget) (now_ms now_ms' : ℕ) (now now' : ℤ)
        (meanwhile : Storage → Storage) (st : AppState)
        → st.storage.faults ≡ []
        → (load_task pubkey request.task_id st.storage).0 ≡ ok none
        → IsValidFor st
        → to_vec (without_node (task_of request pubkey budget now_ms st).request) ≡ some bytes
        → let task = task_of request pubkey budget now_ms st in
          let (answer, st1) =
            accept_compute_task to_vec from_value fuel request pubkey budget now_ms now
              (λ s. s)
              st in
          ((load_task pubkey request.task_id st1.storage).0 ≡ ok (some task))
          × (if st.receiving
              then (answer ≡ ok tt) × (st1.queue ≡ st.queue ++ (task ∷ []))
              else (answer ≡ err queue_full) × (st1.queue ≡ st.queue))
          × (accept_compute_task to_vec from_value fuel request pubkey budget' now_ms' now'
                meanwhile st1
              ≡ (ok tt, st1))
    accept_twice budget budget' now_ms now_ms' now now' meanwhile st e new v b =
        let task = task_of request pubkey budget now_ms st in
        let saved : AppState = record st { storage = (save_task task now st.storage).1 } in
        let (k0, k1, k2, k3) = hold_and_enqueue-keeps task saved in
        let first =
          accept-valid budget now_ms now (λ s. s) st v ∙ accept_task-new task now st e new in
        let st1 = (hold_and_enqueue to_vec task saved).1 in
        let known : (load_task pubkey request.task_id st1.storage).0 ≡ ok (some task) =
          rw k2 (save-new task now st.storage e new).1 in
        subst
          (λ (r : Accepted).
            ((load_task pubkey request.task_id r.1.storage).0 ≡ ok (some task))
            × (if st.receiving
                then (r.0 ≡ ok tt) × (r.1.queue ≡ st.queue ++ (task ∷ []))
                else (r.0 ≡ err queue_full) × (r.1.queue ≡ st.queue))
            × (accept_compute_task to_vec from_value fuel request pubkey budget' now_ms' now'
                  meanwhile r.1
                ≡ (ok tt, r.1)))
          (sym first)
          (
            known,
            k3,
            accept-known task budget' now_ms' now' meanwhile st1
                (ap (λ (s : Storage). s.faults) k2 ∙ save-keeps task now st.storage e)
                (rw (k0, k1) v) known refl b b,
          )
