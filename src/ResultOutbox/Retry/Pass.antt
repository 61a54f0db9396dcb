-- ===== src/ResultOutbox/Retry/Pass.antt =====
-- What one round of the retry loop leaves in the outbox (src/application/result_outbox.rs), where
-- SQLite does not fail.
use wqc_node.Base.{
  ℕ, ◌≡◌, refl, ap, ◌∙◌, Bool, List, [], ◌∷◌, Option, none, some, Result, ok, err, arith,
  if◌then◌else◌, Bool-cases, inl, inr,
}
use wqc_node.Base.Bytes.{Bytes}
use wqc_node.Base.Int.{ℤ}
use wqc_node.Json.{Value}
use wqc_node.Models.{ComputeTask, Proof}
use wqc_node.PcsOutbox.Requests.{retain_after_result, take_over, new_job}
use wqc_node.ResultOutbox.Retry.{
  extract_proof_from_result_wire, retain_found, retain_loaded, retry_entry, retry_entries,
  retry_pass,
}
use wqc_node.ResultOutbox.Retry.Attempts.{
  step, steps, steps-order, steps-settle, settle, find_row-update_id, bump_if,
}
use wqc_node.ResultOutbox.Settled.{retain-results}
use wqc_node.Storage.{Storage, StorageError, ResultCols}
use wqc_node.Storage.Jobs.{get_pending_pcs}
use wqc_node.Storage.Results.{
  list_pending_results, delete_pending_result, increment_pending_result_attempts,
}
use wqc_node.Storage.Rows.{Key, Row, find_row, key_eq, order_by_created_at}
use wqc_node.Storage.Rows.Lookup.{find_row-delete_key}
use wqc_node.Storage.Rows.Order.{IsTable}
use wqc_node.Storage.Steps.{get-keeps, upsert-keeps, load-keeps, delete_result-gone}
use wqc_node.Storage.Tasks.{load_task}

retain-faults :
    (task : ComputeTask) (proof : Proof) (now : ℤ) (db : Storage)
    → db.faults ≡ []
    → (retain_after_result task proof now db).1.faults ≡ []
unfolding retain_after_result
retain-faults task proof now db e =
    let pubkey = task.orchestrator_pubkey in
    let id = task.request.task_id in
    rw (get-keeps pubkey id db e) (
      upsert-keeps pubkey id db e (take_over (new_job id proof) (get_pending_pcs pubkey id db).0)
        now)

-- A database whose outbox is this one, and that does not fail.
abbrev Same : Storage → Storage → Type 0
Same db db' = (db'.pending_results ≡ db.pending_results) × (db'.faults ≡ [])

pub list-lists :
    (db : Storage)
    → db.faults ≡ []
    → list_pending_results db ≡ (ok (order_by_created_at db.pending_results.rows), db)
unfolding list_pending_results
list-lists db e = ground (arith, e)

module _ (from_slice : Bytes → Option Value) (proof_from : Value → Option Proof) where
  retain_found-Same :
      (task : ComputeTask) (found : Option (Option Proof)) (now : ℤ) (db : Storage)
      → db.faults ≡ []
      → Same db (retain_found from_slice proof_from task found now db).1
  retain_found-Same task none now db e = (refl, e)
  retain_found-Same task (some none) now db e = (refl, e)
  retain_found-Same task (some (some proof)) now db e =
      (retain-results task proof now db e, retain-faults task proof now db e)

  pub retain_loaded-Same :
      (body : Bytes) (loaded : Result (Option ComputeTask) StorageError) (now : ℤ) (db : Storage)
      → db.faults ≡ []
      → Same db (retain_loaded from_slice proof_from body loaded now db).1
  retain_loaded-Same body (err x) now db e = (refl, e)
  retain_loaded-Same body (ok none) now db e = (refl, e)
  retain_loaded-Same body (ok (some task)) now db e =
      retain_found-Same task (extract_proof_from_result_wire from_slice proof_from body) now db e

  module _ (sends : ℕ → Bytes → Bool) (k : Key) where
    abbrev row_in : Storage → Option (Row ResultCols)
    row_in db = find_row k db.pending_results.rows

    delete-row :
        (j : Key) (db : Storage)
        → db.faults ≡ []
        → row_in (delete_pending_result j.orchestrator_pubkey j.task_id db).1
          ≡ (if key_eq j k then none else row_in db)
    unfolding delete_pending_result
    delete-row j db e = rw e (find_row-delete_key k j db.pending_results.rows)

    increment-row :
        (i : ℕ) (db : Storage)
        → db.faults ≡ []
        → (row_in (increment_pending_result_attempts i db).1 ≡ bump_if i (row_in db))
          × ((increment_pending_result_attempts i db).1.faults ≡ [])
    unfolding increment_pending_result_attempts
    increment-row i db e = rw e (find_row-update_id k i db.pending_results.rows, refl)

    pub retry_entry-step :
        (now : ℤ) (s : Row ResultCols) (db : Storage)
        → db.faults ≡ []
        → let db' = (retry_entry from_slice proof_from sends now s db).1 in
          (row_in db' ≡ step sends k s (row_in db)) × (db'.faults ≡ [])
    unfolding retry_entry step
    retry_entry-step now s db e = elim (Bool-cases (sends s.id s.cols.wire_body)) [
      | inl sent ↦
          let pubkey = s.key.orchestrator_pubkey in
          let id = s.key.task_id in
          let db1 = (delete_pending_result pubkey id db).1 in
          let (_, e1, _) = delete_result-gone pubkey id db e in
          let e2 : (load_task pubkey id db1).1.faults ≡ [] = rw (load-keeps pubkey id db1 e1) e1 in
          let (same, e3) =
            retain_loaded-Same s.cols.wire_body (load_task pubkey id db1).0 now
              (load_task pubkey id db1).1 e2 in
          rw sent (
            ap (λ t. find_row k t.rows) same
                ∙ ap row_in (load-keeps pubkey id db1 e1)
                ∙ delete-row s.key db e,
            e3,
          )
      | inr failed ↦ rw failed (increment-row s.id db e)
    ]

    retry_entries-steps :
        (now : ℤ) (ss : List (Row ResultCols)) (db : Storage)
        → db.faults ≡ []
        → let db' = (retry_entries from_slice proof_from sends now ss db).1 in
          (row_in db' ≡ steps sends k ss (row_in db)) × (db'.faults ≡ [])
    unfolding retry_entries steps
    retry_entries-steps now [] db e = (refl, e)
    retry_entries-steps now (s ∷ ss) db e =
        let (first, e1) = retry_entry-step now s db e in
        let db1 = (retry_entry from_slice proof_from sends now s db).1 in
        let (rest, e2) = retry_entries-steps now ss db1 e1 in
        (rest ∙ ap (steps sends k ss) first, e2)

    -- A round leaves each row of a well-formed outbox just what its own attempt makes of it: gone
    -- where its bytes were written, and otherwise there, with the same bytes and one attempt more.
    pub retry_pass_lem :
        (now : ℤ) (db : Storage)
        → db.faults ≡ []
        → IsTable db.pending_results
        → let db' = (retry_pass from_slice proof_from sends now db).1 in
          (find_row k db'.pending_results.rows
            ≡ settle sends k (find_row k db.pending_results.rows))
          × (db'.faults ≡ [])
    unfolding retry_pass
    retry_pass_lem now db e table =
        let rows = db.pending_results.rows in
        let (all, kept) = retry_entries-steps now (order_by_created_at rows) db e in
        rw (list-lists db e) (
          all
              ∙ steps-order sends k rows (row_in db)
              ∙ steps-settle sends k db.pending_results.next_id rows table,
          kept,
        )
