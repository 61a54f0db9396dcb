-- ===== src/ResultOutbox/Retry.antt =====
-- The retry loop of src/application/result_outbox.rs. Reading JSON and the sending are parameters;
-- an attempt is for the row with the id that is given.
pub mod Attempts
pub mod Pass
pub mod Rounds
use wqc_node.Base.{
  ℕ, zero, suc, Bool, true, false, not, List, [], ◌∷◌, ◌++◌, Option, none, some, Result, ok, err,
  if◌then◌else◌,
}
use wqc_node.Base.Bytes.{Bytes}
use wqc_node.Base.Int.{ℤ}
use wqc_node.Base.Text.{Text, text}
use wqc_node.Jobs.{PendingPcsJob}
use wqc_node.Json.{Value, null, string, as_object, get, Fields}
use wqc_node.Models.{ComputeTask, Proof}
use wqc_node.PcsOutbox.Requests.{retain_after_result}
use wqc_node.Storage.{Storage, StorageError, ResultCols}
use wqc_node.Storage.Results.{
  list_pending_results, delete_pending_result, increment_pending_result_attempts,
}
use wqc_node.Storage.Rows.{Row}
use wqc_node.Storage.Tasks.{load_task}

-- `Value::get`, which is none but for an object.
unfoldable pub value_get : Text → Value → Option Value
unfolding get
value_get k v = elim (as_object v) [ none ↦ none | some fs ↦ get k fs ]

abbrev pub is_text : Option Value → Bool
is_text (some (string s)) = true
is_text _ = false

module _ (from_slice : Bytes → Option Value) (proof_from : Value → Option Proof) where
  abbrev pub proof_of : Option Value → Option (Option Proof)
  proof_of none = some none
  proof_of (some null) = some none
  proof_of (some p) = elim (proof_from p) [ none ↦ none | some proof ↦ some (some proof) ]

  -- None for an error, which is bytes that are no JSON or a proof that does not read.
  unfoldable pub extract_proof_from_result_wire : Bytes → Option (Option Proof)
  unfolding value_get
  extract_proof_from_result_wire wire_body = elim (from_slice wire_body) [
    | none ↦ none
    | some value ↦
        if is_text (value_get (text "error") value)
        then some none
        else proof_of (value_get (text "proof") value)
  ]

  abbrev pub Retained : Type 0
  Retained = Option PendingPcsJob × Storage

  -- `if let Ok(Some(proof))`
  abbrev pub retain_found : ComputeTask → Option (Option Proof) → ℤ → Storage → Retained
  retain_found task (some (some proof)) now db = retain_after_result task proof now db
  retain_found task (some none) now db = (none, db)
  retain_found task none now db = (none, db)

  -- `if let Ok(Some(task))`
  abbrev pub retain_loaded :
      Bytes → Result (Option ComputeTask) StorageError → ℤ → Storage → Retained
  retain_loaded wire_body (ok (some task)) now db =
      retain_found task (extract_proof_from_result_wire wire_body) now db
  retain_loaded wire_body (ok none) now db = (none, db)
  retain_loaded wire_body (err e) now db = (none, db)

  module _ (sends : ℕ → Bytes → Bool) where
    -- One entry; whether the row could be deleted makes no difference to what follows.
    unfoldable pub retry_entry : ℤ → Row ResultCols → Storage → Retained
    unfolding delete_pending_result load_task extract_proof_from_result_wire retain_after_result
        increment_pending_result_attempts
    retry_entry now entry db =
        let pubkey = entry.key.orchestrator_pubkey in
        let id = entry.key.task_id in
        let db1 = (delete_pending_result pubkey id db).1 in
        let (loaded, db2) = load_task pubkey id db1 in
        let sent = retain_loaded entry.cols.wire_body loaded now db2 in
        if sends entry.id entry.cols.wire_body
        then sent
        else (none, (increment_pending_result_attempts entry.id db).1)

    abbrev pub and_built : Option PendingPcsJob → List PendingPcsJob → List PendingPcsJob
    and_built none jobs = jobs
    and_built (some job) jobs = job ∷ jobs

    -- The loop over the entries: the jobs whose PCS is built then, and the database.
    unfoldable pub retry_entries :
        ℤ → List (Row ResultCols) → Storage → List PendingPcsJob × Storage
    unfolding retry_entry
    retry_entries now [] db = ([], db)
    retry_entries now (entry ∷ entries) db =
        let (built, db1) = retry_entry now entry db in
        let (jobs, db2) = retry_entries now entries db1 in (and_built built jobs, db2)

    abbrev pub retry_listed :
        ℤ → Result (List (Row ResultCols)) StorageError → Storage → List PendingPcsJob × Storage
    retry_listed now (err e) db = ([], db)
    retry_listed now (ok pending) db = retry_entries now pending db

    -- One round of the loop, after the wait.
    unfoldable pub retry_pass : ℤ → Storage → List PendingPcsJob × Storage
    unfolding list_pending_results retry_entries
    retry_pass now db = let (pending, db1) = list_pending_results db in retry_listed now pending db1

  -- The first `n` rounds of the loop, each with what its attempts meet and what the clock reads.
  unfoldable pub retry_rounds : (ℕ → ℕ → Bytes → Bool) → (ℕ → ℤ) → ℕ → Storage → Storage
  unfolding retry_pass
  retry_rounds sends clock zero db = db
  retry_rounds sends clock (suc n) db =
      (retry_pass (sends n) (clock n) (retry_rounds sends clock n db)).1
