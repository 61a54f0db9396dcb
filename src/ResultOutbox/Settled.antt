-- ===== src/ResultOutbox/Settled.antt =====
-- A result is not lost between the worker and the orchestrator (src/application/result_outbox.rs),
-- where SQLite does not fail.
use wqc_node.Base.{
  ◌≡◌, refl, ap, ◌∙◌, Bool, true, false, [], Option, none, some, ok, err, Bool-cases, Option-cases,
  inl, inr, ◌⊎◌,
}
use wqc_node.Base.Bytes.{Bytes}
use wqc_node.Base.Int.{ℤ}
use wqc_node.Base.Text.{Text, text, text_eq}
use wqc_node.Models.{ComputeTask, TaskResultPayload, Proof}
use wqc_node.PcsOutbox.Requests.{retain_after_result, take_over, new_job}
use wqc_node.ResultOutbox.{
  Wire, not_sent, build_result_wire_body, deliver_result, try_deliver_pending, status_of, retain_if,
}
use wqc_node.Storage.{Storage, ResultCols, key}
use wqc_node.Storage.Results.{upsert_pending_result, delete_pending_result}
use wqc_node.Storage.Tasks.{update_status}
use wqc_node.Storage.Jobs.{get_pending_pcs}
use wqc_node.Storage.Outbox.{find-upsert_result}
use wqc_node.Storage.Rows.{Row, find_row}
use wqc_node.Storage.Steps.{
  get-keeps, upsert-results, upsert_result-ok, update_status-keeps, delete_result-gone,
}

pub retain-results :
    (task : ComputeTask) (proof : Proof) (now : ℤ) (db : Storage)
    → db.faults ≡ []
    → (retain_after_result task proof now db).1.pending_results ≡ db.pending_results
unfolding retain_after_result
retain-results task proof now db e =
    let pubkey = task.orchestrator_pubkey in
    let id = task.request.task_id in
    rw (get-keeps pubkey id db e) (
      upsert-results pubkey id db e (take_over (new_job id proof) (get_pending_pcs pubkey id db).0)
        now)

-- Retaining the proof does not fail the delivery and leaves the outbox of results alone.
retain_if-results :
    (task : ComputeTask) (payload : TaskResultPayload) (now : ℤ) (db : Storage)
    → db.faults ≡ []
    → let (r, built, db') = retain_if task payload now db in
      (r ≡ ok tt) × (db'.pending_results ≡ db.pending_results)
retain_if-results task payload now db e =
    elim (Bool-cases (text_eq payload.status (text "success"))) [
      | inr f ↦ rw f (refl, refl)
      | inl t ↦ elim (Option-cases payload.proof) [
        | inl n ↦ rw (t, n) (refl, refl)
        | inr (proof, p) ↦ rw (t, p) (refl, retain-results task proof now db e)
      ]
    ]

-- The row of a task in the outbox.
abbrev pub row_of : ComputeTask → Storage → Option (Row ResultCols)
row_of task db =
    find_row (key task.orchestrator_pubkey task.request.task_id) db.pending_results.rows

module _ (to_json : Wire → Option Bytes) (sends : Bytes → Bool) (peer_id : Text)
    (task : ComputeTask) (payload : TaskResultPayload) (now : ℤ) where
  -- Where SQLite does not fail, a result that can be encoded is in the outbox as the bytes that were to
  -- be sent, with no attempts, and the delivery is answered as not sent, where writing these bytes to a
  -- stream fails. Where they are written and the stream is closed, the result is not in the outbox and
  -- the delivery is answered as done.
  pub deliver_result-settled :
      (wire : Wire) (body : Bytes) (db : Storage)
      → db.faults ≡ []
      → build_result_wire_body task payload peer_id ≡ ok wire
      → to_json wire ≡ some body
      → let (r, built, db') = deliver_result to_json sends peer_id task payload now db in
        ((sends body ≡ true) × (r ≡ ok tt) × (row_of task db' ≡ none))
        ⊎ ((sends body ≡ false)
            × (r ≡ err not_sent)
            × ((row : Row ResultCols) × (row_of task db' ≡ some row)
                × (row.cols.wire_body ≡ body)
                × (row.cols.attempts ≡ 0)))
  unfolding deliver_result try_deliver_pending
  deliver_result-settled wire body db e ew ej =
      let pubkey = task.orchestrator_pubkey in
      let id = task.request.task_id in
      let db1 = (upsert_pending_result pubkey id body now db).1 in
      let (up, e1) = upsert_result-ok pubkey id db e body now in
      let (same, e2) = update_status-keeps pubkey id db1 e1 (status_of payload.status) in
      let db2 = (update_status pubkey id (status_of payload.status) db1).1 in
      let (del, e3, gone) = delete_result-gone pubkey id db2 e2 in
      let db3 = (delete_pending_result pubkey id db2).1 in
      let (r, kept) = retain_if-results task payload now db3 e3 in
      let ((row, found, b, a, c), last) = find-upsert_result pubkey id body now db e in
      elim (Bool-cases (sends body)) [
        | inl t ↦
            rw (ew, ej, up, t, del)
              (inl (refl, r, ap (λ t. find_row (key pubkey id) t.rows) kept ∙ gone))
        | inr f ↦
            rw (ew, ej, up, f)
              (inr
                (refl, refl, (row, ap (λ t. find_row (key pubkey id) t.rows) same ∙ found, b, a)))
      ]
