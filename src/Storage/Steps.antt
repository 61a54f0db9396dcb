-- ===== src/Storage/Steps.antt =====
-- Statements of src/infra/storage.rs where SQLite does not fail: what they answer and what they keep.
use wqc_node.Base.{◌≡◌, [], none, some, ok, arith, inl, inr}
use wqc_node.Base.Bytes.{Bytes}
use wqc_node.Base.Int.{ℤ}
use wqc_node.Base.Text.{Text}
use wqc_node.Jobs.{PendingPcsJob}
use wqc_node.Models.{ComputeTask}
use wqc_node.Storage.{Storage, key}
use wqc_node.Storage.Tasks.{save_task, load_task, update_status}
use wqc_node.Storage.Jobs.{get_pending_pcs, upsert_pending_pcs, delete_pending_pcs}
use wqc_node.Storage.Results.{upsert_pending_result, delete_pending_result}
use wqc_node.Storage.Outbox.{save_task_cases}
use wqc_node.Storage.Rows.{key_eq_iff, find_row}
use wqc_node.Storage.Rows.Lookup.{find_row-delete_key}

module _ (pubkey id : Text) (db : Storage) (e : db.faults ≡ []) where
  pub load-keeps : (load_task pubkey id db).1 ≡ db
  unfolding load_task
  load-keeps = ground (arith, e)

  pub get-keeps : (get_pending_pcs pubkey id db).1 ≡ db
  unfolding get_pending_pcs
  get-keeps = ground (arith, e)

  pub upsert-ok :
      (job : PendingPcsJob) (now : ℤ) → (upsert_pending_pcs pubkey id job now db).0 ≡ ok tt
  unfolding upsert_pending_pcs
  upsert-ok job now = ground (arith, e)

  pub upsert-keeps :
      (job : PendingPcsJob) (now : ℤ) → (upsert_pending_pcs pubkey id job now db).1.faults ≡ []
  unfolding upsert_pending_pcs
  upsert-keeps job now = ground (arith, e)

  pub delete-ok : (delete_pending_pcs pubkey id db).0 ≡ ok tt
  unfolding delete_pending_pcs
  delete-ok = ground (arith, e)

  pub delete-gone : (get_pending_pcs pubkey id (delete_pending_pcs pubkey id db).1).0 ≡ ok none
  unfolding get_pending_pcs delete_pending_pcs
  delete-gone = ground (
    arith,
    e,
    find_row-delete_key (key pubkey id) (key pubkey id) db.pending_pcs.rows,
    key_eq_iff (key pubkey id) (key pubkey id),
  )

  pub upsert-results :
      (job : PendingPcsJob) (now : ℤ)
      → (upsert_pending_pcs pubkey id job now db).1.pending_results ≡ db.pending_results
  unfolding upsert_pending_pcs
  upsert-results job now = ground (arith, e)

  pub upsert_result-ok :
      (body : Bytes) (now : ℤ)
      → ((upsert_pending_result pubkey id body now db).0 ≡ ok tt)
        × ((upsert_pending_result pubkey id body now db).1.faults ≡ [])
  unfolding upsert_pending_result
  upsert_result-ok body now = (ground (arith, e), ground (arith, e))

  pub update_status-keeps :
      (status : Text)
      → ((update_status pubkey id status db).1.pending_results ≡ db.pending_results)
        × ((update_status pubkey id status db).1.faults ≡ [])
  unfolding update_status
  update_status-keeps status = (ground (arith, e), ground (arith, e))

  pub delete_result-gone :
      ((delete_pending_result pubkey id db).0 ≡ ok tt)
      × ((delete_pending_result pubkey id db).1.faults ≡ [])
      × (find_row (key pubkey id) (delete_pending_result pubkey id db).1.pending_results.rows
          ≡ none)
  unfolding delete_pending_result
  delete_result-gone = (
    ground (arith, e),
    ground (arith, e),
    ground (
      arith,
      e,
      find_row-delete_key (key pubkey id) (key pubkey id) db.pending_results.rows,
      key_eq_iff (key pubkey id) (key pubkey id),
    ),
  )

module _ (task : ComputeTask) (now : ℤ) (db : Storage) (e : db.faults ≡ []) where
  pub save-keeps : (save_task task now db).1.faults ≡ []
  unfolding save_task
  save-keeps = ground (arith, e)

  -- A task that is not stored yet is saved and is found from then on.
  pub save-new :
      (load_task task.orchestrator_pubkey task.request.task_id db).0 ≡ ok none
      → ((save_task task now db).0 ≡ ok tt)
        × ((load_task task.orchestrator_pubkey task.request.task_id (save_task task now db).1).0
            ≡ ok (some task))
  unfolding load_task
  save-new new = elim (save_task_cases task now db e) [
    | inl (a, b, c) ↦ (b, c)
    | inr (a, b, c) ↦ absurd (a (ground (arith, e, new)))
  ]
