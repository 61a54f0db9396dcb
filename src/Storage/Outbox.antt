-- ===== src/Storage/Outbox.antt =====
-- What is read back from the outboxes of src/infra/storage.rs, where SQLite does not fail.
use wqc_node.Base.{◌≡◌, ◌≢◌, refl, [], ◌∷◌, Option, none, some, Result, ok, err, arith, ◌⊎◌}
use wqc_node.Base.Bytes.{Bytes}
use wqc_node.Base.Int.{ℤ}
use wqc_node.Base.Text.{Text, text}
use wqc_node.Jobs.{PendingPcsJob}
use wqc_node.Models.{ComputeTask}
use wqc_node.Storage.{Storage, StorageError, PcsCols, ResultCols, key, key_of, unique_violation}
use wqc_node.Storage.Jobs.{upsert_pending_pcs, get_pending_pcs, delete_pending_pcs, replace_job}
use wqc_node.Storage.Tasks.{save_task, load_task, update_status, set_status}
use wqc_node.Storage.Results.{upsert_pending_result, delete_pending_result, replace_result}
use wqc_node.Storage.Rows.{Row, Key, upsert, key_eq_iff, find_row}
use wqc_node.Storage.Rows.Lookup.{
  find_row-upsert, find_row-delete_key, find_row-update_key, find_row-append, has_key-find_row,
  upserted,
}

-- The state after a statement, and what it returns.
abbrev after {ℓ} : {A : Type ℓ} → Result A StorageError × Storage → Storage
after r = r.1

abbrev fresh_or_kept : Option (Row PcsCols) → ℤ → ℤ
fresh_or_kept none now = now
fresh_or_kept (some r) now = r.created_at

-- A job is read back as it was stored, with no attempts counted, and with the creation time of the
-- row that was there before, or the current time where there was none.
pub get-upsert_pcs :
    (pubkey id : Text) (job : PendingPcsJob) (now : ℤ) (st : Storage)
    → st.faults ≡ []
    → (r : Row PcsCols) × ((get_pending_pcs pubkey id (upsert_pending_pcs pubkey id job now st).1).0
        ≡ ok (some r))
      × (r.cols.job ≡ job)
      × (r.cols.attempts ≡ 0)
      × (r.created_at ≡ fresh_or_kept (find_row (key pubkey id) st.pending_pcs.rows) now)
unfolding get_pending_pcs upsert_pending_pcs
get-upsert_pcs pubkey id job now st e = (
  upserted st.pending_pcs (key pubkey id) now (record { job = job; attempts = 0 })
      (replace_job job),
  ground (
    arith,
    find_row-upsert (key pubkey id) (key pubkey id) now (record { job = job; attempts = 0 })
        (replace_job job) (λ r. refl) st.pending_pcs,
    key_eq_iff (key pubkey id) (key pubkey id),
  ),
  ground arith,
  ground arith,
  ground arith,
)

-- Deleting a job or storing one under a key changes what is read under no other key, and after the
-- deletion its own key has no job.
pub get_pcs_others :
    (pubkey id pubkey' id' : Text) (job : PendingPcsJob) (now : ℤ) (st : Storage)
    → st.faults ≡ []
    → key pubkey id ≢ key pubkey' id'
    → ((get_pending_pcs pubkey id (delete_pending_pcs pubkey id st).1).0 ≡ ok none)
      × ((get_pending_pcs pubkey' id' (delete_pending_pcs pubkey id st).1).0
          ≡ (get_pending_pcs pubkey' id' st).0)
      × ((get_pending_pcs pubkey' id' (upsert_pending_pcs pubkey id job now st).1).0
          ≡ (get_pending_pcs pubkey' id' st).0)
unfolding get_pending_pcs upsert_pending_pcs delete_pending_pcs
get_pcs_others pubkey id pubkey' id' job now st e ne = (
  ground (
    arith,
    find_row-delete_key (key pubkey id) (key pubkey id) st.pending_pcs.rows,
    key_eq_iff (key pubkey id) (key pubkey id),
  ),
  ground (
    arith,
    find_row-delete_key (key pubkey' id') (key pubkey id) st.pending_pcs.rows,
    key_eq_iff (key pubkey id) (key pubkey' id'),
  ),
  ground (
    arith,
    find_row-upsert (key pubkey' id') (key pubkey id) now (record { job = job; attempts = 0 })
        (replace_job job) (λ r. refl) st.pending_pcs,
    key_eq_iff (key pubkey id) (key pubkey' id'),
  ),
)

abbrev pub stored : Storage → Key → Option ComputeTask
stored st k = elim (find_row k st.tasks.rows) [ none ↦ none | some r ↦ some r.cols.payload ]

-- Saving a task whose orchestrator and id have no row stores it, so that it is read back, as one
-- more row; where they have a row the task is refused as a duplicate and no row changes.
pub save_task_cases :
    (task : ComputeTask) (now : ℤ) (st : Storage)
    → st.faults ≡ []
    → let saved = save_task task now st in
      ((stored st (key_of task) ≡ none)
        × (saved.0 ≡ ok tt)
        × ((load_task task.orchestrator_pubkey task.request.task_id saved.1).0 ≡ ok (some task)))
      ⊎ ((stored st (key_of task) ≢ none)
          × (saved.0 ≡ err unique_violation)
          × (saved.1.tasks ≡ st.tasks))
unfolding save_task load_task find_row
save_task_cases task now st e = ground (
  arith,
  has_key-find_row (key_of task) st.tasks.rows,
  find_row-append (key_of task) st.tasks.rows (
      record {
        id = st.tasks.next_id;
        key = key_of task;
        created_at = now;
        cols = record { payload = task; status = text "pending" };
      }
      ∷ []),
  key_eq_iff (key_of task) (key_of task),
)

-- A status update changes the payload of no task.
pub load-update_status :
    (pubkey id status pubkey' id' : Text) (st : Storage)
    → st.faults ≡ []
    → (load_task pubkey' id' (update_status pubkey id status st).1).0 ≡ (load_task pubkey' id' st).0
unfolding load_task update_status
load-update_status pubkey id status pubkey' id' st e = ground (
  arith,
  find_row-update_key (key pubkey' id') (key pubkey id) (set_status status) (λ r. refl)
      st.tasks.rows,
)

-- A result is in the outbox from its upsert to its deletion, with its body and no attempts counted.
pub find-upsert_result :
    (pubkey id : Text) (body : Bytes) (now : ℤ) (st : Storage)
    → st.faults ≡ []
    → let st1 = (upsert_pending_result pubkey id body now st).1 in
      ((r : Row ResultCols) × (find_row (key pubkey id) st1.pending_results.rows ≡ some r)
        × (r.cols.wire_body ≡ body)
        × (r.cols.attempts ≡ 0)
        × (r.created_at ≡ now))
      × (find_row (key pubkey id) (delete_pending_result pubkey id st1).1.pending_results.rows
          ≡ none)
unfolding upsert_pending_result delete_pending_result
find-upsert_result pubkey id body now st e =
    let cols : ResultCols = record { wire_body = body; attempts = 0 } in
    let t = st.pending_results in
    (
      (
        upserted t (key pubkey id) now cols (replace_result body now),
        ground (
          arith,
          find_row-upsert (key pubkey id) (key pubkey id) now cols (replace_result body now)
              (λ r. refl) t,
          key_eq_iff (key pubkey id) (key pubkey id),
        ),
        ground arith,
        ground arith,
        ground arith,
      ),
      ground (
        arith,
        find_row-delete_key (key pubkey id) (key pubkey id)
            (upsert (key pubkey id) now cols (replace_result body now) t).rows,
        key_eq_iff (key pubkey id) (key pubkey id),
      ),
    )
