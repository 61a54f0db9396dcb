-- ===== src/Storage/Unique.antt =====
-- No sequence of the statements of src/infra/storage.rs breaks the keys of a table.
use wqc_node.Base.{ℕ, refl, Bool, true, false, List, [], ◌∷◌, Result, Bool-cases, inl, inr}
use wqc_node.Base.Bytes.{Bytes}
use wqc_node.Base.Int.{ℤ}
use wqc_node.Base.Text.{Text}
use wqc_node.Jobs.{PendingPcsJob}
use wqc_node.Models.{ComputeTask}
use wqc_node.Storage.{Storage, StorageError, GeoInfo, new_storage, run_statement, key_of, key}
use wqc_node.Storage.Tasks.{save_task, update_status, prune_terminal_tasks, set_status}
use wqc_node.Storage.Results.{
  upsert_pending_result, delete_pending_result, increment_pending_result_attempts, replace_result,
  bump_result,
}
use wqc_node.Storage.Jobs.{
  upsert_pending_pcs, delete_pending_pcs, delete_pending_pcs_by_id, increment_pending_pcs_attempts,
  replace_job, bump_pcs,
}
use wqc_node.Storage.Geo.{save_geo_cache}
use wqc_node.Storage.Rows.{has_key}
use wqc_node.Storage.Rows.Order.{
  IsTable, Ordered-update_key, Ordered-update_id, Ordered-delete_where, upsert-IsTable,
  append_row-IsTable,
}

abbrev pub IsSound : Storage → Type 0
IsSound st = IsTable st.tasks × IsTable st.pending_results × IsTable st.pending_pcs

-- A statement keeps the tables sound if its effect does: a failed one has none.
statement-IsSound {ℓ} :
    {A : Type ℓ} (op : Storage → Result A StorageError × Storage)
    → ((st : Storage) → IsSound st → IsSound (op st).1)
    → (faults : List Bool) (st : Storage) → IsSound st
    → IsSound (run_statement faults op st).1
statement-IsSound op keep [] st v = keep st v
statement-IsSound op keep (true ∷ fs) st v = v
statement-IsSound op keep (false ∷ fs) st v = keep (record st { faults = fs }) v

-- The statements that write.
pub data Write : Type 0 where
  saves : ComputeTask → ℤ → Write
  sets_status : Text → Text → Text → Write
  prunes : ℤ → Write
  upserts_result : Text → Text → Bytes → ℤ → Write
  deletes_result deletes_pcs : Text → Text → Write
  bumps_result bumps_pcs deletes_pcs_id : ℕ → Write
  upserts_pcs : Text → Text → PendingPcsJob → ℤ → Write
  saves_geo : GeoInfo → ℤ → Write

unfoldable pub write : Write → Storage → Storage
write (saves task now) st = (save_task task now st).1
write (sets_status k t s) st = (update_status k t s st).1
write (prunes older) st = (prune_terminal_tasks older st).1
write (upserts_result k t body now) st = (upsert_pending_result k t body now st).1
write (deletes_result k t) st = (delete_pending_result k t st).1
write (bumps_result id) st = (increment_pending_result_attempts id st).1
write (upserts_pcs k t job now) st = (upsert_pending_pcs k t job now st).1
write (deletes_pcs k t) st = (delete_pending_pcs k t st).1
write (deletes_pcs_id id) st = (delete_pending_pcs_by_id id st).1
write (bumps_pcs id) st = (increment_pending_pcs_attempts id st).1
write (saves_geo geo now) st = (save_geo_cache geo now st).1

save_task-IsSound :
    (task : ComputeTask) (now : ℤ) (st : Storage) → IsSound st → IsSound (save_task task now st).1
unfolding save_task
save_task-IsSound task now st v =
    statement-IsSound _
      (λ st v. elim (Bool-cases (has_key (key_of task) st.tasks.rows)) [
        | inl old ↦ rw old v
        | inr new ↦ rw new (append_row-IsTable (key_of task) now _ st.tasks new v.0, v.1, v.2)
      ])
      st.faults st v

pub write-IsSound : (w : Write) (st : Storage) → IsSound st → IsSound (write w st)
unfolding write update_status prune_terminal_tasks upsert_pending_result delete_pending_result
    increment_pending_result_attempts upsert_pending_pcs delete_pending_pcs delete_pending_pcs_by_id
    increment_pending_pcs_attempts save_geo_cache
write-IsSound (saves task now) st v = save_task-IsSound task now st v
write-IsSound (sets_status k t s) st v =
    statement-IsSound _
      (λ st v. (Ordered-update_key (key k t) (set_status s) (λ r. (refl, refl)) _ _ v.0, v.1, v.2))
      st.faults st v
write-IsSound (prunes older) st v =
    statement-IsSound _ (λ st v. (Ordered-delete_where _ _ _ v.0, v.1, v.2)) st.faults st v
write-IsSound (upserts_result k t body now) st v =
    statement-IsSound _
      (λ st v. (
        v.0,
        upsert-IsTable (key k t) now _ (replace_result body now) (λ r. (refl, refl))
            st.pending_results v.1,
        v.2,
      ))
      st.faults st v
write-IsSound (deletes_result k t) st v =
    statement-IsSound _ (λ st v. (v.0, Ordered-delete_where _ _ _ v.1, v.2)) st.faults st v
write-IsSound (bumps_result id) st v =
    statement-IsSound _
      (λ st v. (v.0, Ordered-update_id id bump_result (λ r. (refl, refl)) _ _ v.1, v.2)) st.faults
      st v
write-IsSound (upserts_pcs k t job now) st v =
    statement-IsSound _
      (λ st v. (
        v.0,
        v.1,
        upsert-IsTable (key k t) now _ (replace_job job) (λ r. (refl, refl)) st.pending_pcs v.2,
      ))
      st.faults st v
write-IsSound (deletes_pcs k t) st v =
    statement-IsSound _ (λ st v. (v.0, v.1, Ordered-delete_where _ _ _ v.2)) st.faults st v
write-IsSound (deletes_pcs_id id) st v =
    statement-IsSound _ (λ st v. (v.0, v.1, Ordered-delete_where _ _ _ v.2)) st.faults st v
write-IsSound (bumps_pcs id) st v =
    statement-IsSound _
      (λ st v. (v.0, v.1, Ordered-update_id id bump_pcs (λ r. (refl, refl)) _ _ v.2)) st.faults st v
write-IsSound (saves_geo geo now) st v = statement-IsSound _ (λ st v. v) st.faults st v

pub writes : List Write → Storage → Storage
writes [] st = st
writes (w ∷ ws) st = writes ws (write w st)

writes-IsSound : (ws : List Write) (st : Storage) → IsSound st → IsSound (writes ws st)
unfolding writes
writes-IsSound [] st v = v
writes-IsSound (w ∷ ws) st v = writes-IsSound ws (write w st) (write-IsSound w st v)

-- After any writes on a new database, whichever of them SQLite fails, each of the three tables has
-- rising ids below the next one, and no two rows with the same orchestrator and task.
pub writes_new-IsSound :
    (ws : List Write) (faults : List Bool) → IsSound (writes ws (new_storage faults))
writes_new-IsSound ws faults = writes-IsSound ws (new_storage faults) (tt, tt, tt)
