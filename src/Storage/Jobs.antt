-- ===== src/Storage/Jobs.antt =====
-- The table `pending_pcs` of src/infra/storage.rs, the jobs of the leaf PCS.
use wqc_node.Base.{ℕ, ◌+◌, List, Option, Result, ok, ◌==◌}
use wqc_node.Base.Int.{ℤ}
use wqc_node.Base.Text.{Text}
use wqc_node.Jobs.{PendingPcsJob}
use wqc_node.Storage.{PcsCols, Storage, StorageError, statement, Done, key}
use wqc_node.Storage.Rows.{
  Row, find_row, update_id, delete_where, upsert, order_by_created_at, key_eq,
}

-- `DO UPDATE SET job_json, attempts = 0`: `created_at` is kept.
abbrev pub replace_job : PendingPcsJob → Row PcsCols → Row PcsCols
replace_job job r = record r { cols = record { job = job; attempts = 0 } }

unfoldable pub upsert_pending_pcs : Text → Text → PendingPcsJob → ℤ → Storage → Done
upsert_pending_pcs orchestrator_pubkey sub_task_id job now = statement λ st. (
  ok tt,
  record st {
    pending_pcs =
        upsert (key orchestrator_pubkey sub_task_id) now (record { job = job; attempts = 0 })
          (replace_job job) st.pending_pcs;
  },
)

unfoldable pub delete_pending_pcs : Text → Text → Storage → Done
delete_pending_pcs orchestrator_pubkey sub_task_id = statement λ st. (
  ok tt,
  record st {
    pending_pcs = record st.pending_pcs {
      rows =
          delete_where (λ r. key_eq r.key (key orchestrator_pubkey sub_task_id))
            st.pending_pcs.rows;
    };
  },
)

unfoldable pub get_pending_pcs :
    Text → Text → Storage → Result (Option (Row PcsCols)) StorageError × Storage
get_pending_pcs orchestrator_pubkey sub_task_id =
    statement λ st. (ok (find_row (key orchestrator_pubkey sub_task_id) st.pending_pcs.rows), st)

unfoldable pub list_pending_pcs : Storage → Result (List (Row PcsCols)) StorageError × Storage
list_pending_pcs = statement λ st. (ok (order_by_created_at st.pending_pcs.rows), st)

unfoldable pub delete_pending_pcs_by_id : ℕ → Storage → Done
delete_pending_pcs_by_id id = statement λ st. (
  ok tt,
  record st {
    pending_pcs = record st.pending_pcs {
      rows = delete_where (λ r. r.id == id) st.pending_pcs.rows;
    };
  },
)

abbrev pub bump_pcs : Row PcsCols → Row PcsCols
bump_pcs r = record r { cols = record r.cols { attempts = r.cols.attempts + 1 } }

unfoldable pub increment_pending_pcs_attempts : ℕ → Storage → Done
increment_pending_pcs_attempts id = statement λ st. (
  ok tt,
  record st {
    pending_pcs = record st.pending_pcs { rows = update_id id bump_pcs st.pending_pcs.rows };
  },
)
