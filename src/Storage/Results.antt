-- ===== src/Storage/Results.antt =====
-- The table `pending_results` of src/infra/storage.rs, the outbox of results.
use wqc_node.Base.{ℕ, ◌+◌, List, Result, ok, length}
use wqc_node.Base.Bytes.{Bytes}
use wqc_node.Base.Int.{ℤ}
use wqc_node.Base.Text.{Text}
use wqc_node.Storage.{ResultCols, Storage, StorageError, statement, Done, key}
use wqc_node.Storage.Rows.{Row, update_id, delete_where, upsert, order_by_created_at, key_eq}

-- `DO UPDATE SET wire_body, attempts = 0, created_at`
abbrev pub replace_result : Bytes → ℤ → Row ResultCols → Row ResultCols
replace_result wire_body now r = record r {
  created_at = now;
  cols = record { wire_body = wire_body; attempts = 0 };
}

unfoldable pub upsert_pending_result : Text → Text → Bytes → ℤ → Storage → Done
upsert_pending_result orchestrator_pubkey sub_task_id wire_body now = statement λ st. (
  ok tt,
  record st {
    pending_results =
        upsert (key orchestrator_pubkey sub_task_id) now
          (record { wire_body = wire_body; attempts = 0 }) (replace_result wire_body now)
          st.pending_results;
  },
)

unfoldable pub delete_pending_result : Text → Text → Storage → Done
delete_pending_result orchestrator_pubkey sub_task_id = statement λ st. (
  ok tt,
  record st {
    pending_results = record st.pending_results {
      rows =
          delete_where (λ r. key_eq r.key (key orchestrator_pubkey sub_task_id))
            st.pending_results.rows;
    };
  },
)

unfoldable pub list_pending_results :
    Storage → Result (List (Row ResultCols)) StorageError × Storage
list_pending_results = statement λ st. (ok (order_by_created_at st.pending_results.rows), st)

unfoldable pub count_pending_results : Storage → Result ℕ StorageError × Storage
count_pending_results = statement λ st. (ok (length st.pending_results.rows), st)

abbrev pub bump_result : Row ResultCols → Row ResultCols
bump_result r = record r { cols = record r.cols { attempts = r.cols.attempts + 1 } }

unfoldable pub increment_pending_result_attempts : ℕ → Storage → Done
increment_pending_result_attempts id = statement λ st. (
  ok tt,
  record st {
    pending_results = record st.pending_results {
      rows = update_id id bump_result st.pending_results.rows;
    };
  },
)
