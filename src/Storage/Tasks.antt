-- ===== src/Storage/Tasks.antt =====
-- The table `tasks` of src/infra/storage.rs.
use wqc_node.Base.{
  ℕ, Bool, not, ◌&&◌, ◌||◌, List, map, Option, none, some, Result, ok, err, if◌then◌else◌, filter,
  length,
}
use wqc_node.Base.Int.{ℤ, ltb_ℤ}
use wqc_node.Base.Text.{Text, text, text_eq}
use wqc_node.Models.{ComputeTask}
use wqc_node.Storage.{
  TaskCols, ResultCols, Storage, StorageError, unique_violation, statement, Done, key, key_of,
}
use wqc_node.Storage.Rows.{
  Key, Row, find_row, update_key, delete_where, append_row, has_key, order_by_created_at,
}

abbrev insert_task : ComputeTask → ℤ → Storage → Done
insert_task task now st =
    if has_key (key_of task) st.tasks.rows then (err unique_violation, st) else (
      ok tt,
      record st {
        tasks =
            append_row (key_of task) now (record { payload = task; status = text "pending" })
              st.tasks;
      },
    )

unfoldable pub save_task : ComputeTask → ℤ → Storage → Done
save_task task now = statement (insert_task task now)

abbrev select_task : Key → Storage → Result (Option ComputeTask) StorageError × Storage
select_task k st =
    (ok (elim (find_row k st.tasks.rows) [ none ↦ none | some r ↦ some r.cols.payload ]), st)

unfoldable pub load_task :
    Text → Text → Storage → Result (Option ComputeTask) StorageError × Storage
load_task orchestrator_pubkey task_id = statement (select_task (key orchestrator_pubkey task_id))

abbrev pub set_status : Text → Row TaskCols → Row TaskCols
set_status status r = record r { cols = record r.cols { status = status } }

unfoldable pub update_status : Text → Text → Text → Storage → Done
update_status orchestrator_pubkey task_id status = statement λ st. (
  ok tt,
  record st {
    tasks = record st.tasks {
      rows = update_key (key orchestrator_pubkey task_id) (set_status status) st.tasks.rows;
    };
  },
)

abbrev pub is_pending : Row TaskCols → Bool
is_pending r = text_eq r.cols.status (text "pending")

unfoldable pub get_pending_tasks : Storage → Result (List ComputeTask) StorageError × Storage
get_pending_tasks = statement λ st.
    (ok (map (λ r. r.cols.payload) (order_by_created_at (filter is_pending st.tasks.rows))), st)

-- The condition of the `DELETE`: terminal, older, and with no row in the outbox.
abbrev pub is_prunable : ℤ → List (Row ResultCols) → Row TaskCols → Bool
is_prunable older_than_unix outbox r =
    (text_eq r.cols.status (text "completed") || text_eq r.cols.status (text "failed"))
    && ltb_ℤ r.created_at older_than_unix
    && not (has_key r.key outbox)

unfoldable pub prune_terminal_tasks : ℤ → Storage → Result ℕ StorageError × Storage
prune_terminal_tasks older_than_unix = statement λ st.
    let gone = is_prunable older_than_unix st.pending_results.rows in
    (
      ok (length (filter gone st.tasks.rows)),
      record st { tasks = record st.tasks { rows = delete_where gone st.tasks.rows } },
    )

abbrev pub count_status : Text → List (Row TaskCols) → ℕ
count_status status rows = length (filter (λ r. text_eq r.cols.status status) rows)

-- The buckets are 0 where no group has the status.
unfoldable pub count_tasks_by_status : Storage → Result (ℕ × ℕ × ℕ) StorageError × Storage
count_tasks_by_status = statement λ st. (
  ok (
    count_status (text "pending") st.tasks.rows,
    count_status (text "completed") st.tasks.rows,
    count_status (text "failed") st.tasks.rows,
  ),
  st,
)
