-- ===== src/Storage/Prune.antt =====
-- What the retention of src/infra/storage.rs deletes, and how long a location is cached.
use wqc_node.Base.{
  ℕ, ◌+◌, ◌≡◌, Bool, List, [], ◌∷◌, none, some, ok, arith, if◌then◌else◌, length, filter,
}
use wqc_node.Base.Int.{ℤ, pos, ◌-ℤ◌, ltb_ℤ}
use wqc_node.Base.Text.{Text}
use wqc_node.Storage.{Storage, TaskCols, GeoInfo, key}
use wqc_node.Storage.Tasks.{prune_terminal_tasks, is_prunable}
use wqc_node.Storage.Geo.{get_cached_geo, save_geo_cache}
use wqc_node.Storage.Rows.{Row, find_row, delete_where}
use wqc_node.Storage.Rows.Order.{IsTable, find_row-delete_where, unless}

length-delete_where :
    (p : Row TaskCols → Bool) (rs : List (Row TaskCols))
    → length (filter p rs) + length (delete_where p rs) ≡ length rs
unfolding delete_where
length-delete_where p [] = omega arith
length-delete_where p (r ∷ rs) = ground (arith, length-delete_where p rs)

-- Where SQLite does not fail, pruning a sound table deletes the task of a key exactly when its row
-- is completed or failed, older than the cutoff and without a row in the outbox; every other key
-- finds the row it found before; the number returned is that of the rows deleted, and the outboxes
-- are as before.
pub prune_exact :
    (older : ℤ) (pubkey id : Text) (st : Storage)
    → st.faults ≡ []
    → IsTable st.tasks
    → let (deleted, st1) = prune_terminal_tasks older st in
      (find_row (key pubkey id) st1.tasks.rows
        ≡ unless
            (is_prunable older st.pending_results.rows)
            (find_row (key pubkey id) st.tasks.rows))
      × ((n : ℕ) × (deleted ≡ ok n) × (n + length st1.tasks.rows ≡ length st.tasks.rows))
      × (st1.pending_results ≡ st.pending_results)
      × (st1.pending_pcs ≡ st.pending_pcs)
unfolding prune_terminal_tasks
prune_exact older pubkey id st e v =
    let gone = is_prunable older st.pending_results.rows in
    (
      ground (arith, find_row-delete_where (key pubkey id) gone st.tasks.next_id st.tasks.rows v),
      (
        length (filter gone st.tasks.rows),
        ground arith,
        ground (arith, length-delete_where gone st.tasks.rows),
      ),
      ground arith,
      ground arith,
    )

-- A location that was stored is read back exactly while it is younger than a day.
pub cached_geo_ttl :
    (geo : GeoInfo) (stored_at now : ℤ) (st : Storage)
    → st.faults ≡ []
    → ((get_cached_geo now (save_geo_cache geo stored_at st).1).0
        ≡ (if ltb_ℤ (now -ℤ stored_at) (pos 86400) then ok (some geo) else ok none))
unfolding get_cached_geo save_geo_cache
cached_geo_ttl geo stored_at now st e = ground arith
