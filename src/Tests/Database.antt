-- ===== src/Tests/Database.antt =====
-- The database.
use wqc_node.Base.{◌≡◌, ◌==◌, ◌&&◌, not, any, map, refl, true, false, List, [], ◌∷◌, some, arith}
use wqc_node.Base.Int.{pos, ◌-ℤ◌}
use wqc_node.Base.Text.{text, text_eq}
use wqc_node.Storage.{Storage, new_storage, key}
use wqc_node.Storage.Tasks.{save_task, update_status, is_prunable}
use wqc_node.TaskPrune.{prune_loop_exact, spawn_prune_loop, retention_of}
use wqc_node.Storage.Rows.Order.{unless}
use wqc_node.Storage.Rows.{find_row, update_key, key_eq}
use wqc_node.Storage.Unique.{writes_new-IsSound, IsSound, Write, writes, saves, sets_status}
use wqc_node.Tests.Fixtures.{task, fresh}

abbrev twice : List Write
twice =
    saves task (pos 5)
    ∷ saves task (pos 6)
    ∷ sets_status (text "key") (text "sub") (text "failed")
    ∷ []

writes_new-IsSound_example : IsSound (writes twice (new_storage (false ∷ true ∷ [])))
writes_new-IsSound_example = writes_new-IsSound twice (false ∷ true ∷ [])

-- A task that was saved at 5 and completed.
abbrev one : Storage
one =
    (update_status (text "key") (text "sub") (text "completed") (save_task task (pos 5) fresh).1).1

prune_loop_exact_example :
    find_row
      (key (text "key") (text "sub"))
      (spawn_prune_loop (some 3) (map some (7 ∷ 9 ∷ [])) one).tasks.rows
    ≡ unless
        (λ row.
          not (retention_of (some 3) == 0)
          && any
              (λ now.
                is_prunable (pos now -ℤ pos (retention_of (some 3))) one.pending_results.rows row)
              (7 ∷ 9 ∷ []))
        (find_row (key (text "key") (text "sub")) one.tasks.rows)
unfolding save_task update_status retention_of update_key key_eq text_eq
prune_loop_exact_example =
    prune_loop_exact (some 3) (7 ∷ 9 ∷ []) (text "key") (text "sub") one refl
      ((omega arith, tt, tt), tt, tt) (ground arith) (omega arith)
