-- ===== src/TaskPrune.antt =====
-- src/application/task_prune.rs: the loop that deletes old terminal tasks, as the passes that it
-- makes. A reading of the clock is in seconds, or none before 1970.
use wqc_node.Base.{
  ℕ, ◌<◌, ◌==◌, ◌^◌, ◌≡◌, refl, ap, ◌∙◌, Bool, false, ◌&&◌, ◌||◌, not, List, [], ◌∷◌, map, Option,
  none, some, if◌then◌else◌, any, All, arith, Bool-cases, inl, inr,
}
use wqc_node.Base.Int.{ℤ, pos, ◌-ℤ◌, as_i64_bits, clamp}
use wqc_node.Base.Text.{Text}
use wqc_node.Storage.{Storage, key, TaskCols}
use wqc_node.Storage.Tasks.{prune_terminal_tasks, is_prunable}
use wqc_node.Storage.Prune.{prune_exact}
use wqc_node.Storage.Rows.{Row, find_row}
use wqc_node.Storage.Rows.Order.{unless}
use wqc_node.Storage.Unique.{IsSound, write, prunes, write-IsSound}

abbrev pub default_retention_secs : ℕ
default_retention_secs = 86400

-- The variable `WQC_TASK_RETENTION_SECS`, where it is set and parses.
unfoldable pub retention_of : Option ℕ → ℕ
retention_of none = default_retention_secs
retention_of (some secs) = secs

unfoldable pub now_of : Option ℕ → ℤ
now_of none = pos 0
now_of (some secs) = as_i64_bits secs

-- `now.saturating_sub(retention_secs as i64)`
unfoldable pub cutoff : Option ℕ → ℕ → ℤ
cutoff reading retention_secs = clamp (now_of reading -ℤ as_i64_bits retention_secs)

unfoldable pub run_prune : ℕ → Option ℕ → Storage → Storage
run_prune retention_secs reading st = (prune_terminal_tasks (cutoff reading retention_secs) st).1

unfoldable pub prune_passes : ℕ → List (Option ℕ) → Storage → Storage
prune_passes retention_secs [] st = st
prune_passes retention_secs (reading ∷ readings) st =
    prune_passes retention_secs readings (run_prune retention_secs reading st)

-- With the readings of the passes that the loop has made.
unfoldable pub spawn_prune_loop : Option ℕ → List (Option ℕ) → Storage → Storage
spawn_prune_loop variable readings st =
    if retention_of variable == 0 then st else prune_passes (retention_of variable) readings st

-- For times below 2^63 the cutoff is the difference.
cutoff_exact :
    (now retention : ℕ)
    → now < 2 ^ 63
    → retention < 2 ^ 63
    → cutoff (some now) retention ≡ (pos now -ℤ pos retention)
unfolding cutoff now_of ◌-ℤ◌
cutoff_exact now retention h k = ground arith

-- The condition of the pass at `now`.
abbrev pub is_due : ℕ → Storage → ℕ → Row TaskCols → Bool
is_due retention st now = is_prunable (pos now -ℤ pos retention) st.pending_results.rows

unless_twice :
    (p q : Row TaskCols → Bool) (o : Option (Row TaskCols))
    → unless q (unless p o) ≡ unless (λ r. p r || q r) o
unless_twice p q none = refl
unless_twice p q (some r) = ground arith

unless_never : (o : Option (Row TaskCols)) → o ≡ unless (λ r. false) o
unless_never none = refl
unless_never (some r) = refl

run_prune_at :
    (retention now : ℕ) (st : Storage)
    → now < 2 ^ 63
    → retention < 2 ^ 63
    → run_prune retention (some now) st ≡ (prune_terminal_tasks (pos now -ℤ pos retention) st).1
unfolding run_prune
run_prune_at retention now st h k =
    ap (λ c. (prune_terminal_tasks c st).1) (cutoff_exact now retention h k)

pass-due :
    (retention now : ℕ) (pubkey id : Text) (st : Storage)
    → st.faults ≡ []
    → IsSound st
    → now < 2 ^ 63
    → retention < 2 ^ 63
    → let st1 = run_prune retention (some now) st in
      (find_row (key pubkey id) st1.tasks.rows
        ≡ unless (is_due retention st now) (find_row (key pubkey id) st.tasks.rows))
      × (st1.faults ≡ [])
      × IsSound st1
      × (st1.pending_results ≡ st.pending_results)
unfolding write
pass-due retention now pubkey id st e v h k =
    let older = pos now -ℤ pos retention in
    let (found, counted, kept, kept') = prune_exact older pubkey id st e v.0 in
    let no_faults : (prune_terminal_tasks older st).1.faults ≡ [] =
      unfold prune_terminal_tasks in ground arith in
    rw (run_prune_at retention now st h k)
      (found, no_faults, write-IsSound (prunes older) st v, kept)

passes-due :
    (retention : ℕ) (nows : List ℕ) (pubkey id : Text) (st : Storage)
    → st.faults ≡ []
    → IsSound st
    → All (λ now. now < 2 ^ 63) nows
    → retention < 2 ^ 63
    → find_row (key pubkey id) (prune_passes retention (map some nows) st).tasks.rows
      ≡ unless
          (λ row. any (λ now. is_due retention st now row) nows)
          (find_row (key pubkey id) st.tasks.rows)
unfolding prune_passes
passes-due retention [] pubkey id st e v h k = unless_never _
passes-due retention (now ∷ nows) pubkey id st e v h k =
    let (found, e1, v1, kept) = pass-due retention now pubkey id st e v h.0 k in
    let st1 = run_prune retention (some now) st in
    passes-due retention nows pubkey id st1 e1 v1 h.1 k
    ∙ ap (unless (λ row. any (λ now. is_due retention st1 now row) nows)) found
    ∙ unless_twice (is_due retention st now) (λ row. any (λ now. is_due retention st1 now row) nows)
        _
    ∙ ap
        (λ outbox.
          unless
            (λ row.
              is_due retention st now row
              || any (λ now. is_prunable (pos now -ℤ pos retention) outbox.rows row) nows)
            (find_row (key pubkey id) st.tasks.rows))
        kept

-- With a retention and readings of the clock below 2^63, and where SQLite does not fail, the loop
-- takes the task of a key out exactly when its retention is not zero and at one of the readings the
-- row was completed or failed, created before the reading less the retention, and without a row in
-- the outbox; every other key finds the row it found before.
pub prune_loop_exact :
    (variable : Option ℕ) (nows : List ℕ) (pubkey id : Text) (st : Storage)
    → st.faults ≡ []
    → IsSound st
    → All (λ now. now < 2 ^ 63) nows
    → retention_of variable < 2 ^ 63
    → find_row (key pubkey id) (spawn_prune_loop variable (map some nows) st).tasks.rows
      ≡ unless
          (λ row.
            not (retention_of variable == 0)
            && any
                (λ now.
                  is_prunable (pos now -ℤ pos (retention_of variable)) st.pending_results.rows row)
                nows)
          (find_row (key pubkey id) st.tasks.rows)
unfolding spawn_prune_loop
prune_loop_exact variable nows pubkey id st e v h k =
    elim (Bool-cases (retention_of variable == 0)) [
      | inl off ↦ rw off (unless_never _)
      | inr on ↦ rw on (passes-due (retention_of variable) nows pubkey id st e v h k)
    ]
