-- ===== src/Work/Timeout.antt =====
-- How long the node waits for core on a sub-task (src/domain/work.rs).
use wqc_node.Base.{ℕ, ◌+◌, ◌≤◌, ◌<◌, ◌≡◌, ◌↔◌, ◌⊎◌, none, some, arith}
use wqc_node.Models.{Budget}
use wqc_node.Work.{compute_timeout, from_secs}

-- With a budget there is no wait exactly when the sub-task has waited for its whole deadline.
pub compute_timeout-none :
    (own_secs : ℕ) (b : Budget) (waited : ℕ)
    → (compute_timeout own_secs (some b) waited ≡ none) ↔ (from_secs b.deadline_secs ≤ waited)
unfolding compute_timeout
compute_timeout-none own_secs b waited = (λ e. ground arith, λ le. ground arith)

-- A wait under a budget is within the node's own timeout and ends within the deadline, and it is one
-- of the two bounds; it is positive unless the own timeout is zero.
pub compute_timeout_lem :
    (own_secs : ℕ) (b : Budget) (waited t : ℕ)
    → compute_timeout own_secs (some b) waited ≡ some t
    → (t ≤ from_secs own_secs)
      × (waited + t ≤ from_secs b.deadline_secs)
      × ((t ≡ from_secs own_secs) ⊎ (waited + t ≡ from_secs b.deadline_secs))
      × ((0 < t) ⊎ (own_secs ≡ 0))
unfolding compute_timeout
compute_timeout_lem own_secs b waited t e = ground arith
