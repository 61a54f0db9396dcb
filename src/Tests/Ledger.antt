-- ===== src/Tests/Ledger.antt =====
-- The work ledger and the worker.
use wqc_node.Base.{
  ℕ, ◌+◌, ◌-◌, ◌*◌, ◌/◌, ◌%◌, ◌^◌, ◌≤◌, ◌<◌, ◌≡◌, ◌≢◌, ◌⊎◌, ◌↔◌, refl, true, false, List, [], ◌∷◌,
  Option, none, some, arith,
}
use wqc_node.Base.Map.{lookup}
use wqc_node.Base.Text.{text}
use wqc_node.Core.{reply_ok}
use wqc_node.State.{AppState}
use wqc_node.Tests.Fixtures.{whole, budget, announced_work, rates, state, task}
use wqc_node.Work.{
  BudgetPolicy, WorkLedger, default_ledger, queued_secs, compute_timeout, from_secs, hold, release,
  seconds,
}
use wqc_node.Work.Lapse.{reservations_lapse, events, decides}
use wqc_node.Worker.{Turn, process_task, work_through}
use wqc_node.Worker.Finished.{process_task-done, process_task-late, work_through-counted}

abbrev policy : BudgetPolicy
policy = record {
  rates = rates;
  overhead_secs = 5;
  margin = 1;
  own_timeout_secs = 300;
  unknown_secs = 30;
}

reservations_lapse_example :
    queued_secs whole 20000000007 30
      (events whole 0 ((7, decides (text "t") announced_work 60 policy) ∷ []) default_ledger).1
    ≡ queued_secs whole 20000000007 30
        (record (events whole 0
          ((7, decides (text "t") announced_work 60 policy) ∷ [])
          default_ledger).1 { reserved = [] })
unfolding events
reservations_lapse_example =
    reservations_lapse whole 0 ((7, decides (text "t") announced_work 60 policy) ∷ []) 20000000007
      30 (omega arith)

abbrev turn : Turn
turn = record {
  now = 7;
  readings = record { at_gate = 7; after_probe = 7; after_send = 7 };
  now_ms = 90000;
  unix_now = wqc_node.Base.Int.pos 5;
  probe = false;
  answers = λ r t. reply_ok none;
  execution_time_ms = 1;
  sends = λ b. false;
}

sub_other : text "sub" ≢ text "u"
sub_other = λ e. ground (arith, e)

process_task-done_example :
    let st' = (process_task (λ w. some []) (λ e. []) turn task state).1 in
    (st'.pending_tasks ≡ (0 + (2 ^ 64 - 1)) % 2 ^ 64)
    × (lookup (text "sub") st'.work.held ≡ none)
    × (lookup (text "u") st'.work.held ≡ lookup (text "u") state.work.held)
    × (st'.work.reserved ≡ state.work.reserved)
    × (st'.queue ≡ state.queue)
process_task-done_example =
    process_task-done (λ w. some []) (λ e. []) turn task (text "u") state sub_other

process_task-late_example :
    (process_task (λ w. some []) (λ e. []) turn task state
      ≡ process_task
          (λ w. some [])
          (λ e. [])
          (record turn { probe = true; answers = turn.answers })
          task
          state)
    × ((process_task (λ w. some []) (λ e. []) turn task state).1.core ≡ state.core)
process_task-late_example =
    process_task-late (λ w. some []) (λ e. []) turn task state budget true turn.answers refl
      (omega arith)

abbrev busy : AppState
busy = record state { queue = task ∷ []; pending_tasks = 1 }

work_through-counted_example :
    let st' = work_through (λ w. some []) (λ e. []) (λ i. turn) 0 (task ∷ []) busy in
    (st'.pending_tasks ≡ 0) × (st'.queue ≡ [])
work_through-counted_example =
    work_through-counted (λ w. some []) (λ e. []) (λ i. turn) 0 (task ∷ []) busy refl (omega arith)
      refl
