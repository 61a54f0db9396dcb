-- ===== src/Tests/Recovery.antt =====
-- Runs of the theorems on what outlives a failure: the outbox, the table of tasks and the start.
use wqc_node.Base.{
  ℕ, ◌≡◌, refl, Bool, true, List, [], ◌∷◌, none, some, Result, ok, err, arith, ◌==◌,
}
use wqc_node.Base.Bytes.{Bytes}
use wqc_node.Base.Decimal.{parse_signed}
use wqc_node.Base.Int.{pos}
use wqc_node.Base.Text.{text, text_eq}
use wqc_node.Core.{reply_ok}
use wqc_node.Models.{ComputeTask}
use wqc_node.ResultOutbox.Retry.Rounds.{after, retry_rounds_lem}
use wqc_node.Startup.Location.{Providers}
use wqc_node.Startup.Process.{World, StartError, prepare, main, running}
use wqc_node.Startup.Process.Reload.{main_recovers}
use wqc_node.State.{AppState}
use wqc_node.Storage.{Storage, ResultCols, key}
use wqc_node.Storage.Refines.{
  saves, loads, sets_status, concrete_calls, abstract_calls, view, calls_refine,
}
use wqc_node.Storage.Rows.{Key, Row, find_row, key_eq, order_by_created_at}
use wqc_node.Storage.Tasks.{save_task}
use wqc_node.Tests.Fixtures.{task, state, fresh, whole}
use wqc_node.Tests.Startup.{readers, zeros, env, named, served, wide, host_bytes, info}
use wqc_node.Worker.{Turn, work_through}

calls_refine_example :
    let calls =
      saves task (pos 5)
      ∷ sets_status (text "key") (text "sub") (text "failed")
      ∷ loads (text "key") (text "sub")
      ∷ saves task (pos 6)
      ∷ [] in
    let (answers, m) = abstract_calls calls (view fresh) in
    let (answers', db') = concrete_calls calls fresh in
    (answers' ≡ answers) × ((j : Key) → view db' j ≡ m j)
calls_refine_example =
    calls_refine
      (saves task (pos 5)
        ∷ sets_status (text "key") (text "sub") (text "failed")
        ∷ loads (text "key") (text "sub")
        ∷ saves task (pos 6)
        ∷ [])
      fresh refl

-- A result in the outbox, which is sent in the third round.
abbrev pub waiting : Row ResultCols
waiting = record {
  id = 1;
  key = key (text "key") (text "sub");
  created_at = pos 5;
  cols = record { wire_body = 7 ∷ []; attempts = 0 };
}

abbrev pub with_waiting : Storage
with_waiting = record fresh { pending_results = record { rows = waiting ∷ []; next_id = 2 } }

abbrev pub third : ℕ → ℕ → Bytes → Bool
third round id body = round == 2

retry_rounds_lem_example :
    find_row
      (key (text "key") (text "sub"))
      (after
        (λ b. none)
        (λ v. none)
        third
        pos
        with_waiting
        refl
        (omega arith, tt, tt)
        4).pending_results.rows
    ≡ none
unfolding find_row key_eq text_eq
retry_rounds_lem_example =
    retry_rounds_lem (λ b. none) (λ v. none) third pos with_waiting refl (omega arith, tt, tt)
      (key (text "key") (text "sub")) waiting refl 4

abbrev pub no_providers : Providers
no_providers = record { ip_api = none; free_ip_api = none; ipapi_co = none }

abbrev pub one_task : Storage
one_task = (save_task task (pos 5) fresh).1

abbrev pub world : World
world = record {
  total_memory = host_bytes;
  env = env;
  gates = none;
  sysinfo = some info;
  open_storage = λ url. ok one_task;
  get = served;
  providers = no_providers;
  now = pos 10;
  later = pos 11;
}

abbrev pub turn : Turn
turn = record {
  now = 3;
  readings = record { at_gate = 3; after_probe = 3; after_send = 3 };
  now_ms = 3000;
  unix_now = pos 3;
  probe = true;
  answers = λ request timeout. reply_ok none;
  execution_time_ms = 7;
  sends = λ body. true;
}

-- The state that is prepared, and another where that fails.
abbrev pub state_of : Result (List ComputeTask × AppState) StartError → AppState → AppState
state_of (ok (tasks, st)) other = st
state_of (err e) other = other

abbrev pub prepared : AppState
prepared = state_of (prepare readers whole zeros wide named world) state

prepares : prepare readers whole zeros wide named world ≡ ok (task ∷ [], prepared)
unfolding prepare parse_signed save_task order_by_created_at
prepares = refl

main_recovers_example :
    (st1 : AppState) × (main readers whole zeros wide named world ≡ running st1)
    × (st1.queue ≡ task ∷ [])
    × let st2 = work_through (λ w. some []) (λ e. []) (λ i. turn) 0 st1.queue st1 in
      (st2.pending_tasks ≡ 0) × (st2.queue ≡ [])
main_recovers_example =
    (main_recovers readers whole zeros wide named world (task ∷ []) prepared (λ w. some [])
        (λ e. []) (λ i. turn) prepares).0
      (omega arith)
