-- ===== src/Worker/Finished.antt =====
-- What is left of a sub-task once the worker is done with it (src/application/worker.rs).
use wqc_node.Base.{
  ℕ, ◌+◌, ◌-◌, ◌%◌, ◌^◌, ◌<◌, ◌≤◌, ◌≡◌, ◌≢◌, refl, Bool, List, [], ◌∷◌, Option, none, some, arith,
  length,
}
use wqc_node.Base.Bytes.{Bytes}
use wqc_node.Base.Map.{lookup, update, lookup-remove, lookup-update}
use wqc_node.Base.Text.{Text, text_eq_iff, text_eq_refl}
use wqc_node.Core.{Reply}
use wqc_node.Models.{ComputeRequest, ComputeResponse, ComputeTask, Budget}
use wqc_node.ResultOutbox.{Wire}
use wqc_node.State.{AppState}
use wqc_node.Work.{start, release, compute_timeout, Held, from_secs}
use wqc_node.Work.Timeout.{compute_timeout-none}
use wqc_node.Worker.{Turn, WorkError, process_task, execute_compute, work_through, waited}

module _ (to_json : Wire → Option Bytes) (failure_reason : WorkError → Text) where
  -- However a sub-task ends, it is counted down once, it is no longer held in the ledger, and the
  -- queue and the sub-tasks that are held beside it stay.
  pub process_task-done :
      (turn : Turn) (task : ComputeTask) (other : Text) (st : AppState)
      → task.request.task_id ≢ other
      → let (built, st') = process_task to_json failure_reason turn task st in
        (st'.pending_tasks ≡ (st.pending_tasks + (2 ^ 64 - 1)) % 2 ^ 64)
        × (lookup task.request.task_id st'.work.held ≡ none)
        × (lookup other st'.work.held ≡ lookup other st.work.held)
        × (st'.work.reserved ≡ st.work.reserved)
        × (st'.queue ≡ st.queue)
  unfolding process_task start release
  process_task-done turn task other st ne =
      let id = task.request.task_id in
      let begin : Held → Held = λ h. record h { started = some turn.now } in
      (
        refl,
        ground (arith, lookup-remove id id (update id begin st.work.held), text_eq_refl id),
        ground (
          arith,
          lookup-remove other id (update id begin st.work.held),
          lookup-update other id begin st.work.held,
          text_eq_iff id other,
        ),
        refl,
        refl,
      )

  -- Once the orchestrator's deadline has passed in the queue, core is not asked: what it would
  -- answer makes no difference, and its health stays as it is.
  pub process_task-late :
      (turn : Turn) (task : ComputeTask) (st : AppState) (b : Budget) (probe : Bool)
      (answers : ComputeRequest → ℕ → Reply ComputeResponse)
      → task.budget ≡ some b
      → from_secs b.deadline_secs ≤ waited turn.now_ms task.accepted_at_ms
      → (process_task to_json failure_reason turn task st
          ≡ process_task to_json failure_reason
              (record turn { probe = probe; answers = answers })
              task
              st)
        × ((process_task to_json failure_reason turn task st).1.core ≡ st.core)
  unfolding process_task execute_compute
  process_task-late turn task st b probe answers eb late =
      let none_left : compute_timeout st.config.compute_timeout_secs task.budget
            (waited turn.now_ms task.accepted_at_ms)
          ≡ none =
        rw eb (
          (compute_timeout-none st.config.compute_timeout_secs b
              (waited turn.now_ms task.accepted_at_ms)).1
            late) in
      (rw none_left refl, rw none_left refl)

  -- A worker that meets a counter equal to the length of the queue works the queue off and leaves
  -- the counter at zero.
  pub work_through-counted :
      (turns : ℕ → Turn) (i : ℕ) (tasks : List ComputeTask) (st : AppState)
      → st.pending_tasks ≡ length tasks
      → length tasks < 2 ^ 64
      → st.queue ≡ tasks
      → let st' = work_through to_json failure_reason turns i tasks st in
        (st'.pending_tasks ≡ 0) × (st'.queue ≡ [])
  unfolding work_through process_task
  work_through-counted turns i [] st count bound same = (count, same)
  work_through-counted turns i (task ∷ tasks) st count bound same =
      work_through-counted turns (i + 1) tasks
        (process_task to_json failure_reason (turns i) task (record st { queue = tasks })).1
        (omega (arith, count, bound)) (omega (arith, bound)) refl
