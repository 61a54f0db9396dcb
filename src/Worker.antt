-- ===== src/Worker.antt =====
-- src/application/worker.rs: one sub-task from the queue to its result. What core answers, the
-- clocks and the sending are a record of the world; the text of an error is a parameter.
pub mod Finished
use wqc_node.Base.{
  ℕ, ◌+◌, ◌-◌, ◌*◌, ◌/◌, Bool, true, false, List, [], ◌∷◌, Option, none, some, Result, ok, err,
  ◌==◌, is_empty, if◌then◌else◌,
}
use wqc_node.Base.Bytes.{Bytes}
use wqc_node.Base.Int.{ℤ}
use wqc_node.Base.Text.{Text, text, text_eq}
use wqc_node.Core.{CoreError, Reply, Readings, dispatch_task, Health}
use wqc_node.Jobs.{PendingPcsJob}
use wqc_node.Models.{ComputeRequest, ComputeResponse, ComputeTask, TaskResultPayload}
use wqc_node.ResultOutbox.{Wire, ResultError, deliver_result, status_of, or_default}
use wqc_node.State.{AppState, fetch_sub}
use wqc_node.Storage.{Storage}
use wqc_node.Storage.Tasks.{update_status}
use wqc_node.Work.{compute_timeout, start, release}

-- `now` is read by the ledger, `readings` by the call of core, which answers a request that was given
-- a timeout in nanoseconds.
pub record Turn : Type 0 where
  pub now : ℕ
  pub readings : Readings
  pub now_ms : ℕ
  pub unix_now : ℤ
  pub probe : Bool
  pub answers : ComputeRequest → ℕ → Reply ComputeResponse
  pub execution_time_ms : ℕ
  pub sends : Bytes → Bool

pub data WorkError : Type 0 where
  -- The seconds waited.
  deadline_passed : ℕ → WorkError
  core : CoreError → WorkError

-- In nanoseconds; a task from before the field was stored has no time.
abbrev pub waited : ℕ → ℕ → ℕ
waited now_ms accepted_at_ms =
    if accepted_at_ms == 0 then 0 else (now_ms - accepted_at_ms) * 1000000

unfoldable pub success_payload : ComputeTask → ℕ → ComputeResponse → TaskResultPayload
success_payload task execution_time_ms res = record {
  task_id = task.request.task_id;
  status = text "success";
  result_type = or_default (text "statevector_scalar") res.result_type;
  complex_result = some res.complex_result;
  sample_result = res.sample_result;
  expectation_result = res.expectation_result;
  proof = some res.proof;
  error = none;
  execution_time_ms = some execution_time_ms;
  work_report = res.work_report;
}

unfoldable pub error_payload : ComputeTask → Text → TaskResultPayload
error_payload task reason = record {
  task_id = task.request.task_id;
  status = text "error";
  result_type = [];
  complex_result = none;
  sample_result = none;
  expectation_result = none;
  proof = none;
  error = some reason;
  execution_time_ms = none;
  work_report = none;
}

module _ (to_json : Wire → Option Bytes) (failure_reason : WorkError → Text) where
  -- `execute_compute`, or none where the deadline has passed.
  unfoldable pub execute_compute :
      Turn → ComputeRequest → Option ℕ → ℕ → Health → Result ComputeResponse WorkError × Health
  unfolding dispatch_task
  execute_compute turn request none waited_ns core_health =
      (err (deadline_passed (waited_ns / 1000000000)), core_health)
  execute_compute turn request (some timeout) waited_ns core_health =
      let (r, h) =
        dispatch_task turn.readings turn.probe (turn.answers request timeout) core_health in
      (elim r [ ok res ↦ ok res | err e ↦ err (core e) ], h)

  abbrev pub payload_of : Turn → ComputeTask → Result ComputeResponse WorkError → TaskResultPayload
  payload_of turn task (ok res) = success_payload task turn.execution_time_ms res
  payload_of turn task (err e) = error_payload task (failure_reason e)

  -- What the node then does with the outcome.
  abbrev pub report :
      Turn → ComputeTask → TaskResultPayload → AppState → Option PendingPcsJob × AppState
  report turn task payload st =
      let db =
        (update_status task.orchestrator_pubkey task.request.task_id (status_of payload.status)
          st.storage).1 in
      let (r, built, db1) =
        deliver_result to_json turn.sends st.config.peer_id task payload turn.unix_now db in
      (built, record st { storage = db1 })

  abbrev pub finish : ComputeTask → AppState → AppState
  finish task st =
      let counted = fetch_sub st in
      record counted { work = release task.request.task_id counted.work }

  -- The job whose PCS is built then, and the state.
  unfoldable pub process_task : Turn → ComputeTask → AppState → Option PendingPcsJob × AppState
  unfolding start compute_timeout execute_compute update_status deliver_result release
      success_payload error_payload
  process_task turn task st =
      let started = record st { work = start task.request.task_id turn.now st.work } in
      let waited_ns = waited turn.now_ms task.accepted_at_ms in
      let timeout = compute_timeout st.config.compute_timeout_secs task.budget waited_ns in
      let (outcome, h) = execute_compute turn task.request timeout waited_ns st.core in
      let (built, st1) =
        report turn task (payload_of turn task outcome) (record started { core = h }) in
      (built, finish task st1)

  -- `start_worker`: as long as `rx.recv()` gives a task; `turns` is what each meets.
  unfoldable pub work_through : (ℕ → Turn) → ℕ → List ComputeTask → AppState → AppState
  unfolding process_task
  work_through turns i [] st = st
  work_through turns i (task ∷ tasks) st =
      work_through turns (i + 1) tasks (process_task (turns i) task (record st { queue = tasks })).1
