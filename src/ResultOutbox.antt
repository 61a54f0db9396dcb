-- ===== src/ResultOutbox.antt =====
-- src/application/result_outbox.rs with src/transport/p2p/result_delivery.rs: the delivery of a
-- result. What src/domain/result.rs writes for a message is a parameter, as is whether it is sent, which is that
-- `write_outbound_stream` opened a stream, wrote the bytes and closed it; it waits for no answer.
pub mod Settled
pub mod Message
pub mod Retry
use wqc_node.Base.{
  ℕ, Bool, true, false, not, List, [], Option, none, some, Result, ok, err, is_empty, if◌then◌else◌,
}
use wqc_node.Base.Bytes.{Bytes}
use wqc_node.Base.Int.{ℤ}
use wqc_node.Base.Text.{Text, text, text_eq}
use wqc_node.Jobs.{PendingPcsJob}
use wqc_node.Models.{
  ComputeTask, TaskResultPayload, ComplexResult, SampleResult, ExpectationResult, Proof, WorkReport,
}
use wqc_node.PcsOutbox.Requests.{retain_after_result}
use wqc_node.Storage.{Storage, StorageError}
use wqc_node.Storage.Results.{upsert_pending_result, delete_pending_result}
use wqc_node.Storage.Tasks.{update_status}

-- src/domain/result.rs
pub record ResultMessage : Type 0 where
  pub sub_task_id : Text
  pub node_id : Text
  pub result_type : Text
  pub complex_result : ComplexResult
  pub sample_result : Option SampleResult
  pub expectation_result : Option ExpectationResult
  pub proof : Proof
  pub work_report : Option WorkReport
  pub error : Option Text

-- `failure_json_bytes` with the sub-task, the node and the error, or `to_json_bytes`.
pub data Wire : Type 0 where
  failure : Text → Text → Text → Wire
  message : ResultMessage → Wire

pub data ResultError : Type 0 where
  missing_complex_result missing_proof not_encoded not_sent : ResultError
  storage : StorageError → ResultError

abbrev pub or_default : Text → Text → Text
or_default default t = if is_empty t then default else t

abbrev pub error_or : Option Text → Text
error_or none = text "compute failed"
error_or (some e) = e

abbrev pub success_message :
    ComputeTask → TaskResultPayload → Text → ComplexResult → Proof → ResultMessage
success_message task payload node_id complex proof = record {
  sub_task_id = task.request.task_id;
  node_id = node_id;
  result_type = or_default (text "statevector_scalar") payload.result_type;
  complex_result = complex;
  sample_result = payload.sample_result;
  expectation_result = payload.expectation_result;
  proof = proof;
  work_report = payload.work_report;
  error = none;
}

unfoldable pub build_result_wire_body :
    ComputeTask → TaskResultPayload → Text → Result Wire ResultError
unfolding text_eq
build_result_wire_body task payload node_id =
    if not (text_eq payload.status (text "success"))
    then ok (failure task.request.task_id node_id (error_or payload.error))
    else elim payload.complex_result [
      | none ↦ err missing_complex_result
      | some complex ↦ elim payload.proof [
        | none ↦ err missing_proof
        | some proof ↦ ok (message (success_message task payload node_id complex proof))
      ]
    ]

abbrev pub status_of : Text → Text
status_of status = if text_eq status (text "error") then text "failed" else text "completed"

-- The answer, the job whose PCS is built then, and the database.
abbrev pub Delivery : Type 0
Delivery = Result (Unit {0}) ResultError × Option PendingPcsJob × Storage

-- After a result that was written.
abbrev pub retain_if : ComputeTask → TaskResultPayload → ℤ → Storage → Delivery
retain_if task payload now db =
    if not (text_eq payload.status (text "success"))
    then (ok tt, none, db)
    else elim payload.proof [
      | none ↦ (ok tt, none, db)
      | some proof ↦ let (built, db1) = retain_after_result task proof now db in (ok tt, built, db1)
    ]

module _ (to_json : Wire → Option Bytes) (sends : Bytes → Bool) where
  abbrev pub after_send :
      ComputeTask → TaskResultPayload → ℤ → Result (Unit {0}) StorageError → Storage → Delivery
  after_send task payload now (err e) db = (err (storage e), none, db)
  after_send task payload now (ok u) db = retain_if task payload now db

  unfoldable pub try_deliver_pending :
      ComputeTask → TaskResultPayload → Bytes → ℤ → Storage → Delivery
  unfolding delete_pending_result retain_after_result text_eq
  try_deliver_pending task payload wire_body now db =
      if not (sends wire_body)
      then (err not_sent, none, db)
      else let (r, db1) = delete_pending_result task.orchestrator_pubkey task.request.task_id db in
        after_send task payload now r db1

  abbrev pub stored :
      ComputeTask
      → TaskResultPayload
      → Bytes
      → ℤ
      → Result (Unit {0}) StorageError
      → Storage
      → Delivery
  stored task payload wire_body now (err e) db = (err (storage e), none, db)
  stored task payload wire_body now (ok u) db =
      try_deliver_pending task payload wire_body now
        (update_status task.orchestrator_pubkey task.request.task_id (status_of payload.status)
          db).1

  abbrev pub encoded : ComputeTask → TaskResultPayload → ℤ → Option Bytes → Storage → Delivery
  encoded task payload now none db = (err not_encoded, none, db)
  encoded task payload now (some wire_body) db =
      let (r, db1) =
        upsert_pending_result task.orchestrator_pubkey task.request.task_id wire_body now db in
      stored task payload wire_body now r db1

  abbrev pub wired :
      ComputeTask → TaskResultPayload → ℤ → Result Wire ResultError → Storage → Delivery
  wired task payload now (err e) db = (err e, none, db)
  wired task payload now (ok wire) db = encoded task payload now (to_json wire) db

  unfoldable pub deliver_result : Text → ComputeTask → TaskResultPayload → ℤ → Storage → Delivery
  unfolding build_result_wire_body upsert_pending_result update_status try_deliver_pending
  deliver_result peer_id task payload now db =
      wired task payload now (build_result_wire_body task payload peer_id) db
