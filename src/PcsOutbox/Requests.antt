-- ===== src/PcsOutbox/Requests.antt =====
-- What is retained after a result, and what a request for a leaf PCS starts
-- (src/application/pcs_outbox.rs).
use wqc_node.Base.{
  ℕ, zero, suc, true, false, Option, none, some, Result, ok, err, is_empty, ◌==◌, if◌then◌else◌,
}
use wqc_node.Base.Int.{ℤ}
use wqc_node.Base.Text.{Text}
use wqc_node.Jobs.{PendingPcsJob}
use wqc_node.Models.{ComputeTask, Proof}
use wqc_node.Pcs.{PcsRequest, PcsOpenCall, is_open_call, cached_open_call}
use wqc_node.State.{AppState}
use wqc_node.Storage.{Storage, StorageError, PcsCols}
use wqc_node.Storage.Jobs.{upsert_pending_pcs, get_pending_pcs}
use wqc_node.Storage.Rows.{Row}
use wqc_node.PcsOutbox.{retained_proof_lookup_attempts, placeholder_proof}

-- What the retained job takes over from the job that was there.
abbrev pub take_over : PendingPcsJob → Result (Option (Row PcsCols)) StorageError → PendingPcsJob
take_over job (err e) = job
take_over job (ok none) = job
take_over job (ok (some r)) =
    let existing = r.cols.job in
    let kept = record job { requested = existing.requested; open_call = existing.open_call } in
    elim existing.leaf_pcs_b64 [
      | none ↦ kept
      | some b64 ↦ record kept { leaf_pcs_b64 = some b64; leaf_pcs_bytes = existing.leaf_pcs_bytes }
    ]

abbrev pub new_job : Text → Proof → PendingPcsJob
new_job sub_task_id proof = record {
  sub_task_id = sub_task_id;
  proof = proof;
  requested = false;
  leaf_pcs_b64 = none;
  leaf_pcs_bytes = none;
  open_call = none;
}

-- The job to build, if the state says to build one.
abbrev pub spawn_if : PendingPcsJob → Result (Unit {0}) StorageError → Option PendingPcsJob
spawn_if job (err e) = none
spawn_if job (ok u) = if job.requested then some job else none

unfoldable pub retain_after_result :
    ComputeTask → Proof → ℤ → Storage → Option PendingPcsJob × Storage
unfolding get_pending_pcs upsert_pending_pcs
retain_after_result task proof now db =
    let pubkey = task.orchestrator_pubkey in
    let id = task.request.task_id in
    let (found, db1) = get_pending_pcs pubkey id db in
    let job = take_over (new_job id proof) found in
    let (r, db2) = upsert_pending_pcs pubkey id job now db1 in (spawn_if job r, db2)

abbrev pub mark_requested :
    Text → Text → ℤ → PendingPcsJob → Storage → Option PendingPcsJob × Storage
mark_requested pubkey id now job db =
    if job.requested
    then (some job, db)
    else let asked = record job { requested = true } in
      let (r, db1) = upsert_pending_pcs pubkey id asked now db in (spawn_if asked r, db1)

-- A lookup that finds nothing goes on with what the later lookups give.
abbrev pub found_or_wait :
    Text
    → Text
    → ℤ
    → Result (Option (Row PcsCols)) StorageError
    → Storage
    → Option PendingPcsJob × Storage
    → Option PendingPcsJob × Storage
found_or_wait pubkey id now (err e) db rest = (none, db)
found_or_wait pubkey id now (ok none) db rest = rest
found_or_wait pubkey id now (ok (some r)) db rest = mark_requested pubkey id now r.cols.job db

-- The wait for the retained proof: `left` lookups, with `meanwhile` what other handlers do to the
-- database before the next one.
unfoldable pub lookup_retained :
    Text → Text → ℤ → (ℕ → Storage → Storage) → ℕ → Storage → Option PendingPcsJob × Storage
unfolding get_pending_pcs upsert_pending_pcs
lookup_retained pubkey id now meanwhile zero db = (none, db)
lookup_retained pubkey id now meanwhile (suc left) db =
    let (found, db1) = get_pending_pcs pubkey id db in
    found_or_wait pubkey id now found db1
      (lookup_retained pubkey id now meanwhile left (if left == 0 then db1 else meanwhile left db1))

abbrev pub open_call_job : PcsRequest → Text → PcsOpenCall → PendingPcsJob
open_call_job request peer_id call = record {
  sub_task_id = request.sub_task_id;
  proof = placeholder_proof request.sub_task_id peer_id request.slice_id;
  requested = true;
  leaf_pcs_b64 = none;
  leaf_pcs_bytes = none;
  open_call = some (record {
    leaf_proof_hash = call.leaf_proof_hash;
    cas_presigned_url = call.cas_presigned_url;
    leaf_proof_bytes = call.leaf_proof_bytes;
    slice_id = if is_empty request.slice_id then call.slice_id else request.slice_id;
  });
}

unfoldable pub handle_open_call_pcs_request :
    Text → PcsRequest → ℤ → AppState → Option PendingPcsJob × Storage
unfolding cached_open_call placeholder_proof upsert_pending_pcs
handle_open_call_pcs_request pubkey request now st =
    if is_empty request.leaf_proof_hash
    then (none, st.storage)
    else elim (cached_open_call request.sub_task_id request.leaf_proof_hash st.open_call_cache) [
      | none ↦ (none, st.storage)
      | some call ↦
          let job = open_call_job request st.config.peer_id call in
          let (r, db) = upsert_pending_pcs pubkey request.sub_task_id job now st.storage in
          (spawn_if job r, db)
    ]

-- The job that is built after the request, and the database.
unfoldable pub handle_pcs_request :
    Text → PcsRequest → ℤ → (ℕ → Storage → Storage) → AppState → Option PendingPcsJob × Storage
unfolding is_open_call handle_open_call_pcs_request lookup_retained
handle_pcs_request pubkey request now meanwhile st =
    if is_open_call request
    then handle_open_call_pcs_request pubkey request now st
    else lookup_retained pubkey request.sub_task_id now meanwhile retained_proof_lookup_attempts
        st.storage
