-- ===== src/Tests/Proofs.antt =====
-- Leaf PCS jobs, open calls and fetched proofs.
use mathlib.Core.List.{Permᴰ}
use wqc_node.Base.{
  ◌≡◌, ◌≢◌, ◌⊎◌, ◌↔◌, ◌||◌, refl, true, false, [], ◌∷◌, none, some, ok, if◌then◌else◌, All,
}
use wqc_node.Base.Int.{pos, ◌<ℤ◌, ◌≤ℤ◌}
use wqc_node.Base.Text.{text, text_eq, trim, contains, to_ascii_lowercase}
use wqc_node.Cas.{body, fetch_and_verify, sha256_hex}
use wqc_node.Cas.Verify.{fetch_and_verify_iff}
use wqc_node.Core.{reply_ok, is_in_backoff}
use wqc_node.Pcs.{
  PcsOpenCall, PcsRequest, spill, should_bid_open_call_at, serialize_pcs_open_call_payload,
  verify_pcs_open_call_signature, is_open_call,
}
use wqc_node.Pcs.OpenCall.{should_bid_open_call_iff}
use wqc_node.Pcs.Payload.{open_call_payload-Perm}
use wqc_node.PcsOutbox.{World, Outcome, skipped_in_flight, claim_inflight}
use wqc_node.PcsOutbox.Claim.{try_build_and_deliver-once, try_build_and_deliver-IsSettled}
use wqc_node.PcsOutbox.Deliver.{IsSettled}
use wqc_node.PcsOutbox.Requests.{retain_after_result, handle_pcs_request}
use wqc_node.PcsOutbox.Retain.{retain_after_result-Keeps, handle_pcs_request-IsAsked, Keeps, asked}
use wqc_node.PcsOutbox.Run.{try_build_and_deliver, run_job, build_job}
use wqc_node.State.{AppState}
use wqc_node.Storage.{Storage, PcsCols, key}
use wqc_node.Storage.Jobs.{get_pending_pcs, upsert_pending_pcs}
use wqc_node.Storage.Rows.{Row, find_row, upsert, key_eq}
use wqc_node.Tests.Fixtures.{plain, config, state, task, job, proof, fresh}

abbrev call : PcsOpenCall
call = record {
  parent_task_id = text "parent";
  sub_task_id = text "sub";
  slice_id = text "0";
  leaf_proof_hash = text "00";
  leaf_proof_bytes = 3;
  cas_presigned_url = text "https://blob";
  r_pcs_planck = text "100";
  deadline_unix = pos 20;
  issued_at_unix = pos 10;
  refused_builders = text "b" ∷ text "c" ∷ [];
}

open_call_payload-Perm_example :
    let call' : PcsOpenCall = record call { refused_builders = text "c" ∷ text "b" ∷ [] } in
    (serialize_pcs_open_call_payload call ≡ serialize_pcs_open_call_payload call')
    × (verify_pcs_open_call_signature plain call [] []
        ≡ verify_pcs_open_call_signature plain call' [] [])
open_call_payload-Perm_example =
    open_call_payload-Perm plain call (text "c" ∷ text "b" ∷ []) [] [] ∣ Permᴰ.swap refl refl ∣₁

should_bid_open_call_iff_example : (should_bid_open_call_at config spill call (pos 15) ≡ true) ↔ (
    (spill ≡ spill)
    × ((pos 20 ≤ℤ pos 0) ⊎ (pos 15 <ℤ pos 20))
    × All (λ id. id ≢ text "node-a") (text "b" ∷ text "c" ∷ [])
    × (text "00" ≢ [])
    × (text "sub" ≢ []))
should_bid_open_call_iff_example = should_bid_open_call_iff config spill call (pos 15)

fetch_and_verify_iff_example :
    (fetch_and_verify plain (λ b. b) (body (1 ∷ [])) (text "00") ≡ ok (1 ∷ [])) ↔ (
      (body (1 ∷ []) ≡ body (1 ∷ []))
      × (to_ascii_lowercase (sha256_hex plain (λ b. b) (1 ∷ []))
          ≡ to_ascii_lowercase (trim (text "00"))))
fetch_and_verify_iff_example =
    fetch_and_verify_iff plain (λ b. b) (body (1 ∷ [])) (text "00") (1 ∷ [])

retain_after_result-Keeps_example :
    let (built, db') = retain_after_result task proof (pos 5) fresh in
    (r : Row PcsCols) × ((get_pending_pcs (text "key") (text "sub") db').0 ≡ ok (some r))
    × (r.cols.job.proof ≡ proof)
    × Keeps none r.cols.job
    × (r.cols.attempts ≡ 0)
    × (built ≡ (if r.cols.job.requested then some r.cols.job else none))
unfolding get_pending_pcs find_row
retain_after_result-Keeps_example =
    retain_after_result-Keeps task proof (pos 5) fresh none refl refl

-- A database with the job.
abbrev with_job : Storage
with_job = (upsert_pending_pcs (text "key") (text "sub") job (pos 5) fresh).1

abbrev row : Row PcsCols
row = record {
  id = 1;
  key = key (text "key") (text "sub");
  created_at = pos 5;
  cols = record { job = job; attempts = 0 };
}

abbrev nomination : PcsRequest
nomination = record {
  sub_task_id = text "sub";
  parent_task_id = text "parent";
  slice_id = text "0";
  node_id = text "node-a";
  issued_at_unix = pos 9;
  request_kind = [];
  leaf_proof_hash = [];
}

abbrev with_state : AppState
with_state = record state { storage = with_job }

handle_pcs_request-IsAsked_example :
    let (built, db') = handle_pcs_request (text "key") nomination (pos 6) (λ i db. db) with_state in
    (built ≡ some (asked job))
    × ((r : Row PcsCols) × ((get_pending_pcs (text "key") (text "sub") db').0 ≡ ok (some r))
        × (r.cols.job ≡ asked job))
unfolding get_pending_pcs find_row upsert_pending_pcs upsert key_eq is_open_call text_eq
handle_pcs_request-IsAsked_example =
    handle_pcs_request-IsAsked (text "key") nomination (pos 6) (λ i db. db) with_state row refl refl
      refl

abbrev world : World
world = record {
  now = 1;
  readings = record { at_gate = 1; after_probe = 1; after_send = 1 };
  unix_now = pos 7;
  probe = true;
  leaf_pcs = λ p. reply_ok (some (record { leaf_pcs_b64 = text "cGNz"; bytes = 3 }));
  blob = body [];
  sends = λ m. false;
}

-- While the first run waits.
abbrev waiting : AppState
waiting = record with_state { in_flight = text "sub" ∷ [] }

abbrev run_of : AppState → Outcome
run_of st = try_build_and_deliver plain (λ b. b) (λ e. []) world (text "key") (text "sub") job st

try_build_and_deliver-once_example :
    let (r, st') = run_of with_state in
    let (ran, left) =
      run_job plain (λ b. b) (λ e. []) world (text "key") (text "sub") job waiting in
    (run_of waiting ≡ (ok skipped_in_flight, waiting))
    × ((contains (text "sub" ∷ []) (text "u") ≡ (text_eq (text "sub") (text "u") || false))
        × (r ≡ ran)
        × (r ≢ ok skipped_in_flight)
        × (st' ≡ record left { in_flight = [] }))
unfolding contains claim_inflight
try_build_and_deliver-once_example =
    try_build_and_deliver-once plain (λ b. b) (λ e. []) world (text "key") (text "sub") job
      with_state job waiting (text "u") refl

try_build_and_deliver-IsSettled_example :
    IsSettled plain
      (λ b. b)
      (λ e. [])
      world
      (text "key")
      (text "sub")
      job
      (build_job plain (λ b. b) (λ e. []) world (text "sub") job with_state).0
      (is_in_backoff 1 with_state.core)
      with_state
      (run_of with_state)
unfolding contains upsert_pending_pcs
try_build_and_deliver-IsSettled_example =
    try_build_and_deliver-IsSettled plain (λ b. b) (λ e. []) world (text "key") (text "sub") job
      with_state refl refl
