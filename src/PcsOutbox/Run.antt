-- ===== src/PcsOutbox/Run.antt =====
-- Building and delivering the leaf PCS of a job, and the retry loop
-- (src/application/pcs_outbox.rs).
use wqc_node.Base.{
  ℕ, suc, Bool, true, not, ◌&&◌, ◌||◌, List, [], ◌∷◌, none, some, Result, ok, err, if◌then◌else◌,
}
use wqc_node.Base.Bytes.{Bytes}
use wqc_node.Base.Int.{ℤ, ◌-ℤ◌, leb_ℤ}
use wqc_node.Base.Text.{Text}
use wqc_node.Cas.{CasError, fetch_and_verify}
use wqc_node.Core.{is_in_backoff, post_leaf_pcs}
use wqc_node.Crypto.{Crypto}
use wqc_node.Jobs.{PendingPcsJob, OpenCallPcsSource, is_open_call_job}
use wqc_node.Models.{Proof}
use wqc_node.Pcs.{clear_cached_open_call}
use wqc_node.State.{AppState}
use wqc_node.Storage.{StorageError, PcsCols}
use wqc_node.Storage.Jobs.{
  upsert_pending_pcs, delete_pending_pcs, list_pending_pcs, delete_pending_pcs_by_id,
  increment_pending_pcs_attempts,
}
use wqc_node.Storage.Rows.{Row}
use wqc_node.PcsOutbox.{
  LeafPcsResponse, PcsMessage, PcsError, core, cas, storage, not_sent, DeliverOutcome, delivered,
  skipped_in_flight, skipped_core_down, refused_permanent, World, Outcome, placeholder_proof,
  claim_inflight, release_inflight, build_pcs_wire_body, build_pcs_refusal_wire_body,
  is_core_down_error, is_pcs_memory_refuse, is_cas_hash_mismatch, pcs_refuse_reason,
}

module _ (crypto : Crypto) (hex : Bytes → Text) (show : PcsError → Text) where
  -- `build_leaf_pcs`: the health gate of core changes.
  unfoldable pub build_leaf_pcs :
      World → Proof → AppState → Result LeafPcsResponse PcsError × AppState
  unfolding post_leaf_pcs
  build_leaf_pcs w proof st =
      let (r, h) = post_leaf_pcs w.readings w.probe (w.leaf_pcs proof) st.core in
      (elim r [ ok pcs ↦ ok pcs | err e ↦ err (core e) ], record st { core = h })

  abbrev pub build_from_bytes :
      World
      → Text
      → OpenCallPcsSource
      → Result Bytes CasError
      → AppState
      → Result LeafPcsResponse PcsError × AppState
  build_from_bytes w id call (err e) st = (err (cas e), st)
  build_from_bytes w id call (ok proof_bytes) st =
      build_leaf_pcs w
        (record (placeholder_proof id st.config.peer_id call.slice_id) {
          stark_proof_b64 = crypto.encode proof_bytes;
        })
        st

  unfoldable pub build_open_call_leaf_pcs :
      World → Text → OpenCallPcsSource → AppState → Result LeafPcsResponse PcsError × AppState
  unfolding fetch_and_verify build_leaf_pcs placeholder_proof
  build_open_call_leaf_pcs w id call st =
      build_from_bytes w id call (fetch_and_verify crypto hex w.blob call.leaf_proof_hash) st

  abbrev pub build_job :
      World → Text → PendingPcsJob → AppState → Result LeafPcsResponse PcsError × AppState
  build_job w id job st = elim job.open_call [
    | none ↦ build_leaf_pcs w job.proof st
    | some call ↦ build_open_call_leaf_pcs w id call st
  ]

  -- `storage.delete_pending_pcs(...)?`, and what comes after it.
  abbrev pub deleted :
      Text → DeliverOutcome → Bool → Result (Unit {0}) StorageError → AppState → Outcome
  deleted id outcome clears (err e) st = (err (storage e), st)
  deleted id outcome clears (ok u) st = (
    ok outcome,
    if clears
        then record st { open_call_cache = clear_cached_open_call id st.open_call_cache }
        else st,
  )

  -- Send a message and, once it is acknowledged, delete the job.
  abbrev pub send_and_delete :
      World → Text → Text → PcsMessage → DeliverOutcome → Bool → AppState → Outcome
  send_and_delete w pubkey id message outcome clears st =
      if not (w.sends message)
      then (err not_sent, st)
      else let (r, db) = delete_pending_pcs pubkey id st.storage in
        deleted id outcome clears r (record st { storage = db })

  unfoldable pub report_permanent_refusal : World → Text → Text → PcsError → AppState → Outcome
  unfolding pcs_refuse_reason build_pcs_refusal_wire_body delete_pending_pcs clear_cached_open_call
  report_permanent_refusal w pubkey id e st =
      send_and_delete w pubkey id
        (build_pcs_refusal_wire_body id st.config.peer_id (pcs_refuse_reason show e))
        refused_permanent true st

  unfoldable pub deliver : World → Text → Text → PendingPcsJob → Text → AppState → Outcome
  unfolding build_pcs_wire_body delete_pending_pcs clear_cached_open_call is_open_call_job
  deliver w pubkey id job leaf_pcs_b64 st =
      send_and_delete w pubkey id (build_pcs_wire_body id st.config.peer_id leaf_pcs_b64) delivered
        (is_open_call_job job) st

  abbrev pub cached_job : PendingPcsJob → LeafPcsResponse → PendingPcsJob
  cached_job job pcs = record job {
    leaf_pcs_b64 = some pcs.leaf_pcs_b64;
    leaf_pcs_bytes = some pcs.bytes;
  }

  abbrev pub persisted :
      World
      → Text
      → Text
      → PendingPcsJob
      → Text
      → Result (Unit {0}) StorageError
      → AppState
      → Outcome
  persisted w pubkey id job leaf_pcs_b64 (err e) st = (err (storage e), st)
  persisted w pubkey id job leaf_pcs_b64 (ok u) st = deliver w pubkey id job leaf_pcs_b64 st

  -- After a build: the PCS is stored before it is sent; an error is sorted.
  abbrev pub built_or_not :
      World → Text → Text → PendingPcsJob → Result LeafPcsResponse PcsError → AppState → Outcome
  built_or_not w pubkey id job (ok pcs) st =
      let (r, db) = upsert_pending_pcs pubkey id (cached_job job pcs) w.unix_now st.storage in
      persisted w pubkey id (cached_job job pcs) pcs.leaf_pcs_b64 r (record st { storage = db })
  built_or_not w pubkey id job (err e) st =
      if is_core_down_error show e
      then (ok skipped_core_down, st)
      else if is_pcs_memory_refuse show e || (is_open_call_job job && is_cas_hash_mismatch show e)
      then report_permanent_refusal w pubkey id e st
      else (err e, st)

  abbrev pub build_and_deliver : World → Text → Text → PendingPcsJob → AppState → Outcome
  build_and_deliver w pubkey id job st =
      if is_in_backoff w.now st.core
      then (ok skipped_core_down, st)
      else let (r, st1) = build_job w id job st in built_or_not w pubkey id job r st1

  -- The `async` block.
  unfoldable pub run_job : World → Text → Text → PendingPcsJob → AppState → Outcome
  unfolding deliver is_in_backoff build_leaf_pcs build_open_call_leaf_pcs upsert_pending_pcs
      is_core_down_error is_pcs_memory_refuse is_cas_hash_mismatch report_permanent_refusal
      is_open_call_job
  run_job w pubkey id job st = elim job.leaf_pcs_b64 [
    | some leaf_pcs_b64 ↦ deliver w pubkey id job leaf_pcs_b64 st
    | none ↦ build_and_deliver w pubkey id job st
  ]

  unfoldable pub try_build_and_deliver : World → Text → Text → PendingPcsJob → AppState → Outcome
  unfolding claim_inflight release_inflight run_job
  try_build_and_deliver w pubkey id job st =
      let (claimed, set) = claim_inflight id st.in_flight in
      if not claimed
      then (ok skipped_in_flight, st)
      else let (r, st1) = run_job w pubkey id job (record st { in_flight = set }) in
        (r, record st1 { in_flight = release_inflight id st1.in_flight })

  -- The retry loop, for one entry of its list. An unrequested job is dropped once it is old.
  abbrev pub note_attempt : ℕ → Outcome → AppState
  note_attempt row (ok o, st) = st
  note_attempt row (err e, st) = record st {
    storage = (increment_pending_pcs_attempts row st.storage).1;
  }

  unfoldable pub retry_entry : ℤ → World → Row PcsCols → AppState → AppState
  unfolding try_build_and_deliver delete_pending_pcs_by_id increment_pending_pcs_attempts
  retry_entry ttl w entry st =
      if not entry.cols.job.requested
      then if leb_ℤ ttl (w.unix_now -ℤ entry.created_at)
        then record st { storage = (delete_pending_pcs_by_id entry.id st.storage).1 }
        else st
      else note_attempt entry.id (
          try_build_and_deliver w entry.key.orchestrator_pubkey entry.key.task_id entry.cols.job st)

  abbrev pub retry_entries : ℤ → (ℕ → World) → ℕ → List (Row PcsCols) → AppState → AppState
  retry_entries ttl worlds i [] st = st
  retry_entries ttl worlds i (entry ∷ entries) st =
      retry_entries ttl worlds (suc i) entries (retry_entry ttl (worlds i) entry st)

  abbrev pub retry_listed :
      ℤ → (ℕ → World) → Result (List (Row PcsCols)) StorageError → AppState → AppState
  retry_listed ttl worlds (err e) st = st
  retry_listed ttl worlds (ok entries) st = retry_entries ttl worlds 0 entries st

  -- One turn of the loop; `worlds` is what each entry meets.
  unfoldable pub retry_pass : ℤ → (ℕ → World) → AppState → AppState
  unfolding list_pending_pcs retry_entry
  retry_pass ttl worlds st =
      let (r, db) = list_pending_pcs st.storage in
      retry_listed ttl worlds r (record st { storage = db })
