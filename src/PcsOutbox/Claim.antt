-- ===== src/PcsOutbox/Claim.antt =====
-- One run of a sub-task at a time (src/application/pcs_outbox.rs).
use wqc_node.Base.{
  ◌≡◌, ◌≢◌, refl, ap, sym, subst, ◌∙◌, Bool, true, false, not, ◌||◌, ◌&&◌, List, [], ◌∷◌, Option,
  none, some, Result, ok, err, arith, if◌then◌else◌, Bool-cases, Option-cases, inl, inr, filter,
}
use wqc_node.Base.Bytes.{Bytes}
use wqc_node.Base.Text.{Text, text_eq, text_eq_refl, contains}
use wqc_node.Cas.{CasError, fetch_and_verify}
use wqc_node.Core.{is_in_backoff}
use wqc_node.Crypto.{Crypto}
use wqc_node.Jobs.{PendingPcsJob, OpenCallPcsSource, is_open_call_job}
use wqc_node.PcsOutbox.{
  LeafPcsResponse, PcsMessage, PcsError, DeliverOutcome, skipped_in_flight, World, Outcome,
  claim_inflight, release_inflight, pcs_refuse_reason, is_core_down_error, is_pcs_memory_refuse,
  is_cas_hash_mismatch, build_pcs_wire_body, build_pcs_refusal_wire_body,
}
use wqc_node.PcsOutbox.Deliver.{IsSettled, run_job-IsSettled, build_job-claim}
use wqc_node.PcsOutbox.Run.{
  build_leaf_pcs, build_from_bytes, build_open_call_leaf_pcs, build_job, send_and_delete,
  report_permanent_refusal, deliver, cached_job, persisted, built_or_not, run_job,
  try_build_and_deliver, deleted,
}
use wqc_node.State.{AppState}
use wqc_node.Storage.{StorageError}
use wqc_node.Storage.Jobs.{upsert_pending_pcs, delete_pending_pcs}

release-claim :
    (id : Text) (set : List Text) → contains set id ≡ false → release_inflight id (id ∷ set) ≡ set
unfolding release_inflight contains
release-claim id set h = rw (text_eq_refl id) (unchanged set h)
  where
    unchanged : (xs : List Text) → contains xs id ≡ false → filter (λ x. not (text_eq x id)) xs ≡ xs
    unchanged [] h = refl
    unchanged (x ∷ xs) h = ground (arith, h, unchanged xs)

module _ (crypto : Crypto) (hex : Bytes → Text) (show : PcsError → Text) (w : World)
    (pubkey id : Text) where
  -- The parts that no run changes.
  abbrev Keeps : AppState → Outcome → Type 0
  Keeps st (r, st') = (st'.in_flight ≡ st.in_flight) × (r ≢ ok skipped_in_flight)

  deleted-Keeps :
      (outcome : DeliverOutcome) (clears : Bool) (r : Result (Unit {0}) StorageError)
      (st : AppState)
      → outcome ≢ skipped_in_flight
      → Keeps st (deleted crypto hex show id outcome clears r st)
  deleted-Keeps outcome clears (err e) st ne = (refl, ground arith)
  deleted-Keeps outcome true (ok u) st ne = (refl, ground (arith, ne))
  deleted-Keeps outcome false (ok u) st ne = (refl, ground (arith, ne))

  send_and_delete-Keeps :
      (message : PcsMessage) (outcome : DeliverOutcome) (clears : Bool) (st : AppState)
      → outcome ≢ skipped_in_flight
      → Keeps st (send_and_delete crypto hex show w pubkey id message outcome clears st)
  send_and_delete-Keeps message outcome clears st ne = elim (Bool-cases (w.sends message)) [
    | inr f ↦ rw f (refl, ground arith)
    | inl t ↦ rw t (
        deleted-Keeps outcome clears (delete_pending_pcs pubkey id st.storage).0
          (record st { storage = (delete_pending_pcs pubkey id st.storage).1 }) ne)
  ]

  deliver-Keeps :
      (job : PendingPcsJob) (b64 : Text) (st : AppState)
      → Keeps st (deliver crypto hex show w pubkey id job b64 st)
  unfolding deliver
  deliver-Keeps job b64 st =
      send_and_delete-Keeps (build_pcs_wire_body id st.config.peer_id b64) DeliverOutcome.delivered
        (is_open_call_job job) st (ground arith)

  persisted-Keeps :
      (job : PendingPcsJob) (b64 : Text) (r : Result (Unit {0}) StorageError) (st : AppState)
      → Keeps st (persisted crypto hex show w pubkey id job b64 r st)
  persisted-Keeps job b64 (err e) st = (refl, ground arith)
  persisted-Keeps job b64 (ok u) st = deliver-Keeps job b64 st

  built_or_not-Keeps :
      (job : PendingPcsJob) (built : Result LeafPcsResponse PcsError) (st : AppState)
      → Keeps st (built_or_not crypto hex show w pubkey id job built st)
  unfolding report_permanent_refusal
  built_or_not-Keeps job (ok pcs) st =
      let better = cached_job crypto hex show job pcs in
      let (r, db) = upsert_pending_pcs pubkey id better w.unix_now st.storage in
      persisted-Keeps better pcs.leaf_pcs_b64 r (record st { storage = db })
  built_or_not-Keeps job (err x) st =
      sorted (is_core_down_error show x)
        (is_pcs_memory_refuse show x || (is_open_call_job job && is_cas_hash_mismatch show x))
    where
      sorted :
          (down never : Bool)
          → Keeps st (
              if down
              then (ok DeliverOutcome.skipped_core_down, st)
              else if never
              then report_permanent_refusal crypto hex show w pubkey id x st
              else (err x, st))
      sorted true never = (refl, ground arith)
      sorted false true =
          send_and_delete-Keeps
            (build_pcs_refusal_wire_body id st.config.peer_id (pcs_refuse_reason show x))
            DeliverOutcome.refused_permanent true st (ground arith)
      sorted false false = (refl, ground arith)

  build_from_bytes-in_flight :
      (call : OpenCallPcsSource) (r : Result Bytes CasError) (st : AppState)
      → (build_from_bytes crypto hex show w id call r st).1.in_flight ≡ st.in_flight
  unfolding build_leaf_pcs
  build_from_bytes-in_flight call (err x) st = refl
  build_from_bytes-in_flight call (ok bytes) st = refl

  build_job-in_flight :
      (job : PendingPcsJob) (st : AppState)
      → (build_job crypto hex show w id job st).1.in_flight ≡ st.in_flight
  unfolding build_leaf_pcs build_open_call_leaf_pcs
  build_job-in_flight job st = elim (Option-cases job.open_call) [
    | inl n ↦ rw n refl
    | inr (call, some_call) ↦ rw some_call (
        build_from_bytes-in_flight call (fetch_and_verify crypto hex w.blob call.leaf_proof_hash)
          st)
  ]

  run_job-Keeps :
      (job : PendingPcsJob) (st : AppState) → Keeps st (run_job crypto hex show w pubkey id job st)
  unfolding run_job
  run_job-Keeps job st = on job.leaf_pcs_b64 (is_in_backoff w.now st.core)
    where
      on :
          (cached : Option Text) (down : Bool)
          → Keeps st (elim cached [
            | some b64 ↦ deliver crypto hex show w pubkey id job b64 st
            | none ↦
                if down
                then (ok DeliverOutcome.skipped_core_down, st)
                else let (r, st1) = build_job crypto hex show w id job st in
                  built_or_not crypto hex show w pubkey id job r st1
          ])
      on (some b64) down = deliver-Keeps job b64 st
      on none true = (refl, ground arith)
      on none false =
          let (r, st1) = build_job crypto hex show w id job st in
          let (same, other) = built_or_not-Keeps job r st1 in
          (same ∙ build_job-in_flight job st, other)

  -- While a run of a sub-task is in flight, another of it does nothing: in any state whose set is the
  -- one that the claim leaves, and at once where the sub-task was in flight before. Otherwise the claim
  -- adds this sub-task and no other to the set, the run is made from there, and its answer and what it
  -- leaves are those of the run, with the runs in flight of before.
  pub try_build_and_deliver-once :
      (job : PendingPcsJob) (st : AppState) (again : PendingPcsJob) (meanwhile : AppState)
      (other : Text)
      → meanwhile.in_flight ≡ (claim_inflight id st.in_flight).1
      → let set = (claim_inflight id st.in_flight).1 in
        let (r, st') = try_build_and_deliver crypto hex show w pubkey id job st in
        let (ran, left) = run_job crypto hex show w pubkey id job (record st { in_flight = set }) in
        (try_build_and_deliver crypto hex show w pubkey id again meanwhile
          ≡ (ok skipped_in_flight, meanwhile))
        × (if contains st.in_flight id
            then (r ≡ ok skipped_in_flight) × (st' ≡ st)
            else (contains set other ≡ (text_eq id other || contains st.in_flight other))
              × (r ≡ ran)
              × (r ≢ ok skipped_in_flight)
              × (st' ≡ record left { in_flight = st.in_flight }))
  unfolding try_build_and_deliver claim_inflight contains
  try_build_and_deliver-once job st again meanwhile other during =
      elim (Bool-cases (contains st.in_flight id)) [
        | inl busy ↦
            let held : contains meanwhile.in_flight id ≡ true =
              subst (λ set. contains set id ≡ true) (sym during) (rw busy busy) in
            rw (busy, held) (refl, (refl, refl))
        | inr free ↦
            let held : contains meanwhile.in_flight id ≡ true =
              subst (λ set. contains set id ≡ true) (sym during)
                (rw (free, text_eq_refl id) refl) in
            let claimed : AppState = record st { in_flight = id ∷ st.in_flight } in
            let (same, ran) = run_job-Keeps job claimed in
            let left = (run_job crypto hex show w pubkey id job claimed).1 in
            let settled =
              ap (λ set. record left { in_flight = set })
                (ap (release_inflight id) same ∙ release-claim id st.in_flight free) in
            rw (free, held) (refl, (refl, refl, ran, settled))
      ]

  -- Where SQLite does not fail, no other handler comes between and no run of the sub-task is in
  -- flight, a job is gone after a run only with a message about it that was sent and acknowledged and
  -- that has the stored bundle or the one built, or refuses it for the error of the build. A bundle
  -- that the run built and that was not sent is in the stored job for the next run. Else the run built
  -- nothing and was put off or failed, and the stored jobs are as before.
  pub try_build_and_deliver-IsSettled :
      (job : PendingPcsJob) (st : AppState)
      → st.storage.faults ≡ []
      → contains st.in_flight id ≡ false
      → IsSettled crypto hex show w pubkey id job
          (build_job crypto hex show w id job st).0
          (is_in_backoff w.now st.core)
          st
          (try_build_and_deliver crypto hex show w pubkey id job st)
  unfolding try_build_and_deliver claim_inflight
  try_build_and_deliver-IsSettled job st e free =
      let set = id ∷ st.in_flight in
      let claimed : AppState = record st { in_flight = set } in
      rw free (
        subst
          (λ built.
            IsSettled crypto hex show w pubkey id job built (is_in_backoff w.now st.core) st (
              let (r, st1) = run_job crypto hex show w pubkey id job claimed in
              (r, record st1 { in_flight = release_inflight id st1.in_flight })))
          (build_job-claim crypto hex show w pubkey id job set st)
          (run_job-IsSettled crypto hex show w pubkey id job claimed e))
