-- ===== src/PcsOutbox/Deliver.antt =====
-- When a job leaves the outbox (src/application/pcs_outbox.rs), where SQLite does not fail.
use wqc_node.Base.{
  ◌≡◌, refl, ap, sym, subst, ◌∙◌, Bool, true, false, ◌||◌, ◌&&◌, List, [], Option, none, some,
  Result, ok, err, if◌then◌else◌, Bool-cases, Option-cases, inl, inr, ◌⊎◌,
}
use wqc_node.Base.Bytes.{Bytes}
use wqc_node.Base.Text.{Text}
use wqc_node.Cas.{CasError, fetch_and_verify}
use wqc_node.Core.{is_in_backoff}
use wqc_node.Crypto.{Crypto}
use wqc_node.Jobs.{PendingPcsJob, OpenCallPcsSource, is_open_call_job}
use wqc_node.PcsOutbox.{
  LeafPcsResponse, PcsMessage, PcsError, not_sent, DeliverOutcome, delivered, skipped_core_down,
  refused_permanent, World, Outcome, build_pcs_wire_body, build_pcs_refusal_wire_body,
  pcs_refuse_reason, is_core_down_error, is_pcs_memory_refuse, is_cas_hash_mismatch,
}
use wqc_node.PcsOutbox.Run.{
  build_leaf_pcs, build_from_bytes, build_open_call_leaf_pcs, build_job, send_and_delete,
  report_permanent_refusal, deliver, cached_job, built_or_not, build_and_deliver, run_job, deleted,
}
use wqc_node.State.{AppState}
use wqc_node.Storage.{Storage, PcsCols}
use wqc_node.Storage.Jobs.{get_pending_pcs, upsert_pending_pcs, delete_pending_pcs}
use wqc_node.Storage.Outbox.{get-upsert_pcs}
use wqc_node.Storage.Steps.{upsert-ok, upsert-keeps, delete-ok, delete-gone}
use wqc_node.Storage.Rows.{Row}

module _ (crypto : Crypto) (hex : Bytes → Text) (show : PcsError → Text) (w : World)
    (pubkey id : Text) where
  abbrev Gone : AppState → Type 0
  Gone st = (get_pending_pcs pubkey id st.storage).0 ≡ ok none

  -- The message was acknowledged and the job is gone, or nothing changed.
  abbrev IsSent : PcsMessage → DeliverOutcome → AppState → Outcome → Type 0
  IsSent message outcome st (r, st') =
      ((w.sends message ≡ true) × (r ≡ ok outcome) × Gone st') ⊎ ((r ≡ err not_sent) × (st' ≡ st))

  deleted-Gone :
      (outcome : DeliverOutcome) (clears : Bool) (st : AppState)
      → Gone st
      → let (r, st') = deleted crypto hex show id outcome clears (ok tt) st in
        (r ≡ ok outcome) × Gone st'
  deleted-Gone outcome true st g = (refl, g)
  deleted-Gone outcome false st g = (refl, g)

  send_and_delete-IsSent :
      (message : PcsMessage) (outcome : DeliverOutcome) (clears : Bool) (st : AppState)
      → st.storage.faults ≡ []
      → IsSent message outcome st
          (send_and_delete crypto hex show w pubkey id message outcome clears st)
  send_and_delete-IsSent message outcome clears st e = elim (Bool-cases (w.sends message)) [
    | inr f ↦ rw f (inr (refl, refl))
    | inl t ↦
        let st1 : AppState = record st { storage = (delete_pending_pcs pubkey id st.storage).1 } in
        let (a, b) = deleted-Gone outcome clears st1 (delete-gone pubkey id st.storage e) in
        rw (t, delete-ok pubkey id st.storage e) (inl (refl, a, b))
  ]

  -- The run builds the bundle itself: none is stored, and core is not in backoff.
  abbrev pub Builds : PendingPcsJob → Bool → Type 0
  Builds job down = (job.leaf_pcs_b64 ≡ none) × (down ≡ false)

  -- The message has the stored bundle or the one that was built, or it refuses for the error that
  -- the build failed with.
  abbrev pub Carries : PendingPcsJob → Result LeafPcsResponse PcsError → Bool → PcsMessage → Type 0
  Carries job built down message =
      ((message.refused ≡ true)
        × ((x : PcsError) × Builds job down
            × (built ≡ err x)
            × (message.refuse_reason ≡ some (pcs_refuse_reason show x))))
      ⊎ ((message.refused ≡ false)
          × ((job.leaf_pcs_b64 ≡ some message.leaf_pcs_b64)
              ⊎ ((pcs : LeafPcsResponse) × Builds job down
                  × (built ≡ ok pcs)
                  × (pcs.leaf_pcs_b64 ≡ message.leaf_pcs_b64))))

  -- Nothing was built by the run: the bundle is a stored one, core is in backoff, or the build failed.
  abbrev pub NotBuilt : PendingPcsJob → Result LeafPcsResponse PcsError → Bool → Type 0
  NotBuilt job built down =
      ((b64 : Text) × (job.leaf_pcs_b64 ≡ some b64))
      ⊎ ((down ≡ true) ⊎ ((x : PcsError) × Builds job down × (built ≡ err x)))

  -- What a run comes to, with what core makes of the job and whether it is in backoff. The job is gone
  -- only with an acknowledged message that carries its bundle or refuses it; a bundle that was built
  -- and not delivered is in the stored job; else nothing was built and the stored jobs are as before.
  abbrev pub IsSettled :
      PendingPcsJob → Result LeafPcsResponse PcsError → Bool → AppState → Outcome → Type 0
  IsSettled job built down st (r, st') =
      ((message : PcsMessage) × (message.sub_task_id ≡ id)
        × Carries job built down message
        × (w.sends message ≡ true)
        × (r ≡ ok (if message.refused then refused_permanent else delivered))
        × Gone st')
      ⊎ (((pcs : LeafPcsResponse) × (row : Row PcsCols) × Builds job down
            × (built ≡ ok pcs)
            × (r ≡ err not_sent)
            × ((get_pending_pcs pubkey id st'.storage).0 ≡ ok (some row))
            × (row.cols.job ≡ cached_job crypto hex show job pcs))
          ⊎ (NotBuilt job built down
              × ((r ≡ ok skipped_core_down) ⊎ ((e : PcsError) × (r ≡ err e)))
              × (st'.storage ≡ st.storage)))

  refusal-IsSettled :
      (job : PendingPcsJob) (x : PcsError) (down : Bool) (st : AppState)
      → Builds job down
      → st.storage.faults ≡ []
      → IsSettled job (err x) down st (report_permanent_refusal crypto hex show w pubkey id x st)
  unfolding report_permanent_refusal build_pcs_refusal_wire_body
  refusal-IsSettled job x down st b e =
      let message = build_pcs_refusal_wire_body id st.config.peer_id (pcs_refuse_reason show x) in
      elim (send_and_delete-IsSent message refused_permanent true st e) [
        | inl (s, r, g) ↦ inl (message, refl, inl (refl, (x, b, refl, refl)), s, r, g)
        | inr (r, same) ↦
            inr (
              inr
                (inr (inr (x, b, refl)), inr (not_sent, r), ap (λ (x : AppState). x.storage) same))
      ]

  deliver-IsSettled :
      (job : PendingPcsJob) (b64 : Text) (st : AppState)
      → st.storage.faults ≡ []
      → IsSent
          (build_pcs_wire_body id st.config.peer_id b64)
          delivered
          st
          (deliver crypto hex show w pubkey id job b64 st)
  unfolding deliver
  deliver-IsSettled job b64 st e =
      send_and_delete-IsSent (build_pcs_wire_body id st.config.peer_id b64) delivered
        (is_open_call_job job) st e

  deliver-settles :
      (job : PendingPcsJob) (built : Result LeafPcsResponse PcsError) (down : Bool) (b64 : Text)
      (st : AppState)
      → job.leaf_pcs_b64 ≡ some b64
      → st.storage.faults ≡ []
      → IsSettled job built down st (deliver crypto hex show w pubkey id job b64 st)
  unfolding build_pcs_wire_body
  deliver-settles job built down b64 st stored e = elim (deliver-IsSettled job b64 st e) [
    | inl (s, r, g) ↦
        inl (build_pcs_wire_body id st.config.peer_id b64, refl, inr (refl, inl stored), s, r, g)
    | inr (r, same) ↦
        inr (inr (inl (b64, stored), inr (not_sent, r), ap (λ (x : AppState). x.storage) same))
  ]

  built_or_not-IsSettled :
      (job : PendingPcsJob) (built : Result LeafPcsResponse PcsError) (down : Bool) (st : AppState)
      → Builds job down
      → st.storage.faults ≡ []
      → IsSettled job built down st (built_or_not crypto hex show w pubkey id job built st)
  unfolding build_pcs_wire_body
  built_or_not-IsSettled job (err x) down st b e = elim (Bool-cases (is_core_down_error show x)) [
    | inl off ↦ rw off (inr (inr (inr (inr (x, b, refl)), inl refl, refl)))
    | inr up ↦
        elim (Bool-cases
          (is_pcs_memory_refuse show x || (is_open_call_job job && is_cas_hash_mismatch show x))) [
            | inl never ↦ rw (up, never) (refusal-IsSettled job x down st b e)
            | inr later ↦ rw (up, later) (inr (inr (inr (inr (x, b, refl)), inr (x, refl), refl)))
          ]
  ]
  built_or_not-IsSettled job (ok pcs) down st b e =
      let better = cached_job crypto hex show job pcs in
      let db = (upsert_pending_pcs pubkey id better w.unix_now st.storage).1 in
      let st1 : AppState = record st { storage = db } in
      let (row, found, same_job, attempts, created) =
        get-upsert_pcs pubkey id better w.unix_now st.storage e in
      rw (upsert-ok pubkey id st.storage e better w.unix_now)
        (elim (deliver-IsSettled better pcs.leaf_pcs_b64 st1
          (upsert-keeps pubkey id st.storage e better w.unix_now)) [
            | inl (s, r, g) ↦ inl (
              build_pcs_wire_body id st.config.peer_id pcs.leaf_pcs_b64,
              refl,
              inr (refl, inr (pcs, b, refl, refl)),
              s,
              r,
              g,
            )
            | inr (r, same) ↦ inr (
                inl (
                  pcs,
                  row,
                  b,
                  refl,
                  r,
                  ap (λ (x : AppState). (get_pending_pcs pubkey id x.storage).0) same ∙ found,
                  same_job,
                ))
          ])

  build_from_bytes-storage :
      (call : OpenCallPcsSource) (r : Result Bytes CasError) (st : AppState)
      → (build_from_bytes crypto hex show w id call r st).1.storage ≡ st.storage
  unfolding build_leaf_pcs
  build_from_bytes-storage call (err x) st = refl
  build_from_bytes-storage call (ok bytes) st = refl

  build_job-storage :
      (job : PendingPcsJob) (st : AppState)
      → (build_job crypto hex show w id job st).1.storage ≡ st.storage
  unfolding build_leaf_pcs build_open_call_leaf_pcs
  build_job-storage job st = elim (Option-cases job.open_call) [
    | inl n ↦ rw n refl
    | inr (call, some_call) ↦
        rw some_call (
          build_from_bytes-storage call (fetch_and_verify crypto hex w.blob call.leaf_proof_hash)
            st)
  ]

  -- The set of runs in flight is not looked at.
  pub build_job-claim :
      (job : PendingPcsJob) (set : List Text) (st : AppState)
      → (build_job crypto hex show w id job (record st { in_flight = set })).0
        ≡ (build_job crypto hex show w id job st).0
  unfolding build_leaf_pcs build_open_call_leaf_pcs
  build_job-claim job set st = elim (Option-cases job.open_call) [
    | inl n ↦ rw n refl
    | inr (call, some_call) ↦
        rw some_call (fetched (fetch_and_verify crypto hex w.blob call.leaf_proof_hash) call)
  ]
    where
      fetched :
          (r : Result Bytes CasError) (call : OpenCallPcsSource)
          → (build_from_bytes crypto hex show w id call r (record st { in_flight = set })).0
            ≡ (build_from_bytes crypto hex show w id call r st).0
      fetched (err x) call = refl
      fetched (ok bytes) call = refl

  IsSettled-from :
      (job : PendingPcsJob) (built : Result LeafPcsResponse PcsError) (down : Bool)
      (st st1 : AppState) (o : Outcome)
      → st1.storage ≡ st.storage
      → IsSettled job built down st1 o
      → IsSettled job built down st o
  IsSettled-from job built down st st1 o same s = elim s [
    | inl g ↦ inl g
    | inr (inl cached) ↦ inr (inl cached)
    | inr (inr (n, r, kept)) ↦ inr (inr (n, r, kept ∙ same))
  ]

  build_and_deliver-IsSettled :
      (job : PendingPcsJob) (st : AppState)
      → job.leaf_pcs_b64 ≡ none
      → st.storage.faults ≡ []
      → IsSettled job
          (build_job crypto hex show w id job st).0
          (is_in_backoff w.now st.core)
          st
          (build_and_deliver crypto hex show w pubkey id job st)
  build_and_deliver-IsSettled job st n e = elim (Bool-cases (is_in_backoff w.now st.core)) [
    | inl off ↦ rw off (inr (inr (inr (inl refl), inl refl, refl)))
    | inr up ↦
        let (r, st1) = build_job crypto hex show w id job st in
        let same = build_job-storage job st in
        rw up (
          IsSettled-from job r false st st1 (built_or_not crypto hex show w pubkey id job r st1)
            same
            (built_or_not-IsSettled job r false st1 (n, refl)
              (ap (λ (db : Storage). db.faults) same ∙ e)))
  ]

  pub run_job-IsSettled :
      (job : PendingPcsJob) (st : AppState)
      → st.storage.faults ≡ []
      → IsSettled job
          (build_job crypto hex show w id job st).0
          (is_in_backoff w.now st.core)
          st
          (run_job crypto hex show w pubkey id job st)
  unfolding run_job
  run_job-IsSettled job st e = elim (Option-cases job.leaf_pcs_b64) [
    | inr (b64, stored) ↦ subst Settles (sym stored) (deliver-settles job made down b64 st stored e)
    | inl n ↦ subst Settles (sym n) (build_and_deliver-IsSettled job st n e)
  ]
    where
      made : Result LeafPcsResponse PcsError
      made = (build_job crypto hex show w id job st).0

      down : Bool
      down = is_in_backoff w.now st.core

      Settles : Option Text → Type 0
      Settles o = IsSettled job made down st (elim o [
        | some b ↦ deliver crypto hex show w pubkey id job b st
        | none ↦ build_and_deliver crypto hex show w pubkey id job st
      ])
