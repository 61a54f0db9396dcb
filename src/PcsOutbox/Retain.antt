-- ===== src/PcsOutbox/Retain.antt =====
-- What is retained after a result and what a request starts (src/application/pcs_outbox.rs), where
-- SQLite does not fail.
use wqc_node.Base.{
  ℕ, suc, ◌≡◌, refl, ap, sym, subst, ◌∙◌, Bool, true, false, [], Option, none, some, ok,
  if◌then◌else◌, Bool-cases, Option-cases, inl, inr,
}
use wqc_node.Base.Int.{ℤ}
use wqc_node.Base.Text.{Text}
use wqc_node.Jobs.{PendingPcsJob}
use wqc_node.Models.{ComputeTask, Proof}
use wqc_node.Pcs.{PcsRequest, is_open_call}
use wqc_node.PcsOutbox.Requests.{
  new_job, take_over, retain_after_result, lookup_retained, handle_pcs_request, mark_requested,
}
use wqc_node.State.{AppState}
use wqc_node.Storage.{Storage, PcsCols}
use wqc_node.Storage.Jobs.{get_pending_pcs}
use wqc_node.Storage.Outbox.{get-upsert_pcs}
use wqc_node.Storage.Steps.{get-keeps, upsert-ok}
use wqc_node.Storage.Rows.{Row}

-- What is kept of the row that was there: the request, the call and a bundle that was built.
abbrev pub Keeps : Option (Row PcsCols) → PendingPcsJob → Type 0
Keeps none job = (job.requested ≡ false) × (job.open_call ≡ none) × (job.leaf_pcs_b64 ≡ none)
Keeps (some r) job =
    (job.requested ≡ r.cols.job.requested)
    × (job.open_call ≡ r.cols.job.open_call)
    × (job.leaf_pcs_b64 ≡ r.cols.job.leaf_pcs_b64)

take_over-Keeps :
    (id : Text) (proof : Proof) (found : Option (Row PcsCols))
    → let job = take_over (new_job id proof) (ok found) in (job.proof ≡ proof) × Keeps found job
take_over-Keeps id proof none = (refl, (refl, refl, refl))
take_over-Keeps id proof (some r) = elim (Option-cases r.cols.job.leaf_pcs_b64) [
  | inl n ↦ rw n (refl, (refl, refl, refl))
  | inr (b64, e) ↦ rw e (refl, (refl, refl, refl))
]

-- Retaining a proof stores a job for it that keeps the request, the open call and the built bundle
-- of the job that was there, with its attempts at zero; it is built at once exactly if it was
-- requested.
pub retain_after_result-Keeps :
    (task : ComputeTask) (proof : Proof) (now : ℤ) (db : Storage) (found : Option (Row PcsCols))
    → db.faults ≡ []
    → (get_pending_pcs task.orchestrator_pubkey task.request.task_id db).0 ≡ ok found
    → let (built, db') = retain_after_result task proof now db in
      (r : Row PcsCols) × ((get_pending_pcs task.orchestrator_pubkey task.request.task_id db').0
        ≡ ok (some r))
      × (r.cols.job.proof ≡ proof)
      × Keeps found r.cols.job
      × (r.cols.attempts ≡ 0)
      × (built ≡ (if r.cols.job.requested then some r.cols.job else none))
unfolding retain_after_result
retain_after_result-Keeps task proof now db found e ef =
    let pubkey = task.orchestrator_pubkey in
    let id = task.request.task_id in
    let job = take_over (new_job id proof) (ok found) in
    let (r, er, ej, ea, et) = get-upsert_pcs pubkey id job now db e in
    let (tp, tk) = take_over-Keeps id proof found in
    rw (ef, get-keeps pubkey id db e, upsert-ok pubkey id db e job now)
      (
        r,
        er,
        ap (λ (j : PendingPcsJob). j.proof) ej ∙ tp,
        subst (Keeps found) (sym ej) tk,
        ea,
        ap (λ (j : PendingPcsJob). if j.requested then some j else none) (sym ej),
      )

-- The job as a request leaves it.
abbrev pub asked : PendingPcsJob → PendingPcsJob
asked job = record job { requested = true }

asked-same : (job : PendingPcsJob) → job.requested ≡ true → job ≡ asked job
asked-same job t = ap (λ (b : Bool). let j : PendingPcsJob = record job { requested = b } in j) t

-- The job is built as asked for, and so it is stored.
abbrev IsAsked : Text → Text → PendingPcsJob → Option PendingPcsJob × Storage → Type 0
IsAsked pubkey id job (built, db') =
    (built ≡ some (asked job))
    × ((r : Row PcsCols) × ((get_pending_pcs pubkey id db').0 ≡ ok (some r))
        × (r.cols.job ≡ asked job))

mark_requested-IsAsked :
    (pubkey id : Text) (now : ℤ) (row : Row PcsCols) (db : Storage)
    → db.faults ≡ []
    → (get_pending_pcs pubkey id db).0 ≡ ok (some row)
    → IsAsked pubkey id row.cols.job (mark_requested pubkey id now row.cols.job db)
mark_requested-IsAsked pubkey id now row db e found = elim (Bool-cases row.cols.job.requested) [
  | inl t ↦ rw t (refl, (row, found, asked-same row.cols.job t))
  | inr f ↦
      let (r, er, ej, ea, et) = get-upsert_pcs pubkey id (asked row.cols.job) now db e in
      rw (f, upsert-ok pubkey id db e (asked row.cols.job) now) (refl, (r, er, ej))
]

lookup_retained-found :
    (pubkey id : Text) (now : ℤ) (meanwhile : ℕ → Storage → Storage) (left : ℕ) (row : Row PcsCols)
    (db : Storage)
    → db.faults ≡ []
    → (get_pending_pcs pubkey id db).0 ≡ ok (some row)
    → lookup_retained pubkey id now meanwhile (suc left) db
      ≡ mark_requested pubkey id now row.cols.job db
unfolding lookup_retained
lookup_retained-found pubkey id now meanwhile left row db e found =
    rw (found, get-keeps pubkey id db e) refl

-- A nomination for a retained job marks the job as requested in the database and builds it, with
-- nothing else of it changed.
pub handle_pcs_request-IsAsked :
    (pubkey : Text) (request : PcsRequest) (now : ℤ) (meanwhile : ℕ → Storage → Storage)
    (st : AppState) (row : Row PcsCols)
    → st.storage.faults ≡ []
    → is_open_call request ≡ false
    → (get_pending_pcs pubkey request.sub_task_id st.storage).0 ≡ ok (some row)
    → IsAsked pubkey request.sub_task_id row.cols.job
        (handle_pcs_request pubkey request now meanwhile st)
unfolding handle_pcs_request
handle_pcs_request-IsAsked pubkey request now meanwhile st row e kind found =
    rw
      (
        kind,
        lookup_retained-found pubkey request.sub_task_id now meanwhile 9 row st.storage e found,
      )
      (mark_requested-IsAsked pubkey request.sub_task_id now row st.storage e found)
