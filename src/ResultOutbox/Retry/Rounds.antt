-- ===== src/ResultOutbox/Retry/Rounds.antt =====
-- The retry loop over its rounds (src/application/result_outbox.rs), where SQLite does not fail.
use wqc_node.Base.{
  ℕ, zero, suc, ◌+◌, ◌≡◌, refl, ap, sym, subst, ◌∙◌, Bool, true, false, List, [], ◌∷◌, Option, none,
  some, arith, if◌then◌else◌, Bool-cases, inl, inr,
}
use wqc_node.Base.Bytes.{Bytes}
use wqc_node.Base.Int.{ℤ}
use wqc_node.Json.{Value}
use wqc_node.Models.{Proof}
use wqc_node.ResultOutbox.Retry.{retry_entry, retry_entries, retry_pass, retry_rounds}
use wqc_node.ResultOutbox.Retry.Attempts.{settle}
use wqc_node.ResultOutbox.Retry.Pass.{
  retain_loaded-Same, list-lists, retry_entry-step, retry_pass_lem,
}
use wqc_node.Storage.{Storage, ResultCols, key}
use wqc_node.Storage.Results.{delete_pending_result, increment_pending_result_attempts, bump_result}
use wqc_node.Storage.Rows.{Key, Row, find_row, order_by_created_at}
use wqc_node.Storage.Rows.Order.{IsTable, Ordered-update_id, Ordered-delete_where}
use wqc_node.Storage.Steps.{load-keeps, delete_result-gone}
use wqc_node.Storage.Tasks.{load_task}

module _ (from_slice : Bytes → Option Value) (proof_from : Value → Option Proof) where
  module _ (sends : ℕ → Bytes → Bool) where
    delete-IsTable :
        (k : Key) (db : Storage)
        → db.faults ≡ []
        → IsTable db.pending_results
        → IsTable (delete_pending_result k.orchestrator_pubkey k.task_id db).1.pending_results
    unfolding delete_pending_result
    delete-IsTable k db e t = rw e (Ordered-delete_where _ _ _ t)

    increment-IsTable :
        (i : ℕ) (db : Storage)
        → db.faults ≡ []
        → IsTable db.pending_results
        → IsTable (increment_pending_result_attempts i db).1.pending_results
    unfolding increment_pending_result_attempts
    increment-IsTable i db e t = rw e (Ordered-update_id i bump_result (λ r. (refl, refl)) _ _ t)

    retry_entry-IsTable :
        (now : ℤ) (s : Row ResultCols) (db : Storage)
        → db.faults ≡ []
        → IsTable db.pending_results
        → IsTable (retry_entry from_slice proof_from sends now s db).1.pending_results
    unfolding retry_entry
    retry_entry-IsTable now s db e t = elim (Bool-cases (sends s.id s.cols.wire_body)) [
      | inl sent ↦
          let pubkey = s.key.orchestrator_pubkey in
          let id = s.key.task_id in
          let db1 = (delete_pending_result pubkey id db).1 in
          let (_, e1, _) = delete_result-gone pubkey id db e in
          let loads = load-keeps pubkey id db1 e1 in
          let (same, _) =
            retain_loaded-Same from_slice proof_from s.cols.wire_body (load_task pubkey id db1).0
              now (load_task pubkey id db1).1 (ap (λ d. d.faults) loads ∙ e1) in
          rw sent (
            subst IsTable (sym (same ∙ ap (λ d. d.pending_results) loads))
              (delete-IsTable s.key db e t))
      | inr failed ↦ rw failed (increment-IsTable s.id db e t)
    ]

    retry_entries-IsTable :
        (now : ℤ) (ss : List (Row ResultCols)) (db : Storage)
        → db.faults ≡ []
        → IsTable db.pending_results
        → IsTable (retry_entries from_slice proof_from sends now ss db).1.pending_results
    unfolding retry_entries
    retry_entries-IsTable now [] db e t = t
    retry_entries-IsTable now (s ∷ ss) db e t =
        retry_entries-IsTable now ss (retry_entry from_slice proof_from sends now s db).1
          (retry_entry-step from_slice proof_from sends s.key now s db e).1
          (retry_entry-IsTable now s db e t)

    retry_pass-IsTable :
        (now : ℤ) (db : Storage)
        → db.faults ≡ []
        → IsTable db.pending_results
        → IsTable (retry_pass from_slice proof_from sends now db).1.pending_results
    unfolding retry_pass
    retry_pass-IsTable now db e t =
        let rows = order_by_created_at db.pending_results.rows in
        rw (list-lists db e) (retry_entries-IsTable now rows db e t)

  module _ (sends : ℕ → ℕ → Bytes → Bool) (clock : ℕ → ℤ) (db : Storage) (e : db.faults ≡ [])
      (t : IsTable db.pending_results) where
    abbrev pub after : ℕ → Storage
    after n = retry_rounds from_slice proof_from sends clock n db

    rounds_sound : (n : ℕ) → ((after n).faults ≡ []) × IsTable (after n).pending_results
    unfolding retry_rounds
    rounds_sound zero = (e, t)
    rounds_sound (suc n) =
        let (e1, t1) = rounds_sound n in
        (
          (retry_pass_lem from_slice proof_from (sends n) (key [] []) (clock n) (after n) e1 t1).1,
          retry_pass-IsTable (sends n) (clock n) (after n) e1 t1,
        )

    -- Whether an attempt of the first `n` rounds went through.
    abbrev pub sent_by : ℕ → Row ResultCols → Bool
    sent_by zero r = false
    sent_by (suc n) r = if sent_by n r then true else sends n r.id r.cols.wire_body

    -- The row after `n` attempts.
    abbrev pub tried : ℕ → Row ResultCols → Row ResultCols
    tried n r = record r { cols = record r.cols { attempts = r.cols.attempts + n } }

    with_attempts :
        (r : Row ResultCols) (n : ℕ)
        → n ≡ r.cols.attempts
        → record r { cols = record r.cols { attempts = n } } ≡ r
    with_attempts r n h = ap (λ n. record r { cols = record r.cols { attempts = n } }) h

    next :
        (k : Key) (r : Row ResultCols) (n : ℕ) (sent : Bool)
        → sent ≡ sent_by n r
        → settle (sends n) k (if sent_by n r then none else some (tried n r))
          ≡ (if sent_by (suc n) r then none else some (tried (suc n) r))
    next k r n true h = rw (sym h) refl
    next k r n false h = rw (sym h) (elim (Bool-cases (sends n r.id r.cols.wire_body)) [
      | inl goes ↦ rw goes refl
      | inr fails ↦
          let counted : r.cols.attempts + n + 1 ≡ r.cols.attempts + suc n = omega arith in
          rw fails (ap (λ n. some (record r { cols = record r.cols { attempts = n } })) counted)
    ])

    -- A result in the outbox leaves it in the first round whose attempt writes its bytes to a stream
    -- and closes it, and stays out; until then it is there, with its bytes, under its id, and with one
    -- attempt counted for each round.
    pub retry_rounds_lem :
        (k : Key) (r : Row ResultCols)
        → find_row k db.pending_results.rows ≡ some r
        → (n : ℕ)
        → find_row k (after n).pending_results.rows
          ≡ (if sent_by n r then none else some (tried n r))
    unfolding retry_rounds
    retry_rounds_lem k r found zero =
        found ∙ ap some (sym (with_attempts r (r.cols.attempts + 0) (omega arith)))
    retry_rounds_lem k r found (suc n) =
        let (e1, t1) = rounds_sound n in
        let (passed, _) =
          retry_pass_lem from_slice proof_from (sends n) k (clock n) (after n) e1 t1 in
        let before = retry_rounds_lem k r found n in
        passed ∙ ap (settle (sends n) k) before ∙ next k r n (sent_by n r) refl
