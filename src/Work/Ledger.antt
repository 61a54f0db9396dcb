-- ===== src/Work/Ledger.antt =====
-- What a decision records, and how a sub-task is counted (src/domain/work.rs).
use wqc_node.Base.{
  ℕ, ◌+◌, ◌-◌, ◌≡◌, ◌≢◌, refl, sym, ap, ◌∙◌, Bool, List, [], ◌∷◌, Option, none, some, Result, ok,
  arith, ltb, lt→ltb, if◌then◌else◌, Bool-cases, inl, inr, map,
}
use wqc_node.Base.Float.{F64, Float}
use wqc_node.Base.Map.{
  Map, lookup, insert, retain, values, lookup-remove, lookup-insert, remove-none,
}
use wqc_node.Base.Text.{Text, text_eq_iff, text_eq_refl}
use wqc_node.Models.{Budget}
use wqc_node.Work.{
  WorkLedger, Work, Held, BudgetPolicy, decide, hold, release, reservation_ttl, announced_ttl,
  is_live, queued_secs, own_secs, total_secs, limit_secs, expire_reserved, admit, sum, sum_from,
  held_secs,
}

-- The budget found under a task, unless it was bid on six hours ago or longer.
abbrev pub young : ℕ → Option (Budget × ℕ) → Option Budget
young now none = none
young now (some (b, at)) = if ltb (now - at) announced_ttl then some b else none

module _ (fl : Float) (task_id : Text) (work : Work) (deadline_secs : ℕ) (policy : BudgetPolicy)
    (now : ℕ) (l : WorkLedger) where
  abbrev result : Result Budget F64 × WorkLedger
  result = decide fl task_id work deadline_secs policy now l

  abbrev offered : Budget
  offered = record { deadline_secs = deadline_secs; expected_secs = own_secs fl policy work }

  abbrev Fits : Bool → Type 0
  Fits b = fl.flt (limit_secs fl policy deadline_secs) (total_secs fl policy work now l) ≡ b

-- Accepting a sub-task ends its parent's reservation and counts it with the time of its budget, not
-- yet started; releasing it afterwards leaves no trace of it and does not touch the others.
pub hold-release :
    (sub other parent : Text) (b : Budget) (l : WorkLedger)
    → sub ≢ other
    → let held = hold sub (some parent) (some b) l in
      let gone = release sub held in
      (lookup parent held.reserved ≡ none)
      × (lookup sub held.held
          ≡ some (record { expected_secs = some b.expected_secs; started = none }))
      × (lookup sub gone.held ≡ none)
      × (lookup other gone.held ≡ lookup other l.held)
      × (gone.reserved ≡ held.reserved)
      × (gone.announced ≡ l.announced)
unfolding hold release
hold-release sub other parent b l ne =
    let h : Held = record { expected_secs = some b.expected_secs; started = none } in
    (
      ground (arith, lookup-remove parent parent l.reserved, text_eq_refl parent),
      ground (arith, lookup-insert sub sub h l.held, text_eq_refl sub),
      ground (arith, lookup-remove sub sub (insert sub h l.held), text_eq_refl sub),
      ground (
        arith,
        lookup-remove other sub (insert sub h l.held),
        lookup-insert other sub h l.held,
        text_eq_iff sub other,
      ),
      refl,
      refl,
    )

-- A fresh reservation counts, after those that counted.
retain-insert :
    (now : ℕ) (k : Text) (x : F64) (m : Map (F64 × ℕ))
    → lookup k m ≡ none
    → retain (is_live now) (insert k (x, now + reservation_ttl) m)
      ≡ (k, (x, now + reservation_ttl)) ∷ retain (is_live now) m
unfolding insert retain
retain-insert now k x m free =
    rw (remove-none k m free, lt→ltb now (now + reservation_ttl) (omega arith)) refl

-- Sums where addition is that of numbers, with nothing rounded.
module _ (fl : Float) (start_zero : (x : F64) → fl.add fl.sum_start x ≡ x)
    (comm : (x y : F64) → fl.add x y ≡ fl.add y x)
    (assoc : (x y z : F64) → fl.add (fl.add x y) z ≡ fl.add x (fl.add y z)) where
  sum_from-add : (acc : F64) (xs : List F64) → sum_from fl acc xs ≡ fl.add acc (sum fl xs)
  sum_from-add acc [] = sym (comm acc fl.sum_start ∙ start_zero acc)
  sum_from-add acc (x ∷ xs) =
      sum_from-add (fl.add acc x) xs
      ∙ assoc acc x (sum fl xs)
      ∙ ap (fl.add acc) (
          sym (
            sum_from-add (fl.add fl.sum_start x) xs
            ∙ ap (λ (z : F64). fl.add z (sum fl xs)) (start_zero x)))

  pub sum-cons : (x : F64) (xs : List F64) → sum fl (x ∷ xs) ≡ fl.add x (sum fl xs)
  sum-cons x xs =
      sum_from-add (fl.add fl.sum_start x) xs
      ∙ ap (λ (z : F64). fl.add z (sum fl xs)) (start_zero x)

  swap_last : (a b c : F64) → fl.add a (fl.add b c) ≡ fl.add (fl.add a c) b
  swap_last a b c = ap (fl.add a) (comm b c) ∙ sym (assoc a c b)

  queued-admit :
      (task_id : Text) (b : Budget) (now : ℕ) (unknown : F64) (l : WorkLedger)
      → lookup task_id l.reserved ≡ none
      → queued_secs fl now unknown (admit fl task_id b now l)
        ≡ fl.add (queued_secs fl now unknown l) b.expected_secs
  unfolding queued_secs
  queued-admit task_id b now unknown l free =
      ap
        (λ (m : Map (F64 × ℕ)).
          fl.add (sum fl (map (held_secs fl now unknown) (values l.held)))
            (sum fl (map (λ (expected, until). expected) (values m))))
        (retain-insert now task_id b.expected_secs l.reserved free)
      ∙ ap (fl.add (sum fl (map (held_secs fl now unknown) (values l.held)))) (
          sum-cons b.expected_secs
            (map (λ (expected, until). expected) (values (retain (is_live now) l.reserved))))
      ∙ swap_last (sum fl (map (held_secs fl now unknown) (values l.held))) b.expected_secs
          (sum fl (map (λ (expected, until). expected) (values (retain (is_live now) l.reserved))))

  -- An admitted bid is in the queue that the next decision sees, by exactly its own time, if the
  -- task had no reservation that still counted.
  pub queued-decide :
      (task_id : Text) (work : Work) (deadline_secs : ℕ) (policy : BudgetPolicy) (now : ℕ)
      (l : WorkLedger) (b : Budget)
      → (decide fl task_id work deadline_secs policy now l).0 ≡ ok b
      → lookup task_id (retain (is_live now) l.reserved) ≡ none
      → queued_secs fl now policy.unknown_secs (decide fl task_id work deadline_secs policy now l).1
        ≡ total_secs fl policy work now l
  unfolding decide
  queued-decide task_id work deadline_secs policy now l b e free =
      elim (Bool-cases
        (fl.flt (limit_secs fl policy deadline_secs) (total_secs fl policy work now l))) [
          | inl past ↦ ground (arith, past, e)
          | inr fit ↦ rw fit (
              queued-admit task_id
                (record { deadline_secs = deadline_secs; expected_secs = own_secs fl policy work })
                now policy.unknown_secs (expire_reserved fl now l) free)
        ]
