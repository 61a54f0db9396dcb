-- ===== src/ResultOutbox/Retry/Attempts.antt =====
-- The attempts of one round of the retry loop, as they meet the row under one key
-- (src/application/result_outbox.rs).
use wqc_node.Base.{
  ℕ, ◌<◌, ◌≡◌, refl, ap, sym, ◌∙◌, Bool, true, false, List, [], ◌∷◌, Option, none, some, arith,
  ◌==◌, ==_iff, if◌then◌else◌, All, Bool-cases, Option-cases, inl, inr,
}
use wqc_node.Base.Bytes.{Bytes}
use wqc_node.Base.Int.{leb_ℤ}
use wqc_node.Storage.{ResultCols}
use wqc_node.Storage.Results.{bump_result}
use wqc_node.Storage.Rows.{
  Key, Row, key_eq, key_eq_iff, find_row, update_id, insert_row, order_by_created_at,
}
use wqc_node.Storage.Rows.Order.{Apart, Ordered}

unfoldable pub bump_if : ℕ → Option (Row ResultCols) → Option (Row ResultCols)
bump_if i none = none
bump_if i (some r) = some (if r.id == i then bump_result r else r)

pub find_row-update_id :
    (k : Key) (i : ℕ) (rs : List (Row ResultCols))
    → find_row k (update_id i bump_result rs) ≡ bump_if i (find_row k rs)
unfolding find_row update_id bump_if
find_row-update_id k i [] = refl
find_row-update_id k i (r ∷ rs) = ground (arith, find_row-update_id k i rs)

module _ (sends : ℕ → Bytes → Bool) (k : Key) where
  -- What the attempt for the row `s` makes of the row under the key.
  unfoldable pub step : Row ResultCols → Option (Row ResultCols) → Option (Row ResultCols)
  unfolding bump_if
  step s o =
      if sends s.id s.cols.wire_body then (if key_eq s.key k then none else o) else bump_if s.id o

  unfoldable pub steps : List (Row ResultCols) → Option (Row ResultCols) → Option (Row ResultCols)
  unfolding step
  steps [] o = o
  steps (s ∷ ss) o = steps ss (step s o)

  step-commutes :
      (s t : Row ResultCols) (o : Option (Row ResultCols)) → step s (step t o) ≡ step t (step s o)
  unfolding step bump_if
  step-commutes s t none = ground arith
  step-commutes s t (some r) = ground arith

  steps-insert_row :
      (s : Row ResultCols) (ss : List (Row ResultCols)) (o : Option (Row ResultCols))
      → steps (insert_row s ss) o ≡ steps ss (step s o)
  unfolding steps
  steps-insert_row s [] o = refl
  steps-insert_row s (t ∷ ss) o = elim (Bool-cases (leb_ℤ s.created_at t.created_at)) [
    | inl le ↦ rw le refl
    | inr gt ↦ rw gt (steps-insert_row s ss (step t o) ∙ ap (steps ss) (step-commutes s t o))
  ]

  -- The order of the attempts makes no difference.
  pub steps-order :
      (ss : List (Row ResultCols)) (o : Option (Row ResultCols))
      → steps (order_by_created_at ss) o ≡ steps ss o
  unfolding steps order_by_created_at
  steps-order [] o = refl
  steps-order (s ∷ ss) o = steps-insert_row s (order_by_created_at ss) o ∙ steps-order ss (step s o)

  -- What an attempt for the row itself makes of it.
  abbrev pub settle : Option (Row ResultCols) → Option (Row ResultCols)
  settle none = none
  settle (some r) = if sends r.id r.cols.wire_body then none else some (bump_result r)

  steps-none : (ss : List (Row ResultCols)) → steps ss none ≡ none
  unfolding steps step bump_if
  steps-none [] = refl
  steps-none (s ∷ ss) = ground (arith, steps-none ss)

  -- Attempts for rows that stand behind leave a row alone.
  steps-behind :
      (r r' : Row ResultCols) (ss : List (Row ResultCols))
      → key_eq r.key k ≡ true
      → r'.id ≡ r.id
      → All (Apart r) ss
      → steps ss (some r') ≡ some r'
  unfolding steps step bump_if
  steps-behind r r' [] at same h = refl
  steps-behind r r' (s ∷ ss) at same ((lt, ne), h) =
      let rest = steps-behind r r' ss at same h in
      let other : key_eq s.key k ≡ false =
        ground (arith, ne, at, key_eq_iff r.key k, key_eq_iff s.key k, key_eq_iff s.key r.key) in
      let differs : (r'.id == s.id) ≡ false = ground (arith, lt, same) in
      rw other (ground (arith, differs, rest))

  found-behind :
      (r x : Row ResultCols) (ss : List (Row ResultCols))
      → All (Apart r) ss
      → find_row k ss ≡ some x
      → r.id < x.id
  unfolding find_row
  found-behind r x [] h e = ground (arith, e)
  found-behind r x (s ∷ ss) ((lt, _), h) e = elim (Bool-cases (key_eq s.key k)) [
    | inl t ↦ ground (arith, t, e, lt)
    | inr f ↦ found-behind r x ss h (ground (arith, f, e))
  ]

  step-ahead :
      (r : Row ResultCols) (ss : List (Row ResultCols))
      → key_eq r.key k ≡ false
      → All (Apart r) ss
      → step r (find_row k ss) ≡ find_row k ss
  unfolding step bump_if
  step-ahead r ss f h = elim (Option-cases (find_row k ss)) [
    | inl n ↦ rw n (ground (arith, f))
    | inr (x, e) ↦
        let differs : (x.id == r.id) ≡ false = ground (arith, found-behind r x ss h e) in
        rw e (ground (arith, f, differs))
  ]

  find_row-miss :
      (r : Row ResultCols) (rs : List (Row ResultCols))
      → key_eq r.key k ≡ false
      → find_row k (r ∷ rs) ≡ find_row k rs
  unfolding find_row
  find_row-miss r rs f = rw f refl

  -- In a table each row meets just its own attempt.
  pub steps-settle :
      (n : ℕ) (rs : List (Row ResultCols))
      → Ordered n rs
      → steps rs (find_row k rs) ≡ settle (find_row k rs)
  unfolding steps step find_row bump_if
  steps-settle n [] h = refl
  steps-settle n (r ∷ rs) (lt, behind, h) = elim (Bool-cases (key_eq r.key k)) [
    | inl at ↦
        let bumped = steps-behind r (bump_result r) rs at refl behind in
        rw at (elim (Bool-cases (sends r.id r.cols.wire_body)) [
          | inl sent ↦ rw sent (steps-none rs)
          | inr failed ↦
              let self : (r.id == r.id) ≡ true = (==_iff r.id r.id).1 refl in
              rw failed (rw self bumped)
        ])
    | inr f ↦
        let first = find_row-miss r rs f in
        ap (steps (r ∷ rs)) first
        ∙ ap (steps rs) (step-ahead r rs f behind)
        ∙ steps-settle n rs h
        ∙ ap settle (sym first)
  ]
