-- ===== src/Storage/Rows/Lookup.antt =====
-- What a key finds after each statement on a table.
use wqc_node.Base.{
  ◌≡◌, refl, true, false, List, [], ◌∷◌, ◌++◌, Option, none, some, arith, if◌then◌else◌,
}
use wqc_node.Base.Int.{ℤ}
use wqc_node.Storage.Rows.{
  Key, Row, Table, key_eq, key_eq_iff, find_row, update_key, delete_where, has_key, upsert,
}

module _ {ℓ} {A : Type ℓ} where
  -- Statements that write columns leave the key alone.
  abbrev pub KeepsKey : (Row A → Row A) → Type ℓ
  KeepsKey f = (r : Row A) → Row.key (f r) ≡ r.key

  abbrev pub apply_to : (Row A → Row A) → Option (Row A) → Option (Row A)
  apply_to f none = none
  apply_to f (some r) = some (f r)

  pub find_row-update_key :
      (j k : Key) (f : Row A → Row A)
      → ((r : Row A) → (f r).key ≡ r.key)
      → (rs : List (Row A))
      → find_row j (update_key k f rs)
        ≡ (if key_eq k j then apply_to f (find_row j rs) else find_row j rs)
  unfolding find_row update_key
  find_row-update_key j k f keep [] = ground arith
  find_row-update_key j k f keep (r ∷ rs) = ground (
    arith,
    keep r,
    key_eq_iff r.key k,
    key_eq_iff r.key j,
    key_eq_iff k j,
    key_eq_iff (f r).key j,
    find_row-update_key j k f keep rs,
  )

  pub find_row-delete_key :
      (j k : Key) (rs : List (Row A))
      → find_row j (delete_where (λ r. key_eq r.key k) rs)
        ≡ (if key_eq k j then none else find_row j rs)
  unfolding find_row delete_where
  find_row-delete_key j k [] = ground arith
  find_row-delete_key j k (r ∷ rs) =
      ground
        (arith, key_eq_iff r.key k, key_eq_iff r.key j, key_eq_iff k j, find_row-delete_key j k rs)

  -- A key is in the table exactly when it finds a row.
  pub has_key-find_row :
      (k : Key) (rs : List (Row A))
      → has_key k rs ≡ elim (find_row k rs) [ none ↦ false | some r ↦ true ]
  unfolding find_row
  has_key-find_row k [] = refl
  has_key-find_row k (r ∷ rs) = ground (arith, has_key-find_row k rs)

  abbrev pub or_else : Option (Row A) → Option (Row A) → Option (Row A)
  or_else none o = o
  or_else (some r) o = some r

  pub find_row-append :
      (j : Key) (xs ys : List (Row A))
      → find_row j (xs ++ ys) ≡ or_else (find_row j xs) (find_row j ys)
  unfolding find_row
  find_row-append j [] ys = refl
  find_row-append j (r ∷ xs) ys = ground (arith, find_row-append j xs ys)

  -- The row that an upsert leaves under its key.
  abbrev pub upserted : Table A → Key → ℤ → A → (Row A → Row A) → Row A
  upserted t k now cols f = elim (find_row k t.rows) [
    | none ↦ record { id = t.next_id; key = k; created_at = now; cols = cols }
    | some r ↦ f r
  ]

  pub find_row-upsert :
      (j k : Key) (now : ℤ) (cols : A) (f : Row A → Row A)
      → ((r : Row A) → (f r).key ≡ r.key)
      → (t : Table A)
      → find_row j (upsert k now cols f t).rows
        ≡ (if key_eq k j then some (upserted t k now cols f) else find_row j t.rows)
  unfolding upsert find_row
  find_row-upsert j k now cols f keep t = ground (
    arith,
    has_key-find_row k t.rows,
    find_row-update_key j k f keep t.rows,
    find_row-append j t.rows
        (record { id = t.next_id; key = k; created_at = now; cols = cols } ∷ []),
    key_eq_iff k j,
  )
