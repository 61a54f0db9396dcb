-- ===== src/Storage/Rows/Order.antt =====
-- The well-formedness of a table: ids rise along it and stay below the next one, and no two rows
-- share a key.
use wqc_node.Base.{
  ℕ, ◌+◌, ◌<◌, ◌≡◌, refl, Bool, false, List, [], ◌∷◌, ◌++◌, Option, none, some, arith, ◌==◌, map,
  if◌then◌else◌, Bool-cases, inl, inr, All,
}
use wqc_node.Base.Int.{ℤ}
use wqc_node.Storage.Rows.{
  Key, Row, Table, key_eq, key_eq_iff, find_row, update_key, update_id, delete_where, append_row,
  has_key, upsert,
}

key_eq-sym : (a b : Key) → key_eq a b ≡ false → key_eq b a ≡ false
key_eq-sym a b h = ground (arith, key_eq_iff a b, key_eq_iff b a)

module _ {ℓ} {A : Type ℓ} where
  -- `s` stands behind `r`.
  abbrev pub Apart : Row A → Row A → Type 0
  Apart r s = (r.id < s.id) × (key_eq s.key r.key ≡ false)

  abbrev pub Ordered : ℕ → List (Row A) → Type 0
  Ordered n [] = Unit {0}
  Ordered n (r ∷ rs) = (r.id < n) × All (Apart r) rs × Ordered n rs

  abbrev pub IsTable : Table A → Type 0
  IsTable t = Ordered t.next_id t.rows

  -- A write that keeps the id and the key.
  abbrev pub Keeps : (Row A → Row A) → Type ℓ
  Keeps f = (r : Row A) → ((f r).id ≡ r.id) × ((f r).key ≡ r.key)

  Apart-Keeps : (g : Row A → Row A) → Keeps g → (r s : Row A) → Apart r s → Apart (g r) (g s)
  Apart-Keeps g keep r s a = ground (arith, keep r, keep s)

  All-map_rows :
      (g : Row A → Row A)
      → Keeps g
      → (r : Row A) (rs : List (Row A)) → All (Apart r) rs
      → All (Apart (g r)) (map g rs)
  All-map_rows g keep r [] h = tt
  All-map_rows g keep r (s ∷ rs) h = (Apart-Keeps g keep r s h.0, All-map_rows g keep r rs h.1)

  Ordered-map :
      (g : Row A → Row A)
      → Keeps g
      → (n : ℕ) (rs : List (Row A)) → Ordered n rs
      → Ordered n (map g rs)
  Ordered-map g keep n [] h = tt
  Ordered-map g keep n (r ∷ rs) h =
      (omega (arith, h.0, (keep r).0), All-map_rows g keep r rs h.1, Ordered-map g keep n rs h.2)

  Keeps-if : (p : Row A → Bool) (f : Row A → Row A) → Keeps f → Keeps (λ r. if p r then f r else r)
  Keeps-if p f keep r = ground (arith, keep r)

  pub Ordered-update_key :
      (k : Key) (f : Row A → Row A)
      → Keeps f
      → (n : ℕ) (rs : List (Row A)) → Ordered n rs
      → Ordered n (update_key k f rs)
  unfolding update_key
  Ordered-update_key k f keep = Ordered-map _ (Keeps-if (λ r. key_eq r.key k) f keep)

  pub Ordered-update_id :
      (i : ℕ) (f : Row A → Row A)
      → Keeps f
      → (n : ℕ) (rs : List (Row A)) → Ordered n rs
      → Ordered n (update_id i f rs)
  unfolding update_id
  Ordered-update_id i f keep = Ordered-map _ (Keeps-if (λ r. r.id == i) f keep)

  All-delete :
      (p : Row A → Bool) (r : Row A) (rs : List (Row A))
      → All (Apart r) rs
      → All (Apart r) (delete_where p rs)
  unfolding delete_where
  All-delete p r [] h = tt
  All-delete p r (s ∷ rs) h = ground (arith, All-delete p r rs h.1)

  pub Ordered-delete_where :
      (p : Row A → Bool) (n : ℕ) (rs : List (Row A)) → Ordered n rs → Ordered n (delete_where p rs)
  unfolding delete_where
  Ordered-delete_where p n [] h = tt
  Ordered-delete_where p n (r ∷ rs) h =
      ground (arith, All-delete p r rs h.1, Ordered-delete_where p n rs h.2)

  Ordered-suc : (n : ℕ) (rs : List (Row A)) → Ordered n rs → Ordered (n + 1) rs
  Ordered-suc n [] h = tt
  Ordered-suc n (r ∷ rs) h = (omega arith, h.1, Ordered-suc n rs h.2)

  All-append_row :
      (r s : Row A) (rs : List (Row A))
      → Apart r s
      → All (Apart r) rs
      → All (Apart r) (rs ++ s ∷ [])
  All-append_row r s [] a h = (a, tt)
  All-append_row r s (x ∷ rs) a h = (h.0, All-append_row r s rs a h.1)

  append-Ordered :
      (n : ℕ) (s : Row A) (rs : List (Row A))
      → s.id ≡ n
      → has_key s.key rs ≡ false
      → Ordered n rs
      → Ordered (n + 1) (rs ++ s ∷ [])
  append-Ordered n s [] e h o = (omega arith, tt, tt)
  append-Ordered n s (r ∷ rs) e h o = (
    omega (arith, o.0),
    All-append_row r s rs (omega (arith, o.0), key_eq-sym r.key s.key (ground arith)) o.1,
    append-Ordered n s rs e (ground arith) o.2,
  )

  pub append_row-IsTable :
      (k : Key) (now : ℤ) (cols : A) (t : Table A)
      → has_key k t.rows ≡ false
      → IsTable t
      → IsTable (append_row k now cols t)
  append_row-IsTable k now cols t h o = append-Ordered t.next_id _ t.rows refl h o

  pub upsert-IsTable :
      (k : Key) (now : ℤ) (cols : A) (f : Row A → Row A)
      → Keeps f
      → (t : Table A) → IsTable t
      → IsTable (upsert k now cols f t)
  unfolding upsert
  upsert-IsTable k now cols f keep t o = elim (Bool-cases (has_key k t.rows)) [
    | inl old ↦ rw old (Ordered-update_key k f keep t.next_id t.rows o)
    | inr new ↦ rw new (append_row-IsTable k now cols t new o)
  ]

  -- A row whose key is missed finds nothing.
  find_row-Apart : (r : Row A) (rs : List (Row A)) → All (Apart r) rs → find_row r.key rs ≡ none
  unfolding find_row
  find_row-Apart r [] h = refl
  find_row-Apart r (s ∷ rs) h = ground (arith, find_row-Apart r rs h.1)

  abbrev pub unless : (Row A → Bool) → Option (Row A) → Option (Row A)
  unless p none = none
  unless p (some r) = if p r then none else some r

  -- In a table, a deletion takes a key's row exactly when the row meets the condition.
  pub find_row-delete_where :
      (k : Key) (p : Row A → Bool) (n : ℕ) (rs : List (Row A))
      → Ordered n rs
      → find_row k (delete_where p rs) ≡ unless p (find_row k rs)
  unfolding find_row delete_where
  find_row-delete_where k p n [] o = refl
  find_row-delete_where k p n (r ∷ rs) o =
      ground
        (arith, key_eq_iff r.key k, find_row-Apart r rs o.1, find_row-delete_where k p n rs o.2)
