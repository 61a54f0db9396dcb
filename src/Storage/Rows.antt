-- ===== src/Storage/Rows.antt =====
-- A table with `id INTEGER PRIMARY KEY AUTOINCREMENT` and `UNIQUE(orchestrator_pubkey, id of the
-- sub-task)`, and the statements that src/infra/storage.rs runs on such a table.
pub mod Lookup
pub mod Order
use wqc_node.Base.{
  ℕ, zero, suc, ◌+◌, ◌<◌, ◌≡◌, ◌≢◌, refl, ◌↔◌, Bool, true, false, not, ◌&&◌, List, [], ◌∷◌, ◌++◌,
  map, Option, none, some, arith, leb, ◌==◌, if◌then◌else◌, any, filter, Bool-cases, inl, inr,
}
use wqc_node.Base.Int.{ℤ, leb_ℤ}
use wqc_node.Base.Text.{Text, text_eq, text_eq_iff}

-- The unique pair of columns.
pub record Key : Type 0 where
  pub orchestrator_pubkey : Text
  pub task_id : Text

unfoldable pub key_eq : Key → Key → Bool
key_eq a b = text_eq a.orchestrator_pubkey b.orchestrator_pubkey && text_eq a.task_id b.task_id

pub key_eq_iff : (a b : Key) → (key_eq a b ≡ true) ↔ (a ≡ b)
unfolding key_eq
key_eq_iff a b = ground (
  arith,
  text_eq_iff a.orchestrator_pubkey b.orchestrator_pubkey,
  text_eq_iff a.task_id b.task_id,
)

-- A row: its id, its key, `created_at`, and the other columns.
pub record Row {ℓ} (A : Type ℓ) : Type ℓ where
  pub id : ℕ
  pub key : Key
  pub created_at : ℤ
  pub cols : A

-- The rows by id, and the id that the next insertion gets.
pub record Table {ℓ} (A : Type ℓ) : Type ℓ where
  pub rows : List (Row A)
  pub next_id : ℕ

module _ {ℓ} {A : Type ℓ} where
  abbrev pub empty : Table A
  empty = record { rows = []; next_id = 1 }

  -- `SELECT … WHERE orchestrator_pubkey = ?1 AND task_id = ?2`, the first row.
  unfoldable pub find_row : Key → List (Row A) → Option (Row A)
  find_row k [] = none
  find_row k (r ∷ rs) = if key_eq r.key k then some r else find_row k rs

  -- `UPDATE … WHERE orchestrator_pubkey = ?1 AND task_id = ?2`
  unfoldable pub update_key : Key → (Row A → Row A) → List (Row A) → List (Row A)
  update_key k f rows = map (λ r. if key_eq r.key k then f r else r) rows

  -- `UPDATE … WHERE id = ?1`
  unfoldable pub update_id : ℕ → (Row A → Row A) → List (Row A) → List (Row A)
  update_id i f rows = map (λ r. if r.id == i then f r else r) rows

  -- `DELETE … WHERE test`
  unfoldable pub delete_where : (Row A → Bool) → List (Row A) → List (Row A)
  delete_where p [] = []
  delete_where p (r ∷ rs) = let rest = delete_where p rs in if p r then rest else r ∷ rest

  -- `INSERT`, without the check of the unique pair.
  abbrev pub append_row : Key → ℤ → A → Table A → Table A
  append_row k now cols t = record {
    rows = t.rows ++ record { id = t.next_id; key = k; created_at = now; cols = cols } ∷ [];
    next_id = t.next_id + 1;
  }

  abbrev pub has_key : Key → List (Row A) → Bool
  has_key k rows = any (λ r. key_eq r.key k) rows

  -- `INSERT … ON CONFLICT(orchestrator_pubkey, sub_task_id) DO UPDATE SET …`
  unfoldable pub upsert : Key → ℤ → A → (Row A → Row A) → Table A → Table A
  upsert k now cols on_conflict t =
      if has_key k t.rows
      then record t { rows = update_key k on_conflict t.rows }
      else append_row k now cols t

  -- `ORDER BY created_at ASC`: a stable insertion sort.
  abbrev pub insert_row : Row A → List (Row A) → List (Row A)
  insert_row r [] = r ∷ []
  insert_row r (s ∷ rs) =
      if leb_ℤ r.created_at s.created_at then r ∷ s ∷ rs else s ∷ insert_row r rs

  unfoldable pub order_by_created_at : List (Row A) → List (Row A)
  order_by_created_at [] = []
  order_by_created_at (r ∷ rs) = insert_row r (order_by_created_at rs)
