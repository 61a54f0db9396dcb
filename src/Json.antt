-- ===== src/Json.antt =====
-- `serde_json::Value` as src/domain/validation.rs and src/domain/p2p.rs read it. An object is the
-- list of its fields, in the order of the map; a float is its 64 bits.
use wqc_node.Base.{
  ℕ, ◌+◌, ◌^◌, ◌≤◌, ◌≡◌, Bool, Option, none, some, arith, ltb, Bool-cases, inl, inr, if◌then◌else◌,
}
use wqc_node.Base.Text.{Text, text_eq}
use wqc_node.Base.Int.{ℤ, pos, negsuc}

-- `neg_int n` is -(n + 1).
pub data Number : Type 0 where
  pos_int neg_int float : ℕ → Number

mutual
  pub data Value : Type 0 where
    null : Value
    boolean : Bool → Value
    number : Number → Value
    string : Text → Value
    array : Items → Value
    object : Fields → Value

  pub data Items : Type 0 where
    no_items : Items
    item : Value → Items → Items

  pub data Fields : Type 0 where
    no_fields : Fields
    field : Text → Value → Fields → Fields

-- `Value::as_i64`: a positive integer only where it fits.
unfoldable pub as_i64 : Value → Option ℤ
as_i64 (number (pos_int n)) = if ltb n (2 ^ 63) then some (pos n) else none
as_i64 (number (neg_int n)) = some (negsuc n)
as_i64 (number (float bits)) = none
as_i64 null = none
as_i64 (boolean b) = none
as_i64 (string s) = none
as_i64 (array xs) = none
as_i64 (object fs) = none

-- `Value::as_u64`.
unfoldable pub as_u64 : Value → Option ℕ
as_u64 (number (pos_int n)) = some n
as_u64 (number (neg_int n)) = none
as_u64 (number (float bits)) = none
as_u64 null = none
as_u64 (boolean b) = none
as_u64 (string s) = none
as_u64 (array xs) = none
as_u64 (object fs) = none

-- `Value::as_object`, `Map::get`.
abbrev pub as_object : Value → Option Fields
as_object (object fs) = some fs
as_object _ = none

unfoldable pub get : Text → Fields → Option Value
get k no_fields = none
get k (field j v fs) = if text_eq j k then some v else get k fs

unfoldable mutual
  pub size : Value → ℕ
  size (object fs) = 1 + size_fields fs
  size (array xs) = 1 + size_items xs
  size (string _) = 1
  size (number _) = 1
  size (boolean _) = 1
  size null = 1

  pub size_fields : Fields → ℕ
  size_fields no_fields = 0
  size_fields (field k v fs) = size_fields fs + size v

  pub size_items : Items → ℕ
  size_items no_items = 0
  size_items (item x xs) = size_items xs + size x

pub size-get : (k : Text) (fs : Fields) (v : Value) → get k fs ≡ some v → size v ≤ size_fields fs
unfolding get size
size-get k no_fields v e = absurd (ground arith)
size-get k (field j w fs) v e = elim (Bool-cases (text_eq j k)) [
  | inl hit ↦ ground arith
  | inr miss ↦ ground (arith, size-get k fs v)
]
