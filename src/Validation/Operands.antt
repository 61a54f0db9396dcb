-- ===== src/Validation/Operands.antt =====
-- Which values of a gate's parameters are qubits, and that the checks of src/domain/validation.rs
-- pass exactly when each of them is a whole number below the qubit count.
use wqc_node.Base.{
  ℕ, ◌<◌, ◌≡◌, refl, ◌↔◌, inl, inr, List, [], ◌∷◌, ◌++◌, Option, none, some, ok, err, arith, All,
  All-append, if◌then◌else◌, Bool-cases, ◌>>◌,
}
use wqc_node.Base.Text.{text, contains}
use wqc_node.Json.{
  Value, Number, Items, null, boolean, number, string, array, object, no_items, item, pos_int,
  neg_int, float, get,
}
use wqc_node.Validation.{
  Gate, Checked, qubit_index, ensure_in_range, require_qubit, validate_rotation_qubit,
  check_qubit_values, check_items, validate_qubit_params, rotation_qubit, rotations,
  require_if_some, require_some, checked,
}

-- A qubit index: a whole number below the count.
abbrev pub IsQubit : ℕ → Value → Type 0
IsQubit n (number (pos_int q)) = q < n
IsQubit n _ = ⊥

abbrev pub optional : Option Value → List Value
optional none = []
optional (some v) = v ∷ []

-- The values that are read as qubits: the numbers of an array at any depth, and the field `qubit`
-- of an object.
unfoldable mutual
  pub operands : Value → List Value
  operands (number x) = number x ∷ []
  operands (array xs) = operands_of_items xs
  operands (object fs) = optional (get (text "qubit") fs)
  operands null = []
  operands (boolean b) = []
  operands (string s) = []

  pub operands_of_items : Items → List Value
  operands_of_items no_items = []
  operands_of_items (item x xs) = operands x ++ operands_of_items xs

abbrev pub IsOk : Checked → Type 0
IsOk r = r ≡ ok tt

require_qubit_iff : (v : Value) (n idx : ℕ) → IsOk (require_qubit v n idx) ↔ IsQubit n v
unfolding require_qubit
require_qubit_iff (number (pos_int q)) n idx = ground arith
require_qubit_iff (number (neg_int q)) n idx = ground arith
require_qubit_iff (number (float q)) n idx = ground arith
require_qubit_iff null n idx = ground arith
require_qubit_iff (boolean b) n idx = ground arith
require_qubit_iff (string s) n idx = ground arith
require_qubit_iff (array xs) n idx = ground arith
require_qubit_iff (object fs) n idx = ground arith

checked_iff :
    (x : Number) (n idx : ℕ) → IsOk (checked n idx (qubit_index (number x))) ↔ IsQubit n (number x)
unfolding qubit_index ensure_in_range
checked_iff (pos_int q) n idx = ground arith
checked_iff (neg_int q) n idx = ground arith
checked_iff (float q) n idx = ground arith

require_if_some_iff :
    (o : Option Value) (n idx : ℕ) → IsOk (require_if_some n idx o) ↔ All (IsQubit n) (optional o)
require_if_some_iff none n idx = (λ _. tt, λ _. refl)
require_if_some_iff (some v) n idx =
    let e = require_qubit_iff v n idx in (λ h. (e.0 h, tt), λ h. e.1 h.0)

All-append_parts :
    (n : ℕ) (xs ys : List Value)
    → All (IsQubit n) (xs ++ ys)
    → All (IsQubit n) xs × All (IsQubit n) ys
All-append_parts n [] ys h = (tt, h)
All-append_parts n (x ∷ xs) ys h =
    let rest = All-append_parts n xs ys h.1 in ((h.0, rest.0), rest.1)

pub >>-IsOk : (a b : Checked) → IsOk (a >> b) ↔ (IsOk a × IsOk b)
>>-IsOk (ok u) b = (λ h. (refl, h), λ h. h.1)
>>-IsOk (err e) b = (λ h. cc, λ h. cc)

mutual
  unfolding check_qubit_values operands

  check_values_iff :
      (v : Value) (idx n : ℕ) → IsOk (check_qubit_values v idx n) ↔ All (IsQubit n) (operands v)
  check_values_iff (number x) idx n =
      let e = checked_iff x n idx in (λ h. (e.0 h, tt), λ h. e.1 h.0)
  check_values_iff (array xs) idx n = check_items_iff xs idx n
  check_values_iff (object fs) idx n = require_if_some_iff (get (text "qubit") fs) n idx
  check_values_iff null idx n = (λ _. tt, λ _. refl)
  check_values_iff (boolean b) idx n = (λ _. tt, λ _. refl)
  check_values_iff (string s) idx n = (λ _. tt, λ _. refl)

  check_items_iff :
      (xs : Items) (idx n : ℕ)
      → IsOk (check_items xs idx n) ↔ All (IsQubit n) (operands_of_items xs)
  check_items_iff no_items idx n = (λ _. tt, λ _. refl)
  check_items_iff (item x xs) idx n =
      let both = >>-IsOk (check_qubit_values x idx n) (check_items xs idx n) in
      let here = check_values_iff x idx n in
      let rest = check_items_iff xs idx n in
      (
        λ h.
            All-append (IsQubit n) (operands x) (operands_of_items xs) (here.0 (both.0 h).0)
              (rest.0 (both.0 h).1),
        λ h.
            let parts = All-append_parts n (operands x) (operands_of_items xs) h in
            both.1 (here.1 parts.0, rest.1 parts.1),
      )

abbrev pub IsSomeQubit : ℕ → Option Value → Type 0
IsSomeQubit n none = ⊥
IsSomeQubit n (some v) = IsQubit n v

require_some_iff : (o : Option Value) (n idx : ℕ) → IsOk (require_some n idx o) ↔ IsSomeQubit n o
require_some_iff none n idx = (λ h. cc, λ h. absurd h)
require_some_iff (some v) n idx = require_qubit_iff v n idx

-- The operands of a gate: of a rotation the first parameter alone, which has to be there.
abbrev pub QubitsOk : ℕ → Gate → Type 0
QubitsOk n gate =
    if contains rotations gate.kind
    then IsSomeQubit n (rotation_qubit gate.params)
    else All (IsQubit n) (operands gate.params)

pub validate_qubit_params_iff :
    (gate : Gate) (idx n : ℕ) → IsOk (validate_qubit_params gate idx n) ↔ QubitsOk n gate
unfolding validate_qubit_params validate_rotation_qubit
validate_qubit_params_iff gate idx n = elim (Bool-cases (contains rotations gate.kind)) [
  | inl rotation ↦ rw rotation (require_some_iff (rotation_qubit gate.params) n idx)
  | inr plain ↦ rw plain (check_values_iff gate.params idx n)
]
