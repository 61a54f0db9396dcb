-- ===== src/Validation.antt =====
-- src/domain/validation.rs: the checks on a circuit before it is accepted, and the flattening of
-- one-element parameter lists. `serde_json::from_value` for a gate is a parameter.
pub mod Normalize
pub mod Operands
pub mod Circuit
use wqc_node.Base.{
  ℕ, zero, suc, ◌+◌, ◌^◌, Bool, true, false, not, ◌||◌, List, [], ◌∷◌, Option, none, some, Result,
  ok, err, ◌>>=◌, ◌>>◌, ltb, leb, if◌then◌else◌,
}
use wqc_node.Base.Int.{ℤ, pos, negsuc}
use wqc_node.Base.Text.{Text, text, text_eq, contains}
use wqc_node.Json.{
  Value, Number, Items, Fields, null, boolean, number, string, array, object, no_items, item,
  no_fields, field, pos_int, neg_int, float, as_i64, as_u64, as_object, get,
}

pub record Gate : Type 0 where
  pub kind : Text
  pub params : Value

-- The messages, with what they are built from.
pub data ValidationError : Type 0 where
  not_supported : Text → ℕ → ValidationError
  requires_object missing_nested invalid_nested missing_qubit non_integer : ℕ → ValidationError
  -- A number below zero, as n of -(n + 1), and the gate where the message names it.
  negative : ℕ → Option ℕ → ValidationError
  out_of_range : ℕ → ℕ → ValidationError
  -- The model's bound on nested IF gates was reached.
  out_of_fuel : ValidationError

abbrev pub Checked : Type 0
Checked = Result (Unit {0}) ValidationError

abbrev pub indexed : Option ℤ → Option ℕ → Result (Option ℕ) ValidationError
indexed (some (negsuc n)) u = err (negative n none)
indexed (some (pos q)) u = ok (some q)
indexed none (some q) = ok (some q)
indexed none none = ok none

unfoldable pub qubit_index : Value → Result (Option ℕ) ValidationError
unfolding as_i64 as_u64
qubit_index value = indexed (as_i64 value) (as_u64 value)

unfoldable pub ensure_in_range : ℕ → ℕ → ℕ → Checked
ensure_in_range q qubit_count idx = if leb qubit_count q then err (out_of_range q idx) else ok tt

-- `{msg} at gate {idx}`.
abbrev pub at_gate : ℕ → ValidationError → ValidationError
at_gate idx (negative n w) = negative n (some idx)
at_gate idx e = e

abbrev pub required : ℕ → ℕ → Result (Option ℕ) ValidationError → Checked
required n idx (ok (some q)) = ensure_in_range q n idx
required n idx (ok none) = err (non_integer idx)
required n idx (err e) = err (at_gate idx e)

unfoldable pub require_qubit : Value → ℕ → ℕ → Checked
unfolding qubit_index ensure_in_range
require_qubit value qubit_count idx = required qubit_count idx (qubit_index value)

abbrev pub first : Items → Option Value
first no_items = none
first (item x xs) = some x

-- The rotation's qubit: the first of an array, or the value itself.
abbrev pub rotation_qubit : Value → Option Value
rotation_qubit (array xs) = first xs
rotation_qubit v = some v

abbrev pub require_some : ℕ → ℕ → Option Value → Checked
require_some n idx none = err (missing_qubit idx)
require_some n idx (some v) = require_qubit v n idx

unfoldable pub validate_rotation_qubit : Gate → ℕ → ℕ → Checked
unfolding require_qubit
validate_rotation_qubit gate idx qubit_count =
    require_some qubit_count idx (rotation_qubit gate.params)

-- The number case of `check_qubit_values`: an error of `qubit_index` is passed on as it is.
abbrev pub checked : ℕ → ℕ → Result (Option ℕ) ValidationError → Checked
checked n idx (ok (some q)) = ensure_in_range q n idx
checked n idx (ok none) = err (non_integer idx)
checked n idx (err e) = err e

abbrev pub require_if_some : ℕ → ℕ → Option Value → Checked
require_if_some n idx none = ok tt
require_if_some n idx (some v) = require_qubit v n idx

unfoldable mutual
  unfolding require_qubit get

  pub check_qubit_values : Value → ℕ → ℕ → Checked
  check_qubit_values (array items) idx n = check_items items idx n
  check_qubit_values (number x) idx n = checked n idx (qubit_index (number x))
  check_qubit_values (object fs) idx n = require_if_some n idx (get (text "qubit") fs)
  check_qubit_values null idx n = ok tt
  check_qubit_values (boolean b) idx n = ok tt
  check_qubit_values (string s) idx n = ok tt

  pub check_items : Items → ℕ → ℕ → Checked
  check_items no_items idx n = ok tt
  check_items (item x xs) idx n = check_qubit_values x idx n >> check_items xs idx n

abbrev pub rotations : List Text
rotations = text "RX" ∷ text "RY" ∷ text "RZ" ∷ []

unfoldable pub validate_qubit_params : Gate → ℕ → ℕ → Checked
validate_qubit_params gate idx qubit_count =
    if contains rotations gate.kind
    then validate_rotation_qubit gate idx qubit_count
    else check_qubit_values gate.params idx qubit_count

abbrev pub ok_or_nested : ℕ → Option Value → Result Value ValidationError
ok_or_nested idx none = err (missing_nested idx)
ok_or_nested idx (some v) = ok v

-- `obj.get("gate")` after `as_object`.
abbrev pub nested_value : Gate → ℕ → Result Value ValidationError
nested_value gate idx = elim (as_object gate.params) [
  | none ↦ err (requires_object idx)
  | some fs ↦ ok_or_nested idx (get (text "gate") fs)
]

module _ (from_value : Value → Option Gate) where
  abbrev pub nested_gate : ℕ → Value → Result Gate ValidationError
  nested_gate idx v = elim (from_value v) [ none ↦ err (invalid_nested idx) | some g ↦ ok g ]

  -- Nested IF gates recur on fuel: a nested gate is a part of the parameters around it.
  unfoldable pub validate_gate : ℕ → Gate → ℕ → ℕ → List Text → Checked
  validate_gate zero gate idx qubit_count supported_gates = err out_of_fuel
  validate_gate (suc fuel) gate idx qubit_count supported_gates =
      elim (contains supported_gates gate.kind) [
        | false ↦ err (not_supported gate.kind idx)
        | true ↦ elim (text_eq gate.kind (text "IF")) [
          | true ↦ do
            v ← nested_value gate idx
            g ← nested_gate idx v
            validate_gate fuel g idx qubit_count supported_gates
          | false ↦ validate_qubit_params gate idx qubit_count
        ]
      ]

  -- The loop of `validate_circuit_logic`, from index `idx` on.
  unfoldable pub validate_from : ℕ → ℕ → List Gate → ℕ → List Text → Checked
  validate_from fuel idx [] qubit_count supported_gates = ok tt
  validate_from fuel idx (gate ∷ circuit) qubit_count supported_gates =
      validate_gate fuel gate idx qubit_count supported_gates
      >> validate_from fuel (idx + 1) circuit qubit_count supported_gates

  unfoldable pub validate_circuit_logic : ℕ → List Gate → ℕ → List Text → Checked
  validate_circuit_logic fuel circuit qubit_count supported_gates =
      validate_from fuel 0 circuit qubit_count supported_gates

-- `normalize_gate_value`: a list of one becomes its element; otherwise the parameters of a nested
-- gate are normalised in place.
unfoldable mutual
  pub normalize_gate_value : Value → Value
  normalize_gate_value (array (item x no_items)) = x
  normalize_gate_value (object fs) = object (normalize_gate_field fs)
  normalize_gate_value v = v

  -- `obj.get_mut("gate")`
  pub normalize_gate_field : Fields → Fields
  normalize_gate_field no_fields = no_fields
  normalize_gate_field (field k v fs) =
      if text_eq k (text "gate")
      then field k (normalize_nested v) fs
      else field k v (normalize_gate_field fs)

  -- `nested.as_object_mut()`
  pub normalize_nested : Value → Value
  normalize_nested (object fs) = object (normalize_params_field fs)
  normalize_nested v = v

  -- `nested_obj.get_mut("params")`
  pub normalize_params_field : Fields → Fields
  normalize_params_field no_fields = no_fields
  normalize_params_field (field k v fs) =
      if text_eq k (text "params")
      then field k (normalize_gate_value v) fs
      else field k v (normalize_params_field fs)

unfoldable pub normalize_gate_params : List Gate → List Gate
normalize_gate_params [] = []
normalize_gate_params (gate ∷ circuit) =
    record gate { params = normalize_gate_value gate.params } ∷ normalize_gate_params circuit
