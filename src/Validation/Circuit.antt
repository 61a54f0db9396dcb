-- ===== src/Validation/Circuit.antt =====
-- What an accepted circuit is, independently of how it is checked.
use wqc_node.Base.{
  ℕ, zero, suc, ◌+◌, ◌<◌, ◌≡◌, refl, sym, ◌∙◌, ◌↔◌, inl, inr, true, false, List, [], ◌∷◌, Option,
  some, ok, arith, All, Bool-cases, Option-cases,
}
use wqc_node.Base.Text.{Text, text, text_eq, contains}
use wqc_node.Json.{Value, Fields, object, get, size, size_fields, size-get, as_object}
use wqc_node.Validation.{
  Gate, Checked, validate_gate, validate_from, validate_circuit_logic, validate_qubit_params,
}
use wqc_node.Validation.Operands.{IsOk, QubitsOk, validate_qubit_params_iff, >>-IsOk}

-- The parameters of an IF gate hold a nested gate under `gate`.
abbrev pub Nested : (Value → Option Gate) → Gate → Gate → Type 0
Nested from_value gate g =
    (fs : Fields) × (v : Value) × (as_object gate.params ≡ some fs)
    × (get (text "gate") fs ≡ some v)
    × (from_value v ≡ some g)

-- A gate that the node may run on `n` qubits: supported, and an IF around such a gate, or a gate
-- whose qubits are in range.
pub data IsValid (from_value : Value → Option Gate) (n : ℕ) (supported : List Text)
    : Gate → Type 0 where
  nested :
      {gate g : Gate}
      → contains supported gate.kind ≡ true
      → text_eq gate.kind (text "IF") ≡ true
      → Nested from_value gate g
      → IsValid from_value n supported g
      → IsValid from_value n supported gate
  plain :
      {gate : Gate}
      → contains supported gate.kind ≡ true
      → text_eq gate.kind (text "IF") ≡ false
      → QubitsOk n gate
      → IsValid from_value n supported gate

as_object-size : (v : Value) (fs : Fields) → as_object v ≡ some fs → size_fields fs < size v
unfolding size
as_object-size (object gs) fs e = ground arith
as_object-size _ fs e = cc

module _ (from_value : Value → Option Gate) (n : ℕ) (supported : List Text) where
  abbrev checks : ℕ → Gate → ℕ → Checked
  checks fuel gate idx = validate_gate from_value fuel gate idx n supported

  plain_step :
      (fuel : ℕ) (gate : Gate) (idx : ℕ)
      → contains supported gate.kind ≡ true
      → text_eq gate.kind (text "IF") ≡ false
      → checks (suc fuel) gate idx ≡ validate_qubit_params gate idx n
  unfolding validate_gate
  plain_step fuel gate idx c i = ground arith

  Nested-step :
      (fuel : ℕ) (gate g : Gate) (idx : ℕ)
      → contains supported gate.kind ≡ true
      → text_eq gate.kind (text "IF") ≡ true
      → Nested from_value gate g
      → checks (suc fuel) gate idx ≡ checks fuel g idx
  unfolding validate_gate
  Nested-step fuel gate g idx c i (fs, v, eo, eg, ef) = ground arith

  unsupported_step :
      (fuel : ℕ) (gate : Gate) (idx : ℕ)
      → contains supported gate.kind ≡ false
      → IsOk (checks (suc fuel) gate idx)
      → ⊥
  unfolding validate_gate
  unsupported_step fuel gate idx c h = ground arith

  find-Nested :
      (gate : Gate) (idx fuel : ℕ)
      → contains supported gate.kind ≡ true
      → text_eq gate.kind (text "IF") ≡ true
      → IsOk (checks (suc fuel) gate idx)
      → (g : Gate) × Nested from_value gate g
  unfolding validate_gate
  find-Nested gate idx fuel c i h = elim (Option-cases (as_object gate.params)) [
    | inl e ↦ absurd (ground arith)
    | inr (fs, eo) ↦ elim (Option-cases (get (text "gate") fs)) [
      | inl e ↦ absurd (ground arith)
      | inr (v, eg) ↦ elim (Option-cases (from_value v)) [
        | inl e ↦ absurd (ground arith)
        | inr (g, ef) ↦ (g, (fs, v, eo, eg, ef))
      ]
    ]
  ]

  sound :
      (fuel : ℕ) (gate : Gate) (idx : ℕ)
      → IsOk (checks fuel gate idx)
      → IsValid from_value n supported gate
  sound zero gate idx h = absurd (unfold validate_gate in cc h)
  sound (suc fuel) gate idx h = elim (Bool-cases (contains supported gate.kind)) [
    | inr c ↦ absurd (unsupported_step fuel gate idx c h)
    | inl c ↦ elim (Bool-cases (text_eq gate.kind (text "IF"))) [
      | inl i ↦
          let (g, found) = find-Nested gate idx fuel c i h in
          nested c i found (sound fuel g idx (sym (Nested-step fuel gate g idx c i found) ∙ h))
      | inr i ↦
          plain c i
            ((validate_qubit_params_iff gate idx n).0 (sym (plain_step fuel gate idx c i) ∙ h))
    ]
  ]

  complete :
      ((v : Value) (g : Gate) → from_value v ≡ some g → size g.params < size v)
      → (fuel : ℕ) (gate : Gate) (idx : ℕ) → size gate.params < fuel
      → IsValid from_value n supported gate
      → IsOk (checks fuel gate idx)
  complete smaller zero gate idx f v = elim f [ ]
  complete smaller (suc fuel) gate idx f (nested {g = g} c i found valid) =
      let (fs, v, eo, eg, ef) = found in
      Nested-step fuel gate g idx c i found
      ∙ complete smaller fuel g idx
          (omega (
            arith,
            f,
            smaller v g ef,
            size-get (text "gate") fs v eg,
            as_object-size gate.params fs eo,
          ))
          valid
  complete smaller (suc fuel) gate idx f (plain c i q) =
      plain_step fuel gate idx c i ∙ (validate_qubit_params_iff gate idx n).1 q

  sound_from :
      (fuel idx : ℕ) (circuit : List Gate)
      → IsOk (validate_from from_value fuel idx circuit n supported)
      → All (IsValid from_value n supported) circuit
  unfolding validate_from
  sound_from fuel idx [] h = tt
  sound_from fuel idx (g ∷ gs) h =
      let both = (>>-IsOk _ _).0 h in (sound fuel g idx both.0, sound_from fuel (idx + 1) gs both.1)

  complete_from :
      ((v : Value) (g : Gate) → from_value v ≡ some g → size g.params < size v)
      → (fuel idx : ℕ) (circuit : List Gate) → All (λ g. size g.params < fuel) circuit
      → All (IsValid from_value n supported) circuit
      → IsOk (validate_from from_value fuel idx circuit n supported)
  unfolding validate_from
  complete_from smaller fuel idx [] f v = refl
  complete_from smaller fuel idx (g ∷ gs) f v =
      (>>-IsOk _ _).1
        (complete smaller fuel g idx f.0 v.0, complete_from smaller fuel (idx + 1) gs f.1 v.1)

-- A circuit passes the check exactly when each of its gates is valid for the qubit count: supported,
-- with every qubit that it names a whole number below the count, and for an IF the same of the gate
-- inside. Decoding a gate gives parameters smaller than the value decoded, and the fuel is above the
-- size of each gate's parameters.
pub validate_circuit_iff :
    (from_value : Value → Option Gate) (fuel : ℕ) (circuit : List Gate) (n : ℕ)
    (supported : List Text)
    → ((v : Value) (g : Gate) → from_value v ≡ some g → size g.params < size v)
    → All (λ g. size g.params < fuel) circuit
    → (validate_circuit_logic from_value fuel circuit n supported ≡ ok tt)
      ↔ All (IsValid from_value n supported) circuit
unfolding validate_circuit_logic
validate_circuit_iff from_value fuel circuit n supported smaller enough = (
  sound_from from_value n supported fuel 0 circuit,
  complete_from from_value n supported smaller fuel 0 circuit enough,
)
