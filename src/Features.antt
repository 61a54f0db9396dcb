-- ===== src/Features.antt =====
-- src/domain/features.rs: the bit mask of features that a node advertises.
pub mod Bits
pub mod Cover
use Prim.Native.Nat.{bit_and, bit_or}
use wqc_node.Base.{ℕ, Bool, ◌||◌, List, [], ◌∷◌, ◌^◌, ◌==◌, if◌then◌else◌}
use wqc_node.Base.Text.{Text, text, text_eq, contains}

abbrev pub feature_standard_gates : ℕ
feature_standard_gates = 1

abbrev pub feature_custom_unitary : ℕ
feature_custom_unitary = 2

abbrev pub feature_network_gate_split : ℕ
feature_network_gate_split = 8

abbrev pub feature_work_budget : ℕ
feature_work_budget = 16

abbrev pub standard_names : List Text
standard_names =
    text "H"
    ∷ text "X"
    ∷ text "Y"
    ∷ text "Z"
    ∷ text "S"
    ∷ text "T"
    ∷ text "CNOT"
    ∷ text "CZ"
    ∷ text "CCNOT"
    ∷ []

abbrev pub unitary_names : List Text
unitary_names = text "RX" ∷ text "RY" ∷ text "RZ" ∷ []

abbrev pub split_names : List Text
split_names = text "NETWORK_GATE_SPLIT" ∷ []

unfoldable pub apply_gate_feature : ℕ → Text → ℕ
apply_gate_feature features gate =
    if contains standard_names gate
    then bit_or features feature_standard_gates
    else if contains unitary_names gate
    then bit_or features feature_custom_unitary
    else if contains split_names gate
    then bit_or features feature_network_gate_split
    else features

-- The loop of `features_from_gates`, from the features found so far.
unfoldable pub apply_gates : ℕ → List Text → ℕ
apply_gates features [] = features
apply_gates features (gate ∷ gates) = apply_gates (apply_gate_feature features gate) gates

unfoldable pub features_from_gates : List Text → ℕ
features_from_gates gates = apply_gates 0 gates

unfoldable pub node_features : List Text → Bool → ℕ
node_features gates judges_work =
    if judges_work
    then bit_or (features_from_gates gates) feature_work_budget
    else features_from_gates gates

unfoldable pub supports_required_features : ℕ → ℕ → Bool
supports_required_features supported required = bit_and supported required == required
