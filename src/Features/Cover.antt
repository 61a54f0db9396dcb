-- ===== src/Features/Cover.antt =====
-- Which masks src/domain/features.rs computes and which requirements they meet.
use Prim.Native.Nat.{bit_or}
use wqc_node.Base.{
  ℕ, ◌+◌, ◌≤◌, ◌≡◌, refl, ap, subst, ◌↔◌, inl, inr, Bool, true, false, ◌||◌, List, [], ◌∷◌, arith,
  any, All, Bool-cases, ==_iff, if◌then◌else◌,
}
use wqc_node.Base.Text.{Text, contains, text_eq, text_eq_iff}
use wqc_node.Features.{
  standard_names, unitary_names, split_names, apply_gate_feature, apply_gates, features_from_gates,
  node_features, supports_required_features,
}
use wqc_node.Features.Bits.{bit, bit_and-eq_of_Covers, Covers-of_eq}

-- A node supports a requirement exactly when every bit of it is one of the node's.
pub supports_iff :
    (supported required : ℕ)
    → (supports_required_features supported required ≡ true)
      ↔ ((i : ℕ) → bit i required ≤ bit i supported)
unfolding supports_required_features
supports_iff s r =
    (λ e. Covers-of_eq s r ((==_iff _ _).0 e), λ c. (==_iff _ _).1 (bit_and-eq_of_Covers s r c))

-- The mask with a bit for each kind of gate, and one for judging work.
abbrev pub mask : Bool → Bool → Bool → Bool → ℕ
mask standard unitary split work =
    (if standard then 1 else 0)
    + (if unitary then 2 else 0)
    + (if split then 8 else 0)
    + (if work then 16 else 0)

abbrev has : List Text → List Text → Bool
has names gates = any (contains names) gates

-- What holds of every listed name holds of a name that `contains` finds.
contains_elim {ℓ} :
    (P : Text → Type ℓ) (names : List Text) (g : Text) → All P names → contains names g ≡ true → P g
unfolding contains
contains_elim P [] g h e = cc
contains_elim P (x ∷ xs) g h e = elim (Bool-cases (text_eq x g)) [
  | inl hit ↦ subst P ((text_eq_iff x g).0 hit) h.0
  | inr miss ↦ contains_elim P xs g h.1 (rw miss at e)
]

abbrev Only : Text → Type 0
Only g = (contains unitary_names g ≡ false) × (contains split_names g ≡ false)

standard-Only : (g : Text) → contains standard_names g ≡ true → Only g
standard-Only g = contains_elim Only standard_names g all_only
  where
    all_only : All Only standard_names
    all_only = unfold contains in ground arith

unitary_only : (g : Text) → contains unitary_names g ≡ true → contains split_names g ≡ false
unitary_only g = contains_elim (λ g. contains split_names g ≡ false) unitary_names g all_only
  where
    all_only : All (λ g. contains split_names g ≡ false) unitary_names
    all_only = unfold contains in ground arith

or_masks :
    (s u p : Bool)
    → (bit_or (mask s u p false) 1 ≡ mask true u p false)
      × (bit_or (mask s u p false) 2 ≡ mask s true p false)
      × (bit_or (mask s u p false) 8 ≡ mask s u true false)
      × (bit_or (mask s u p false) 16 ≡ mask s u p true)
or_masks true true true = (refl, refl, refl, refl)
or_masks true true false = (refl, refl, refl, refl)
or_masks true false true = (refl, refl, refl, refl)
or_masks true false false = (refl, refl, refl, refl)
or_masks false true true = (refl, refl, refl, refl)
or_masks false true false = (refl, refl, refl, refl)
or_masks false false true = (refl, refl, refl, refl)
or_masks false false false = (refl, refl, refl, refl)

apply_gate_feature-mask :
    (s u p : Bool) (g : Text)
    → apply_gate_feature (mask s u p false) g
      ≡ mask
          (s || contains standard_names g)
          (u || contains unitary_names g)
          (p || contains split_names g)
          false
unfolding apply_gate_feature
apply_gate_feature-mask s u p g = ground (arith, standard-Only g, unitary_only g, or_masks s u p)

or_assoc : (a b c : Bool) → ((a || b) || c) ≡ (a || (b || c))
or_assoc true b c = refl
or_assoc false b c = refl

apply_gates-mask :
    (s u p : Bool) (gates : List Text)
    → apply_gates (mask s u p false) gates
      ≡ mask
          (s || has standard_names gates)
          (u || has unitary_names gates)
          (p || has split_names gates)
          false
unfolding apply_gates
apply_gates-mask true true true [] = refl
apply_gates-mask s u p [] = ground arith
apply_gates-mask s u p (g ∷ gates) = rw (apply_gate_feature-mask s u p g) (
    rw (← or_assoc s _ _, ← or_assoc u _ _, ← or_assoc p _ _)
      (apply_gates-mask (s || contains standard_names g) (u || contains unitary_names g)
        (p || contains split_names g) gates))

-- The mask of a node: bit 0 exactly when one of the gates is a standard one, bit 1 exactly when one
-- is a rotation, bit 3 exactly when core lists the gate split, bit 4 exactly when the node judges
-- work, and no other bit.
pub node_features_lem :
    (gates : List Text) (judges_work : Bool)
    → node_features gates judges_work
      ≡ mask
          (any (contains standard_names) gates)
          (any (contains unitary_names) gates)
          (any (contains split_names) gates)
          judges_work
unfolding node_features features_from_gates
node_features_lem gates true = rw (apply_gates-mask false false false gates) (or_masks _ _ _).3
node_features_lem gates false = apply_gates-mask false false false gates

no_work_bit : (s u p : Bool) → bit 4 (mask s u p false) ≡ 0
unfolding bit
no_work_bit true true true = refl
no_work_bit true true false = refl
no_work_bit true false true = refl
no_work_bit true false false = refl
no_work_bit false true true = refl
no_work_bit false true false = refl
no_work_bit false false true = refl
no_work_bit false false false = refl

-- A node meets a requirement that has bit 4 only if it judges work.
pub work_bit_needs_rates :
    (gates : List Text) (judges_work : Bool) (required : ℕ)
    → supports_required_features (node_features gates judges_work) required ≡ true
    → bit 4 required ≡ 1
    → judges_work ≡ true
work_bit_needs_rates gates true required h b = refl
work_bit_needs_rates gates false required h b = absurd (
    omega (
      arith,
      b,
      (supports_iff (node_features gates false) required).0 h 4,
      ap (bit 4) (node_features_lem gates false),
      no_work_bit (any (contains standard_names) gates) (any (contains unitary_names) gates)
          (any (contains split_names) gates),
    ))
