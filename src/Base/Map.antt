-- ===== src/Base/Map.antt =====
-- `HashMap<String, V>` as an association list with one entry for a key.
use mathlib.Core.Path.{◌≡◌, refl}
use mathlib.Core.Bool.{Bool, false}
use mathlib.Core.Option.{Option, none, some}
use mathlib.Core.List.{List, [], ◌∷◌, map}
use native.Mathlib.Omega.{arith}
use wqc_node.Base.Tests.{if◌then◌else◌}
use wqc_node.Base.Lists.{All}
use wqc_node.Base.Text.{Text, text_eq, text_eq_iff}

abbrev pub Map {ℓ} : Type ℓ → Type ℓ
Map V = List (Text × V)

module _ {ℓ} {V : Type ℓ} where
  unfoldable pub lookup : Text → Map V → Option V
  lookup k [] = none
  lookup k ((j, v) ∷ m) = if text_eq j k then some v else lookup k m

  -- `remove`
  unfoldable pub remove : Text → Map V → Map V
  remove k [] = []
  remove k ((j, v) ∷ m) = let rest = remove k m in if text_eq j k then rest else (j, v) ∷ rest

  -- `insert`: an entry that was there is replaced.
  unfoldable pub insert : Text → V → Map V → Map V
  unfolding remove
  insert k v m = (k, v) ∷ remove k m

  -- `get_mut` and a write.
  unfoldable pub update : Text → (V → V) → Map V → Map V
  update k f m = map (λ (j, v). if text_eq j k then (j, f v) else (j, v)) m

  -- `retain(|_, v| test)`
  unfoldable pub retain : (V → Bool) → Map V → Map V
  retain p [] = []
  retain p ((j, v) ∷ m) = let rest = retain p m in if p v then (j, v) ∷ rest else rest

  abbrev pub values : Map V → List V
  values m = map (λ (j, v). v) m

  pub lookup-remove :
      (j k : Text) (m : Map V) → lookup j (remove k m) ≡ (if text_eq k j then none else lookup j m)
  unfolding lookup remove
  lookup-remove j k [] = ground arith
  lookup-remove j k ((i, v) ∷ m) =
      ground (arith, text_eq_iff i k, text_eq_iff i j, text_eq_iff k j, lookup-remove j k m)

  pub lookup-insert :
      (j k : Text) (v : V) (m : Map V)
      → lookup j (insert k v m) ≡ (if text_eq k j then some v else lookup j m)
  unfolding lookup insert
  lookup-insert j k v m = ground (arith, lookup-remove j k m)

  pub lookup-update :
      (j k : Text) (f : V → V) (m : Map V)
      → lookup j (update k f m) ≡ (
          if text_eq k j
          then elim (lookup j m) [ none ↦ none | some v ↦ some (f v) ]
          else lookup j m)
  unfolding lookup update
  lookup-update j k f [] = ground arith
  lookup-update j k f ((i, v) ∷ m) =
      ground (arith, text_eq_iff i k, text_eq_iff i j, text_eq_iff k j, lookup-update j k f m)

  -- One entry for a key.
  abbrev pub Differs : Text → Text × V → Type 0
  Differs k e = text_eq e.0 k ≡ false

  abbrev pub IsMap : Map V → Type 0
  IsMap [] = Unit {0}
  IsMap (e ∷ m) = All (Differs e.0) m × IsMap m

  lookup-Differs : (k : Text) (m : Map V) → All (Differs k) m → lookup k m ≡ none
  unfolding lookup
  lookup-Differs k [] h = refl
  lookup-Differs k ((j, v) ∷ m) h = ground (arith, lookup-Differs k m h.1)

  abbrev pub keep_if : (V → Bool) → Option V → Option V
  keep_if p none = none
  keep_if p (some v) = if p v then some v else none

  -- With one entry for a key, what is retained under it is its value if that passes the test.
  pub lookup-retain :
      (p : V → Bool) (k : Text) (m : Map V)
      → IsMap m
      → lookup k (retain p m) ≡ keep_if p (lookup k m)
  unfolding lookup retain
  lookup-retain p k [] u = refl
  lookup-retain p k ((j, v) ∷ m) u =
      ground (arith, text_eq_iff j k, lookup-Differs j m u.0, lookup-retain p k m u.1)

  Differs-remove : (i k : Text) (m : Map V) → All (Differs i) m → All (Differs i) (remove k m)
  unfolding remove
  Differs-remove i k [] h = tt
  Differs-remove i k ((j, v) ∷ m) h = ground (arith, Differs-remove i k m h.1)

  pub remove-IsMap : (k : Text) (m : Map V) → IsMap m → IsMap (remove k m)
  unfolding remove
  remove-IsMap k [] h = tt
  remove-IsMap k ((j, v) ∷ m) h = ground (arith, remove-IsMap k m h.1, Differs-remove j k m h.0)

  remove-Differs : (k : Text) (m : Map V) → All (Differs k) (remove k m)
  unfolding remove
  remove-Differs k [] = tt
  remove-Differs k ((j, v) ∷ m) = ground (arith, remove-Differs k m)

  pub insert-IsMap : (k : Text) (v : V) (m : Map V) → IsMap m → IsMap (insert k v m)
  unfolding insert
  insert-IsMap k v m h = (remove-Differs k m, remove-IsMap k m h)

  Differs-retain :
      (i : Text) (p : V → Bool) (m : Map V) → All (Differs i) m → All (Differs i) (retain p m)
  unfolding retain
  Differs-retain i p [] h = tt
  Differs-retain i p ((j, v) ∷ m) h = ground (arith, Differs-retain i p m h.1)

  pub retain-IsMap : (p : V → Bool) (m : Map V) → IsMap m → IsMap (retain p m)
  unfolding retain
  retain-IsMap p [] h = tt
  retain-IsMap p ((j, v) ∷ m) h = ground (arith, retain-IsMap p m h.1, Differs-retain j p m h.0)

  -- Removing a key that is not there changes nothing.
  pub remove-none : (k : Text) (m : Map V) → lookup k m ≡ none → remove k m ≡ m
  unfolding lookup remove
  remove-none k [] e = refl
  remove-none k ((j, v) ∷ m) e = ground (arith, remove-none k m)
