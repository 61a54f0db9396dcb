-- ===== src/Base/Results.antt =====
-- `Result<T, E>` of Rust, with its `?` as a bind.
use mathlib.Core.Path.{◌≡◌, refl}
use mathlib.Core.Logic.{◌↔◌, ◌⊎◌, inl, inr}
use mathlib.Core.Bool.{Bool, true, false}
use mathlib.Core.Option.{Option, none, some}
use native.Mathlib.Omega.{arith}
use wqc_node.Base.Tests.{if◌then◌else◌}

pub data Result {ℓ κ} (A : Type ℓ) (E : Type κ) : Type (ℓ ⊔ κ) where
  ok : A → Result A E
  err : E → Result A E

infixl 5 ◌>>=◌ ◌>>◌
abbrev pub ◌>>=◌ {ℓ κ ι} :
    {A : Type ℓ} {B : Type κ} {E : Type ι} → Result A E → (A → Result B E) → Result B E
ok a >>= f = f a
err e >>= f = err e

abbrev pub ◌>>◌ {κ ι} : {B : Type κ} {E : Type ι} → Result (Unit {0}) E → Result B E → Result B E
m >> k = m >>= λ _. k

-- `if !test { return Err(e) }`
abbrev pub guard {ι} : {E : Type ι} → Bool → E → Result (Unit {0}) E
guard true e = ok tt
guard false e = err e

-- `ok_or`
abbrev pub ok_or {ℓ ι} : {A : Type ℓ} {E : Type ι} → Option A → E → Result A E
ok_or none e = err e
ok_or (some a) e = ok a

-- `.ok()`
abbrev pub to_option {ℓ ι} : {A : Type ℓ} {E : Type ι} → Result A E → Option A
to_option (ok a) = some a
to_option (err e) = none

pub Result-cases {ℓ κ} :
    {A : Type ℓ} {E : Type κ} (r : Result A E) → ((a : A) × (r ≡ ok a)) ⊎ ((e : E) × (r ≡ err e))
Result-cases (ok a) = inl (a, refl)
Result-cases (err e) = inr (e, refl)

module _ {ℓ κ ι} {A : Type ℓ} {B : Type κ} {E : Type ι} where
  -- A chain that ends well went well at each step.
  pub ok_or-ok :
      (o : Option A) (e : E) (f : A → Result B E) (b : B)
      → (ok_or o e >>= f) ≡ ok b
      → (a : A) × (o ≡ some a) × (f a ≡ ok b)
  ok_or-ok none e f b h = ground arith
  ok_or-ok (some a) e f b h = (a, refl, h)

module _ {κ ι} {B : Type κ} {E : Type ι} where
  pub guard-ok :
      (t : Bool) (e : E) (k : Result B E) (b : B)
      → (guard t e >> k) ≡ ok b
      → (t ≡ true) × (k ≡ ok b)
  guard-ok true e k b h = (refl, h)
  guard-ok false e k b h = ground arith

pub guard_last {ι} : {E : Type ι} (t : Bool) (e : E) (u : Unit {0}) → guard t e ≡ ok u → t ≡ true
guard_last true e u h = refl
guard_last false e u h = ground arith

pub >>=-ok {ℓ κ ι} :
    {A : Type ℓ} {B : Type κ} {E : Type ι} (m : Result A E) (f : A → Result B E) (b : B)
    → (m >>= f) ≡ ok b
    → (a : A) × (m ≡ ok a) × (f a ≡ ok b)
>>=-ok (ok a) f b h = (a, refl, h)
>>=-ok (err e) f b h = ground (arith, h)

pub ok-injective {ℓ κ} :
    {A : Type ℓ} {E : Type κ} (r : Result A E) (a b : A) → r ≡ ok a → r ≡ ok b → a ≡ b
ok-injective r a b h k = ground (arith, h, k)

-- `if test { bail!(…) }`
pub unless-ok {ℓ κ} :
    {A : Type ℓ} {E : Type κ} (t : Bool) (e : E) (r : Result A E) (a : A)
    → ((if t then err e else r) ≡ ok a) ↔ ((t ≡ false) × (r ≡ ok a))
unless-ok true e r a = (λ h. absurd (ground (arith, h)), λ h. absurd (ground (arith, h.0)))
unless-ok false e r a = (λ h. (refl, h), λ h. h.1)
