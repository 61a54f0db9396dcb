-- ===== src/Base/Decimal.antt =====
-- Decimal numbers as Rust writes them (`Display` of an integer) and reads them (`str::parse`).
use Prim.Native.Nat.{ℕ, zero, suc, ◌+◌, ◌-◌, ◌*◌, ◌/◌, ◌%◌, ◌<◌}
use mathlib.Core.Path.{◌≡◌, ap, ◌∙◌}
use mathlib.Core.Bool.{true}
use mathlib.Core.Logic.{◌≢◌, inl, inr}
use mathlib.Core.Option.{Option, none, some}
use mathlib.Core.List.{[], ◌∷◌, ◌++◌}
use native.Mathlib.Omega.{arith}
use wqc_node.Base.Tests.{ltb, leb, ◌==◌, if◌then◌else◌, Bool-cases, ltb→lt}
use wqc_node.Base.Lists.{All, All-append}
use wqc_node.Base.Text.{Text, is_ascii_digit}
use wqc_node.Base.Int.{ℤ, pos, negsuc}

-- One round for a digit; `n` rounds are more than `n` has digits.
digits : ℕ → ℕ → Text
digits zero n = []
digits (suc fuel) n =
    let more = digits fuel (n / 10) ++ (48 + n % 10) ∷ [] in
    if ltb n 10 then (48 + n) ∷ [] else more

unfoldable pub to_decimal : ℕ → Text
unfolding digits
to_decimal n = digits (suc n) n

-- The digits read after `n`, with no bound.
unfoldable pub read_digits : ℕ → Text → Option ℕ
read_digits n [] = some n
read_digits n (c ∷ s) =
    let rest = read_digits (n * 10 + (c - 48)) s in if is_ascii_digit c then rest else none

abbrev pub at_most : ℕ → Option ℕ → Option ℕ
at_most bound none = none
at_most bound (some n) = if leb n bound then some n else none

abbrev pub nonempty_digits : Text → Option ℕ
nonempty_digits [] = none
nonempty_digits (c ∷ s) = read_digits 0 (c ∷ s)

-- `parse::<uN>()` with the largest value: a `+` may stand before the digits.
unfoldable pub parse_unsigned : ℕ → Text → Option ℕ
unfolding read_digits
parse_unsigned bound [] = none
parse_unsigned bound (c ∷ s) =
    at_most bound (if c == b'+' then nonempty_digits s else read_digits 0 (c ∷ s))

abbrev pub negated : Option ℕ → Option ℤ
negated none = none
negated (some zero) = some (pos 0)
negated (some (suc n)) = some (negsuc n)

abbrev pub positive : Option ℕ → Option ℤ
positive none = none
positive (some n) = some (pos n)

-- `parse::<iN>()` with the largest value; the least is one further from zero.
unfoldable pub parse_signed : ℕ → Text → Option ℤ
unfolding parse_unsigned
parse_signed bound [] = none
parse_signed bound (c ∷ s) =
    if c == b'-'
    then negated (at_most (bound + 1) (nonempty_digits s))
    else positive (parse_unsigned bound (c ∷ s))

pub read_digits-append :
    (n : ℕ) (s : Text) (c : ℕ)
    → is_ascii_digit c ≡ true
    → (m : ℕ) → read_digits n s ≡ some m
    → read_digits n (s ++ c ∷ []) ≡ some (m * 10 + (c - 48))
unfolding read_digits
read_digits-append n [] c d m e = ground arith
read_digits-append n (x ∷ s) c d m e =
    ground (arith, read_digits-append (n * 10 + (x - 48)) s c d m)

read_digits-one : (n : ℕ) → n < 10 → read_digits 0 ((48 + n) ∷ []) ≡ some n
unfolding read_digits
read_digits-one n h = ground arith

read_digits-digits : (fuel n : ℕ) → n < fuel → read_digits 0 (digits fuel n) ≡ some n
unfolding digits
read_digits-digits zero n h = absurd (omega arith)
read_digits-digits (suc fuel) n h = elim (Bool-cases (ltb n 10)) [
  | inl small ↦ rw small (read_digits-one n (ltb→lt n 10 small))
  | inr big ↦ rw big (
      read_digits-append 0 (digits fuel (n / 10)) (48 + n % 10) (ground arith) (n / 10)
        (read_digits-digits fuel (n / 10) (ground arith))
      ∙ ap some (omega arith))
]

-- What is written is read back.
pub read_digits-to_decimal : (n : ℕ) → read_digits 0 (to_decimal n) ≡ some n
unfolding to_decimal
read_digits-to_decimal n = read_digits-digits (suc n) n (omega arith)

abbrev pub IsDigit : ℕ → Type 0
IsDigit c = is_ascii_digit c ≡ true

digits-IsDigit : (fuel n : ℕ) → n < fuel → All IsDigit (digits fuel n) × (digits fuel n ≢ [])
unfolding digits
digits-IsDigit zero n h = absurd (omega arith)
digits-IsDigit (suc fuel) n h = elim (Bool-cases (ltb n 10)) [
  | inl small ↦ rw small ((ground arith, tt), ground arith)
  | inr big ↦
      let (all, some_left) = digits-IsDigit fuel (n / 10) (ground arith) in
      rw big (All-append IsDigit (digits fuel (n / 10)) _ all (ground arith, tt), append_last _ _)
]
  where
    append_last : (s : Text) (c : ℕ) → s ++ c ∷ [] ≢ []
    append_last [] c = λ e. ground (arith, e)
    append_last (x ∷ s) c = λ e. ground (arith, e)

pub to_decimal-IsDigit : (n : ℕ) → All IsDigit (to_decimal n) × (to_decimal n ≢ [])
unfolding to_decimal
to_decimal-IsDigit n = digits-IsDigit (suc n) n (omega arith)
