-- ===== src/Token/Amounts.antt =====
-- Which amounts src/domain/token.rs reads, and as what.
use native.Mathlib.Nat.{pow-suc}
use wqc_node.Base.{
  ℕ, zero, suc, ◌+◌, ◌*◌, ◌/◌, ◌%◌, ◌^◌, ◌<◌, ◌≡◌, ◌≢◌, refl, ap, ◌∙◌, true, false, List, [], ◌∷◌,
  ◌++◌, append-nil, Option, none, some, ok, arith, length, all, All, is_empty, length-append,
  All-append,
}
use wqc_node.Base.Bytes.{as_bytes}
use wqc_node.Base.Decimal.{
  to_decimal, read_digits, IsDigit, to_decimal-IsDigit, read_digits-to_decimal, read_digits-append,
  positive,
}
use wqc_node.Base.Int.{ℤ, pos}
use wqc_node.Base.Text.{Text, text, trim, is_ascii_digit}
use wqc_node.Token.{
  split, of_parts, with_whole, parse_fixed_point_wqc, parse_wqc_to_planck, planck_per_wqc,
  with_fraction,
}

-- The last `w` digits of `n`.
unfoldable pub fixed_digits : ℕ → ℕ → Text
fixed_digits zero n = []
fixed_digits (suc w) n = fixed_digits w (n / 10) ++ (48 + n % 10) ∷ []

fixed_digits-IsDigit : (w n : ℕ) → All IsDigit (fixed_digits w n)
unfolding fixed_digits
fixed_digits-IsDigit zero n = tt
fixed_digits-IsDigit (suc w) n =
    All-append IsDigit (fixed_digits w (n / 10)) _ (fixed_digits-IsDigit w (n / 10))
      (ground arith, tt)

length-fixed_digits : (w n : ℕ) → length (fixed_digits w n) ≡ w
unfolding fixed_digits
length-fixed_digits zero n = refl
length-fixed_digits (suc w) n = omega (
  arith,
  length-append (fixed_digits w (n / 10)) ((48 + n % 10) ∷ []),
  length-fixed_digits w (n / 10),
)

read_digits-fixed_digits : (w n : ℕ) → n < 10 ^ w → read_digits 0 (fixed_digits w n) ≡ some n
unfolding fixed_digits read_digits
read_digits-fixed_digits zero n h = ground (arith, h)
read_digits-fixed_digits (suc w) n h =
    let e : 10 ^ suc w ≡ 10 ^ w * 10 = pow-suc 10 w in
    read_digits-append 0 (fixed_digits w (n / 10)) (48 + n % 10) (ground arith) (n / 10)
      (read_digits-fixed_digits w (n / 10) (omega (arith, e)))
    ∙ ap some (omega arith)

split-digits : (s : Text) → All IsDigit s → split b'.' s ≡ s ∷ []
unfolding split
split-digits [] d = refl
split-digits (c ∷ s) d = ground (arith, split-digits s d.1)

split-point : (s t : Text) → All IsDigit s → split b'.' (s ++ b'.' ∷ t) ≡ s ∷ split b'.' t
unfolding split
split-point [] t d = refl
split-point (c ∷ s) t d = ground (arith, split-point s t d.1)

all-digits : (s : Text) → All IsDigit s → all is_ascii_digit s ≡ true
all-digits [] d = refl
all-digits (c ∷ s) d = ground (arith, all-digits s d.1)

-- A digit is one byte.
length-as_bytes : (s : Text) → All IsDigit s → length (as_bytes s) ≡ length s
unfolding as_bytes
length-as_bytes [] d = refl
length-as_bytes (c ∷ s) d = ground (arith, length-as_bytes s d.1)

-- An amount with all eighteen digits after the point.
abbrev pub planck_text : ℕ → Text
planck_text n = to_decimal (n / 10 ^ 18) ++ b'.' ∷ fixed_digits 18 (n % 10 ^ 18)

-- num-bigint reads digits as the number that they stand for.
abbrev pub ReadsDigits : (Text → Option ℤ) → Type 0
ReadsDigits big_int = (s : Text) → All IsDigit s → s ≢ [] → big_int s ≡ positive (read_digits 0 s)

is_empty-of_ne : (s : Text) → s ≢ [] → is_empty s ≡ false
is_empty-of_ne [] h = absurd (h refl)
is_empty-of_ne (c ∷ s) h = refl

append_first : (s : Text) → s ≢ [] → (t : Text) → is_empty (s ++ t) ≡ false
append_first [] h t = absurd (h refl)
append_first (c ∷ s) h t = refl

module _ (big_int : Text → Option ℤ) (reads : ReadsDigits big_int) where
  with_fraction-digits :
      (whole m : ℕ) (f : Text)
      → All IsDigit f
      → f ≢ []
      → length f ≡ 18
      → read_digits 0 f ≡ some m
      → with_fraction big_int whole 18 planck_per_wqc (some f)
        ≡ ok (pos (whole * planck_per_wqc + m))
  with_fraction-digits whole m f d ne l e =
      let bytes : length (as_bytes f) ≡ 18 = length-as_bytes f d ∙ l in
      let read : big_int f ≡ some (pos m) = reads f d ne ∙ ap positive e in
      rw (bytes, all-digits f d, append-nil, read) refl

  of_parts-digits :
      (w f : Text) (n m : ℕ)
      → All IsDigit w × (w ≢ [])
      → read_digits 0 w ≡ some n
      → All IsDigit f
      → f ≢ []
      → length f ≡ 18
      → read_digits 0 f ≡ some m
      → of_parts big_int 18 planck_per_wqc (w ∷ f ∷ []) ≡ ok (pos (n * planck_per_wqc + m))
  of_parts-digits w f n m (dw, new) ew df nef l ef =
      let whole : big_int w ≡ some (pos n) = reads w dw new ∙ ap positive ew in
      rw (is_empty-of_ne w new, whole) (with_fraction-digits n m f df nef l ef)

  planck_parts :
      (n : ℕ)
      → split b'.' (planck_text n) ≡ to_decimal (n / 10 ^ 18) ∷ fixed_digits 18 (n % 10 ^ 18) ∷ []
  planck_parts n =
      split-point (to_decimal (n / 10 ^ 18)) (fixed_digits 18 (n % 10 ^ 18))
        (to_decimal-IsDigit (n / 10 ^ 18)).0
      ∙ ap (λ parts. to_decimal (n / 10 ^ 18) ∷ parts)
          (split-digits (fixed_digits 18 (n % 10 ^ 18)) (fixed_digits-IsDigit 18 (n % 10 ^ 18)))

  -- Every number of Planck, written as a decimal number of WQC with eighteen digits after the
  -- point, is read as itself, with space around it or not.
  pub parse-planck_text :
      (n : ℕ) (raw : Text) → trim raw ≡ planck_text n → parse_wqc_to_planck big_int raw ≡ ok (pos n)
  unfolding parse_wqc_to_planck parse_fixed_point_wqc
  parse-planck_text n raw e =
      rw (e, append_first (to_decimal (n / 10 ^ 18)) (to_decimal-IsDigit (n / 10 ^ 18)).1 _)
        (rw (planck_parts n) (
          of_parts-digits (to_decimal (n / 10 ^ 18)) (fixed_digits 18 (n % 10 ^ 18)) (n / 10 ^ 18)
            (n % 10 ^ 18) (to_decimal-IsDigit (n / 10 ^ 18)) (read_digits-to_decimal (n / 10 ^ 18))
            (fixed_digits-IsDigit 18 (n % 10 ^ 18))
            (λ e. omega (arith, ap length e, length-fixed_digits 18 (n % 10 ^ 18)))
            (length-fixed_digits 18 (n % 10 ^ 18))
            (read_digits-fixed_digits 18 (n % 10 ^ 18) (omega arith))
          ∙ ap (λ k. ok (pos k)) (omega arith)))

-- The sign of an amount below one WQC is lost: where num-bigint reads `-0` as zero, `-0.` with any
-- fraction is read as `0.` with that fraction is, as an amount or as the same error.
pub negative_fraction :
    (big_int : Text → Option ℤ) (fraction raw raw' : Text)
    → big_int (text "-0") ≡ big_int (text "0")
    → trim raw ≡ text "-0." ++ fraction
    → trim raw' ≡ text "0." ++ fraction
    → parse_wqc_to_planck big_int raw ≡ parse_wqc_to_planck big_int raw'
unfolding parse_wqc_to_planck parse_fixed_point_wqc split
negative_fraction big_int fraction raw raw' z e e' = rw (e, e') (same (split b'.' fraction))
  where
    same :
        (parts : List Text)
        → of_parts big_int 18 planck_per_wqc (text "-0" ∷ parts)
          ≡ of_parts big_int 18 planck_per_wqc (text "0" ∷ parts)
    same [] = ap (with_whole big_int 18 planck_per_wqc none) z
    same (f ∷ []) = ap (with_whole big_int 18 planck_per_wqc (some f)) z
    same (f ∷ g ∷ parts) = refl
