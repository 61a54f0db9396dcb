-- ===== src/Token.antt =====
-- src/domain/token.rs: an amount of WQC, as text, in Planck. How the crate num-bigint reads an
-- integer is a parameter.
pub mod Amounts
use wqc_node.Base.{
  ℕ, ◌+◌, ◌-◌, ◌*◌, ◌^◌, Bool, true, false, not, List, [], ◌∷◌, ◌++◌, Option, none, some, Result,
  ok, err, length, all, ltb, is_empty, replicate, if◌then◌else◌, ◌==◌,
}
use wqc_node.Base.Bytes.{as_bytes}
use wqc_node.Base.Int.{ℤ, pos, negsuc, sub_ℕ}
use wqc_node.Base.Text.{Text, text, trim, is_ascii_digit}

pub data TokenError : Type 0 where
  empty_amount two_points invalid_whole too_many_digits invalid_fraction : TokenError

abbrev pub planck_per_wqc : ℕ
planck_per_wqc = 10 ^ 18

abbrev pub prepend : ℕ → List Text → List Text
prepend c [] = (c ∷ []) ∷ []
prepend c (part ∷ parts) = (c ∷ part) ∷ parts

-- `str::split` at a character.
unfoldable pub split : ℕ → Text → List Text
split p [] = [] ∷ []
split p (c ∷ s) = let parts = split p s in if c == p then [] ∷ parts else prepend c parts

-- `whole * &scale + frac`, for a whole part that is not negative.
abbrev pub scaled : ℕ → ℕ → ℤ → ℤ
scaled whole scale (pos frac) = pos (whole * scale + frac)
scaled whole scale (negsuc n) = sub_ℕ (whole * scale) (n + 1)

module _ (big_int : Text → Option ℤ) where
  abbrev pub add_fraction : ℕ → ℕ → Option ℤ → Result ℤ TokenError
  add_fraction whole scale none = err invalid_fraction
  add_fraction whole scale (some frac) = ok (scaled whole scale frac)

  -- The fractional part, given as none where there is no point.
  abbrev pub with_fraction : ℕ → ℕ → ℕ → Option Text → Result ℤ TokenError
  with_fraction whole max_frac_digits scale none =
      add_fraction whole scale (big_int (replicate max_frac_digits b'0'))
  with_fraction whole max_frac_digits scale (some frac) =
      if ltb max_frac_digits (length (as_bytes frac))
      then err too_many_digits
      else if not (all is_ascii_digit frac)
      then err invalid_fraction
      else add_fraction whole scale
          (big_int (frac ++ replicate (max_frac_digits - length (as_bytes frac)) b'0'))

  abbrev pub with_whole : ℕ → ℕ → Option Text → Option ℤ → Result ℤ TokenError
  with_whole max_frac_digits scale frac none = err invalid_whole
  with_whole max_frac_digits scale frac (some (negsuc n)) = err invalid_whole
  with_whole max_frac_digits scale frac (some (pos whole)) =
      with_fraction whole max_frac_digits scale frac

  abbrev pub of_parts : ℕ → ℕ → List Text → Result ℤ TokenError
  of_parts max_frac_digits scale [] = err invalid_whole
  of_parts max_frac_digits scale (whole ∷ []) =
      with_whole max_frac_digits scale none (big_int (if is_empty whole then text "0" else whole))
  of_parts max_frac_digits scale (whole ∷ frac ∷ []) =
      with_whole max_frac_digits scale (some frac)
        (big_int (if is_empty whole then text "0" else whole))
  of_parts max_frac_digits scale (a ∷ b ∷ c ∷ parts) = err two_points

  unfoldable pub parse_fixed_point_wqc : Text → ℕ → ℕ → Result ℤ TokenError
  unfolding split as_bytes
  parse_fixed_point_wqc raw max_frac_digits scale =
      if is_empty raw then err empty_amount else of_parts max_frac_digits scale (split b'.' raw)

  unfoldable pub parse_wqc_to_planck : Text → Result ℤ TokenError
  unfolding trim parse_fixed_point_wqc
  parse_wqc_to_planck raw = parse_fixed_point_wqc (trim raw) 18 planck_per_wqc
