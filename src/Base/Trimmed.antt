-- ===== src/Base/Trimmed.antt =====
-- `str::trim` leaves nothing more to trim.
use mathlib.Core.List.{reverse, reverse-append, reverse-reverse}
use wqc_node.Base.{◌≡◌, refl, ap, sym, subst, ◌∙◌, false, [], ◌∷◌, ◌++◌, Bool-cases, inl, inr}
use wqc_node.Base.Text.{Text, is_whitespace, trim_start, trim}

-- No blank stands first.
abbrev Starts : Text → Type 0
Starts [] = Unit {0}
Starts (c ∷ s) = is_whitespace c ≡ false

trim_start-Starts : (s : Text) → Starts (trim_start s)
trim_start-Starts [] = tt
trim_start-Starts (c ∷ s) = elim (Bool-cases (is_whitespace c)) [
  | inl blank ↦ rw blank (trim_start-Starts s)
  | inr b ↦ rw b b
]

Starts-trim_start : (s : Text) → Starts s → trim_start s ≡ s
Starts-trim_start [] h = refl
Starts-trim_start (c ∷ s) h = rw h

suffix : (s : Text) → (blanks : Text) × (blanks ++ trim_start s ≡ s)
suffix [] = ([], refl)
suffix (c ∷ s) = elim (Bool-cases (is_whitespace c)) [
  | inl blank ↦ let (b, e) = suffix s in (c ∷ b, rw blank (ap (λ t. c ∷ t) e))
  | inr b ↦ ([], rw b)
]

Starts-prefix : (s t : Text) → Starts (s ++ t) → Starts s
Starts-prefix [] t h = tt
Starts-prefix (c ∷ s) t h = h

pub trim-trim : (s : Text) → trim (trim s) ≡ trim s
unfolding trim
trim-trim s =
    let a = trim_start s in
    let b = trim_start (reverse a) in
    let (blanks, e) = suffix (reverse a) in
    let whole : a ≡ reverse b ++ reverse blanks =
      sym (reverse-reverse a) ∙ ap reverse (sym e) ∙ reverse-append blanks b in
    let first : Starts (reverse b) =
      Starts-prefix (reverse b) (reverse blanks) (subst Starts whole (trim_start-Starts s)) in
    let last : trim_start b ≡ b = Starts-trim_start b (trim_start-Starts (reverse a)) in
    ap (λ t. reverse (trim_start (reverse t))) (Starts-trim_start (reverse b) first)
    ∙ ap (λ t. reverse (trim_start t)) (reverse-reverse b)
    ∙ ap reverse last
