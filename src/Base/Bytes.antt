-- ===== src/Base/Bytes.antt =====
-- Bytes as numbers below 256: big-endian words and UTF-8, as `to_be_bytes` and `as_bytes` give them.
use Prim.Native.Nat.{ℕ, zero, suc, ◌+◌, ◌*◌, ◌/◌, ◌%◌, ◌^◌, ◌<◌}
use mathlib.Core.Path.{◌≡◌, refl, sym, ap, ◌∙◌}
use mathlib.Core.List.{List, [], ◌∷◌, ◌++◌}
use native.Mathlib.Omega.{arith}
use native.Mathlib.Nat.{pow-suc}
use wqc_node.Base.Tests.{ltb, if◌then◌else◌}
use wqc_node.Base.Lists.{length, length-append, append-injective}
use wqc_node.Base.Text.{Text}

abbrev pub Bytes : Type 0
Bytes = List ℕ

-- The `w` low bytes of `n`, the most significant first: `to_be_bytes` of a word of `w` bytes.
unfoldable pub to_be_bytes : ℕ → ℕ → Bytes
to_be_bytes zero n = []
to_be_bytes (suc w) n = to_be_bytes w (n / 256) ++ n % 256 ∷ []

pub length-to_be_bytes : (w n : ℕ) → length (to_be_bytes w n) ≡ w
unfolding to_be_bytes
length-to_be_bytes zero n = refl
length-to_be_bytes (suc w) n =
    omega (
      arith,
      length-append (to_be_bytes w (n / 256)) (n % 256 ∷ []),
      length-to_be_bytes w (n / 256),
    )

-- The number that big-endian bytes stand for.
pub of_be_bytes : ℕ → Bytes → ℕ
of_be_bytes acc [] = acc
of_be_bytes acc (b ∷ bs) = of_be_bytes (acc * 256 + b) bs

of_be_bytes-append :
    (acc : ℕ) (xs ys : Bytes) → of_be_bytes acc (xs ++ ys) ≡ of_be_bytes (of_be_bytes acc xs) ys
unfolding of_be_bytes
of_be_bytes-append acc [] ys = refl
of_be_bytes-append acc (x ∷ xs) ys = of_be_bytes-append (acc * 256 + x) xs ys

div_below : (w n : ℕ) → n < 256 ^ suc w → n / 256 < 256 ^ w
div_below w n h = let e : 256 ^ suc w ≡ 256 ^ w * 256 = pow-suc 256 w in omega (arith, e)

-- Decoding undoes encoding, for a word that fits.
pub of_be_bytes-to_be_bytes : (w n : ℕ) → n < 256 ^ w → of_be_bytes 0 (to_be_bytes w n) ≡ n
unfolding to_be_bytes of_be_bytes
of_be_bytes-to_be_bytes zero n h = omega arith
of_be_bytes-to_be_bytes (suc w) n h =
    rw (of_be_bytes-append 0 (to_be_bytes w (n / 256)) (n % 256 ∷ []))
      (omega (arith, of_be_bytes-to_be_bytes w (n / 256) (div_below w n h)))

pub to_be_bytes-injective :
    (w m n : ℕ) → m < 256 ^ w → n < 256 ^ w → to_be_bytes w m ≡ to_be_bytes w n → m ≡ n
to_be_bytes-injective w m n h k e =
    sym (of_be_bytes-to_be_bytes w m h) ∙ ap (of_be_bytes 0) e ∙ of_be_bytes-to_be_bytes w n k

-- A word followed by a rest.
pub word-injective :
    (w m n : ℕ) (xs ys : Bytes)
    → m < 256 ^ w
    → n < 256 ^ w
    → to_be_bytes w m ++ xs ≡ to_be_bytes w n ++ ys
    → (m ≡ n) × (xs ≡ ys)
word-injective w m n xs ys h k e = (to_be_bytes-injective w m n h k parts.0, parts.1)
  where
    parts : (to_be_bytes w m ≡ to_be_bytes w n) × (xs ≡ ys)
    parts =
        append-injective (to_be_bytes w m) (to_be_bytes w n) xs ys
          (length-to_be_bytes w m ∙ sym (length-to_be_bytes w n)) e

-- UTF-8.
abbrev pub utf8 : ℕ → Bytes
utf8 c =
    if ltb c 0x80
    then c ∷ []
    else if ltb c 0x800
    then (0xc0 + c / 64) ∷ (0x80 + c % 64) ∷ []
    else if ltb c 0x10000
    then (0xe0 + c / 4096) ∷ (0x80 + c / 64 % 64) ∷ (0x80 + c % 64) ∷ []
    else (0xf0 + c / 262144) ∷ (0x80 + c / 4096 % 64) ∷ (0x80 + c / 64 % 64) ∷ (0x80 + c % 64) ∷ []

-- `str::as_bytes`.
unfoldable pub as_bytes : Text → Bytes
as_bytes [] = []
as_bytes (c ∷ s) = utf8 c ++ as_bytes s
