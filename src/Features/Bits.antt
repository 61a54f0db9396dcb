-- ===== src/Features/Bits.antt =====
-- The bits of a mask: `&` takes the lesser bit at every place, and a number is known by its bits.
use Prim.Native.Nat.{min, bit_and, digits, bit_and-bitwise}
use wqc_node.Base.{ℕ, zero, suc, ◌+◌, ◌*◌, ◌/◌, ◌%◌, ◌≤◌, ◌<◌, ◌≡◌, refl, ap, arith}

-- Bit `i` of `n`.
unfoldable pub bit : ℕ → ℕ → ℕ
bit zero n = n % 2
bit (suc i) n = bit i (n / 2)

pub bit-below : (i n : ℕ) → bit i n < 2
unfolding bit
bit-below zero n = omega arith
bit-below (suc i) n = bit-below i (n / 2)

-- Every bit of `r` is one of `s`.
abbrev pub Covers : ℕ → ℕ → Type 0
Covers s r = (i : ℕ) → bit i r ≤ bit i s

bit_of_nothing : (i : ℕ) → bit i 0 ≡ 0
unfolding bit
bit_of_nothing zero = refl
bit_of_nothing (suc i) = bit_of_nothing i

-- The recursion that `bit_and` stands for, at any count of places that is enough for `a`.
bit-digits :
    (i places a b : ℕ)
    → a ≤ places
    → bit i (digits (λ y. zero) min places a b) ≡ min (bit i a) (bit i b)
unfolding bit
bit-digits i zero a b enough = let e : a ≡ 0 = omega arith in rw e (omega (arith, bit_of_nothing i))
bit-digits i (suc places) zero b enough = omega (arith, bit_of_nothing i)
bit-digits zero (suc places) (suc a) b enough = omega arith
bit-digits (suc i) (suc places) (suc a) b enough =
    let rest = digits (λ y. zero) min places (suc a / 2) (b / 2) in
    let half : (rest * 2 + min (suc a % 2) (b % 2)) / 2 ≡ rest = omega arith in
    rw half (bit-digits i places (suc a / 2) (b / 2) (omega arith))

pub bit-bit_and : (i a b : ℕ) → bit i (bit_and a b) ≡ min (bit i a) (bit i b)
bit-bit_and i a b = rw (bit_and-bitwise a b) (bit-digits i a a b (omega arith))

-- Two numbers below the same bound that agree in every bit are equal.
eq_of_bits : (bound a b : ℕ) → a ≤ bound → b ≤ bound → ((i : ℕ) → bit i a ≡ bit i b) → a ≡ b
unfolding bit
eq_of_bits zero a b p q same = omega arith
eq_of_bits (suc bound) a b p q same = omega (
  arith,
  same 0,
  eq_of_bits bound (a / 2) (b / 2) (omega arith) (omega arith) (λ i. same (suc i)),
)

pub bit_and-eq_of_Covers : (s r : ℕ) → Covers s r → bit_and s r ≡ r
bit_and-eq_of_Covers s r c =
    eq_of_bits (bit_and s r + r) (bit_and s r) r (omega arith) (omega arith)
      (λ i. omega (arith, bit-bit_and i s r, c i))

pub Covers-of_eq : (s r : ℕ) → bit_and s r ≡ r → Covers s r
Covers-of_eq s r e = λ i. omega (arith, bit-bit_and i s r, ap (bit i) e)

-- Of 16 only bit 4 is left.
bit-sixteen : (i r : ℕ) → min (bit i r) (bit i 16) ≡ bit i (bit 4 r * 16)
unfolding bit
bit-sixteen zero r = omega arith
bit-sixteen (suc zero) r = omega arith
bit-sixteen (suc (suc zero)) r = omega arith
bit-sixteen (suc (suc (suc zero))) r = omega arith
bit-sixteen (suc (suc (suc (suc zero)))) r = omega arith
bit-sixteen (suc (suc (suc (suc (suc i))))) r =
    let none_left : bit 4 r * 16 / 2 / 2 / 2 / 2 / 2 ≡ 0 = omega (arith, bit-below 4 r) in
    rw none_left (omega (arith, bit_of_nothing i))

-- The test of bit 4.
pub bit_and-16 : (r : ℕ) → bit_and r 16 ≡ bit 4 r * 16
bit_and-16 r =
    eq_of_bits (bit_and r 16 + bit 4 r * 16) (bit_and r 16) (bit 4 r * 16) (omega arith)
      (omega arith) (λ i. omega (arith, bit-bit_and i r 16, bit-sixteen i r))
