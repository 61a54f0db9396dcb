-- ===== src/Memory/Width.antt =====
-- The widths of src/memory_budget.rs are the largest that fit.
use native.Mathlib.Nat.{pow-suc}
use native.Mathlib.Numerals.{add-one}
use wqc_node.Base.{
  ℕ, zero, suc, ◌+◌, ◌-◌, ◌*◌, ◌^◌, ◌≤◌, ◌<◌, ◌≡◌, ap, ◌⊎◌, inl, inr, false, Bool-cases, ltb, leb,
  leb→le, arith,
}
use wqc_node.Memory.{
  u64_max, dense_amplitude_bytes, dense_loop, max_qubits_from_dense_memory_budget,
  max_qubits_from_mps_memory_budget,
}

pow-add_one : (n : ℕ) → 2 ^ (n + 1) ≡ 2 ^ n * 2
pow-add_one n = rw add-one (pow-suc 2 n)

pub pow-ge : (k n : ℕ) → 2 ^ n ≤ 2 ^ (n + k)
pow-ge zero n = let e : n + 0 ≡ n = omega arith in rw e (omega arith)
pow-ge (suc k) n =
    let e : n + suc k ≡ n + k + 1 = omega arith in
    rw e (omega (arith, pow-ge k n, pow-add_one (n + k)))

-- A width that fits below the saturation point is below 60.
fits_small : (n b : ℕ) → 16 * 2 ^ n ≤ b → b < u64_max → n < 60
fits_small n b h k = elim (Bool-cases (ltb n 60)) [
  | inl small ↦ ground arith
  | inr large ↦
      let e : 60 + (n - 60) ≡ n = ground arith in
      absurd (omega (arith, ap (λ (m : ℕ). 2 ^ m) e, pow-ge (n - 60) 60))
]

le→not_ltb : (b a : ℕ) → a ≤ b → ltb b a ≡ false
le→not_ltb b a h = ground arith

abbrev Fits : ℕ → ℕ → Type 0
Fits n b = (16 * 2 ^ n ≤ b) × (b < 16 * 2 ^ (n + 1))

loop_goes_on :
    (fuel n b : ℕ)
    → b < u64_max
    → 16 * 2 ^ n ≤ b
    → dense_loop (suc fuel) n b ≡ dense_loop fuel (n + 1) b
unfolding dense_loop
loop_goes_on fuel n b k h = ground (arith, fits_small n b)

loop_stops : (fuel n b : ℕ) → b < u64_max → b < 16 * 2 ^ n → dense_loop (suc fuel) n b ≡ n
unfolding dense_loop
loop_stops fuel n b k h = ground arith

dense_loop-Fits :
    (fuel n b : ℕ)
    → b < u64_max
    → 16 * 2 ^ n ≤ b
    → 62 < fuel + n
    → Fits (dense_loop fuel (n + 1) b - 1) b
dense_loop-Fits zero n b k h f = absurd (omega (arith, fits_small n b h k))
dense_loop-Fits (suc fuel) n b k h f = elim (Bool-cases (leb (16 * 2 ^ (n + 1)) b)) [
  | inl more ↦
      rw (loop_goes_on fuel (n + 1) b k (leb→le _ _ more))
        (dense_loop-Fits fuel (n + 1) b k (leb→le _ _ more) (omega arith))
  | inr full ↦
      let e : n + 1 - 1 ≡ n = omega arith in
      rw (loop_stops fuel (n + 1) b k (ground arith), e) (h, ground arith)
]

-- For a budget of at least one amplitude and below the largest `u64`, the dense width n is the
-- largest that fits: 16 * 2^n bytes are within the budget and 16 * 2^(n + 1) are not.
pub dense_width_exact :
    (budget_bytes : ℕ)
    → dense_amplitude_bytes ≤ budget_bytes
    → budget_bytes < u64_max
    → let n = max_qubits_from_dense_memory_budget budget_bytes in
      (16 * 2 ^ n ≤ budget_bytes) × (budget_bytes < 16 * 2 ^ (n + 1))
unfolding max_qubits_from_dense_memory_budget
dense_width_exact b h k =
    rw (le→not_ltb b 16 h, loop_goes_on 63 0 b k h) (dense_loop-Fits 63 0 b k h (omega arith))

-- For every budget, the width n that MPS sites of 524288 bytes give fits in the budget, and n + 1
-- sites do not, unless n is the largest `u32`.
pub mps_width_exact :
    (budget_bytes : ℕ)
    → let n = max_qubits_from_mps_memory_budget budget_bytes in
      (n * 524288 ≤ budget_bytes) × ((budget_bytes < (n + 1) * 524288) ⊎ (n ≡ 2 ^ 32 - 1))
unfolding max_qubits_from_mps_memory_budget
mps_width_exact b = ground arith
