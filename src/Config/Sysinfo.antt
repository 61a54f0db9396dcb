-- ===== src/Config/Sysinfo.antt =====
-- What core's report changes of a configuration (src/config.rs).
use wqc_node.Base.{
  ℕ, ◌+◌, ◌-◌, ◌^◌, ◌<◌, ◌≤◌, ◌≡◌, ap, Option, none, some, ok, ltb, leb, arith, Bool-cases, inl,
  inr,
}
use wqc_node.Base.Float.{F64, Float}
use wqc_node.Base.Text.{Text}
use wqc_node.Config.{NodeConfig}
use wqc_node.Config.Environment.{Readers, vram_of, from_env, apply_core_sysinfo}
use wqc_node.Memory.{
  max_qubits_from_dense_memory_budget, max_qubits_from_mps_memory_budget, effective_memory_bytes,
  intersect_budget, dense_amplitude_bytes, resolve_max_qubits_with_optional_vram, u64_max,
}
use wqc_node.Memory.Width.{dense_width_exact, pow-ge}
use wqc_node.Models.{CoreSystemInfo}
use wqc_node.Work.{RateBounds}
use wqc_node.Operator.{Primitives}
use wqc_node.Config.Usable.{from_env-IsUsable}

-- A smaller budget gives no larger widths.
mps_width-le :
    (a b : ℕ) → a ≤ b → max_qubits_from_mps_memory_budget a ≤ max_qubits_from_mps_memory_budget b
unfolding max_qubits_from_mps_memory_budget
mps_width-le a b h = ground (arith, h)

dense_width-le :
    (a b : ℕ)
    → a ≤ b
    → b < u64_max
    → max_qubits_from_dense_memory_budget a ≤ max_qubits_from_dense_memory_budget b
unfolding max_qubits_from_dense_memory_budget
dense_width-le a b h below_top = elim (Bool-cases (ltb a dense_amplitude_bytes)) [
  | inl small ↦ rw small (omega arith)
  | inr some_width ↦
      let low : dense_amplitude_bytes ≤ a = ground (arith, some_width) in
      let n = max_qubits_from_dense_memory_budget a in
      let m = max_qubits_from_dense_memory_budget b in
      let (fits, _) = dense_width_exact a low (omega (arith, h, below_top)) in
      let (_, over) = dense_width_exact b (omega (arith, low, h)) below_top in
      widths n m (omega (arith, fits, over, h))
]
  where
    widths : (n m : ℕ) → 2 ^ n < 2 ^ (m + 1) → n ≤ m
    widths n m lt = elim (Bool-cases (leb n m)) [
      | inl le ↦ ground (arith, le)
      | inr gt ↦
          let back : m + 1 + (n - (m + 1)) ≡ n = ground (arith, gt) in
          absurd (omega (arith, lt, pow-ge (n - (m + 1)) (m + 1), ap (λ k. 2 ^ k) back))
    ]

module _ (fl : Float) where
  effective_below :
      (requested : Option F64) (total : ℕ)
      → total < 2 ^ 64
      → effective_memory_bytes fl requested total < u64_max
  unfolding effective_memory_bytes
  effective_below none total h = ground (arith, h)
  effective_below (some g) total h = ground (arith, h)

  intersect_budget-le : (ram : ℕ) (vram : Option ℕ) → (intersect_budget ram vram).0 ≤ ram
  unfolding intersect_budget
  intersect_budget-le ram none = omega arith
  intersect_budget-le ram (some b) = ground arith

  -- What core reports never raises what the node may be asked for: the widths of a configuration
  -- that was read on a host of less than 2^64 bytes stay, or get smaller.
  pub apply_core_sysinfo-le :
      (rd : Readers) (p : Primitives) (total : ℕ) (env : Text → Option Text) (c : NodeConfig)
      (bounds : RateBounds) (info : CoreSystemInfo)
      → total < 2 ^ 64
      → from_env rd fl p total env ≡ ok c
      → let c' = apply_core_sysinfo fl bounds info c in
        (c'.max_qubits ≤ c.max_qubits) × (c'.max_mps_qubits ≤ c.max_mps_qubits)
  unfolding apply_core_sysinfo resolve_max_qubits_with_optional_vram
  apply_core_sysinfo-le rd p total env c bounds info host read =
      let (_, _, _, _, _, _, _, _, _, _, _, _, _, _, _, _, _, same, dense, mps) =
        from_env-IsUsable rd fl p total env c read in
      let bytes = effective_memory_bytes fl c.requested_memory_gib total in
      let below_top = effective_below c.requested_memory_gib total host in
      rw same (
        rw dense (
          rw mps (
            dense_width-le _ bytes (intersect_budget-le bytes (vram_of info)) below_top,
            mps_width-le _ bytes (intersect_budget-le bytes (vram_of info)),
          )))
