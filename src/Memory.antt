-- ===== src/Memory.antt =====
-- src/memory_budget.rs: the memory that the node may use, and the qubit widths that fit in it.
-- The parameter is `f64`, for the operator's request in GiB.
pub mod Width
pub mod Budget
use wqc_node.Base.{
  ℕ, zero, suc, ◌+◌, ◌-◌, ◌*◌, ◌/◌, ◌^◌, min, max, Bool, ◌&&◌, Option, none, some, ltb, leb, ◌==◌,
  if◌then◌else◌,
}
use wqc_node.Base.Float.{F64, Float}
use wqc_node.Base.Text.{Text, text}

abbrev pub u64_max : ℕ
u64_max = 2 ^ 64 - 1

-- `u64::saturating_mul`.
abbrev pub saturating_mul : ℕ → ℕ → ℕ
saturating_mul a b = min (a * b) u64_max

abbrev pub dense_amplitude_bytes : ℕ
dense_amplitude_bytes = 16

abbrev pub mps_bond_dim : ℕ
mps_bond_dim = 128

abbrev pub mps_site_factor_bytes : ℕ
mps_site_factor_bytes = 32

abbrev pub gib_u64 : ℕ
gib_u64 = 1024 * 1024 * 1024

abbrev pub host_memory_reserve_threshold_gib : ℕ
host_memory_reserve_threshold_gib = 16

abbrev pub host_memory_reserve_small_gib : ℕ
host_memory_reserve_small_gib = 1

abbrev pub host_memory_reserve_large_gib : ℕ
host_memory_reserve_large_gib = 2

abbrev pub vram_memory_reserve_gib : ℕ
vram_memory_reserve_gib = 1

pub data MemoryCapSource : Type 0 where
  ram vram : MemoryCapSource

abbrev pub as_str : MemoryCapSource → Text
as_str ram = text "ram"
as_str vram = text "vram"

unfoldable pub host_memory_reserve_gib : ℕ → ℕ
host_memory_reserve_gib total_gib =
    if leb host_memory_reserve_threshold_gib total_gib
    then host_memory_reserve_large_gib
    else host_memory_reserve_small_gib

-- `-` on ℕ stops at 0, which is `saturating_sub`.
unfoldable pub max_wqc_memory_gib_from_total : ℕ → ℕ
unfolding host_memory_reserve_gib
max_wqc_memory_gib_from_total total_gib =
    if total_gib == 0 then 1 else max (total_gib - host_memory_reserve_gib total_gib) 1

unfoldable pub max_wqc_memory_bytes_from_total : ℕ → ℕ
unfolding max_wqc_memory_gib_from_total
max_wqc_memory_bytes_from_total total_bytes =
    saturating_mul (max_wqc_memory_gib_from_total (total_bytes / gib_u64)) gib_u64

abbrev pub per_qubit : ℕ
per_qubit = saturating_mul (saturating_mul mps_bond_dim mps_bond_dim) mps_site_factor_bytes

unfoldable pub max_qubits_from_mps_memory_budget : ℕ → ℕ
max_qubits_from_mps_memory_budget budget_bytes =
    if ltb budget_bytes per_qubit then 0 else min (budget_bytes / per_qubit) (2 ^ 32 - 1)

-- `while n < 63 && 16.saturating_mul(1 << n) <= budget { n += 1 }`, with the rounds left as fuel.
pub dense_loop : ℕ → ℕ → ℕ → ℕ
dense_loop zero n budget_bytes = n
dense_loop (suc fuel) n budget_bytes =
    let rest = dense_loop fuel (n + 1) budget_bytes in
    if ltb n 63 && leb (saturating_mul dense_amplitude_bytes (2 ^ n)) budget_bytes then rest else n

unfoldable pub max_qubits_from_dense_memory_budget : ℕ → ℕ
unfolding dense_loop
max_qubits_from_dense_memory_budget budget_bytes =
    if ltb budget_bytes dense_amplitude_bytes then 0 else dense_loop 64 0 budget_bytes - 1

-- What `resolve_max_qubits_with_optional_vram` returns.
pub record Resolved : Type 0 where
  pub dense_qubits : ℕ
  pub mps_qubits : ℕ
  pub effective_gib : F64
  pub source : MemoryCapSource

module _ (fl : Float) where
  -- `1024.0 * 1024.0 * 1024.0`.
  abbrev pub gib : F64
  gib = fl.of_u64 gib_u64

  unfoldable pub effective_memory_bytes : Option F64 → ℕ → ℕ
  unfolding max_wqc_memory_bytes_from_total
  effective_memory_bytes none total_physical_bytes =
      max_wqc_memory_bytes_from_total total_physical_bytes
  effective_memory_bytes (some g) total_physical_bytes =
      min (fl.to_u64 (fl.mul (fl.fmax g (fl.of_u64 0)) gib))
        (max_wqc_memory_bytes_from_total total_physical_bytes)

  unfoldable pub resolve_max_qubits_from_memory_gb : Option F64 → ℕ → ℕ × ℕ × F64
  resolve_max_qubits_from_memory_gb requested_gib total_physical_bytes =
      let bytes = effective_memory_bytes requested_gib total_physical_bytes in
      (
        max_qubits_from_dense_memory_budget bytes,
        max_qubits_from_mps_memory_budget bytes,
        fl.div (fl.of_u64 bytes) gib,
      )

-- `filter(|&b| b > 0)`.
abbrev pub positive : Option ℕ → Option ℕ
positive none = none
positive (some b) = if ltb 0 b then some b else none

-- The envelope that `resolve_max_qubits_with_optional_vram` settles on.
abbrev pub vram_usable : ℕ → ℕ
vram_usable bytes =
    max (bytes - saturating_mul vram_memory_reserve_gib gib_u64) dense_amplitude_bytes

unfoldable pub intersect_budget : ℕ → Option ℕ → ℕ × MemoryCapSource
intersect_budget ram_budget_bytes vram_budget_bytes = elim (positive vram_budget_bytes) [
  | some bytes ↦
      if ltb (vram_usable bytes) ram_budget_bytes
      then (vram_usable bytes, MemoryCapSource.vram)
      else (ram_budget_bytes, MemoryCapSource.ram)
  | none ↦ (ram_budget_bytes, MemoryCapSource.ram)
]

unfoldable pub resolve_max_qubits_with_optional_vram : (fl : Float) → ℕ → Option ℕ → Resolved
unfolding intersect_budget
resolve_max_qubits_with_optional_vram fl ram_budget_bytes vram_budget_bytes =
    let (bytes, source) = intersect_budget ram_budget_bytes vram_budget_bytes in
    record {
      dense_qubits = max_qubits_from_dense_memory_budget bytes;
      mps_qubits = max_qubits_from_mps_memory_budget bytes;
      effective_gib = fl.div (fl.of_u64 bytes) (gib fl);
      source = source;
    }
