-- ===== src/Memory/Budget.antt =====
-- The envelopes of src/memory_budget.rs: what is left to the host, and the smaller of RAM and VRAM.
use wqc_node.Base.{ℕ, ◌+◌, ◌*◌, ◌≤◌, ◌<◌, ◌/◌, ◌≡◌, ◌⊎◌, Option, none, some, arith}
use wqc_node.Base.Float.{F64, Float}
use wqc_node.Memory.{
  gib_u64, u64_max, host_memory_reserve_gib, effective_memory_bytes, intersect_budget,
  MemoryCapSource,
}

-- Whatever the operator asks for, the budget leaves the host its reserve on a host of at least two
-- GiB: budget plus reserve are within the physical memory.
pub effective_leaves_reserve :
    (fl : Float) (requested_gib : Option F64) (total : ℕ)
    → 2 * gib_u64 ≤ total
    → total ≤ u64_max
    → effective_memory_bytes fl requested_gib total
        + host_memory_reserve_gib (total / gib_u64) * gib_u64
      ≤ total
unfolding effective_memory_bytes host_memory_reserve_gib
effective_leaves_reserve fl none total h k = ground arith
effective_leaves_reserve fl (some g) total h k = ground arith

-- The intersection with VRAM never passes the RAM budget. The cap is VRAM exactly when a positive
-- VRAM size is reported whose usable part (all but one GiB, and at least 16 bytes) is below the RAM
-- budget, and then that part is the budget; otherwise the budget is the RAM budget.
pub intersect_bounds :
    (ram_bytes vram_bytes : ℕ)
    → let (bytes, source) = intersect_budget ram_bytes (some vram_bytes) in
      (bytes ≤ ram_bytes)
      × (((source ≡ MemoryCapSource.vram)
            × (0 < vram_bytes)
            × (bytes < ram_bytes)
            × ((bytes ≡ 16) ⊎ (bytes + gib_u64 ≡ vram_bytes)))
          ⊎ ((source ≡ MemoryCapSource.ram) × (bytes ≡ ram_bytes)))
unfolding intersect_budget
intersect_bounds ram_bytes vram_bytes = ground arith
