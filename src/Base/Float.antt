-- ===== src/Base/Float.antt =====
-- `f64`: the language has no floats. A value is its 64 bits, and the operations that the sources use
-- are a parameter, with no law but those that a theorem asks for by name.
use Prim.Native.Nat.{ℕ}
use mathlib.Core.Bool.{Bool}

abbrev pub F64 : Type 0
F64 = ℕ

-- `f32`, as its 32 bits.
abbrev pub F32 : Type 0
F32 = ℕ

pub record Float : Type 0 where
  -- `n as f64`
  pub of_u64 : ℕ → F64
  -- `x as u64`: truncates, and saturates at the ends.
  pub to_u64 : F64 → ℕ
  pub add : F64 → F64 → F64
  pub sub : F64 → F64 → F64
  pub mul : F64 → F64 → F64
  pub div : F64 → F64 → F64
  pub fmax : F64 → F64 → F64
  -- `a < b` and `a <= b`; false on NaN.
  pub flt : F64 → F64 → Bool
  pub fle : F64 → F64 → Bool
  pub is_finite : F64 → Bool
  -- `Duration::as_secs_f64`, of nanoseconds.
  pub as_secs_f64 : ℕ → F64
  -- What `Iterator::sum` starts from.
  pub sum_start : F64
