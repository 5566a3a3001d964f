-- ===== src/Base/Saturation.antt =====
-- What `u32::try_from(n).unwrap_or(u32::MAX)` gives.
use Prim.Native.Nat.{ℕ, ◌<◌, ◌≤◌}
use mathlib.Core.Path.{◌≡◌}
use mathlib.Core.Logic.{◌⊎◌, inl, inr}
use native.Mathlib.Omega.{arith}
use betterhook.Base.{ltb, if◌then◌else◌, Bool-cases}

-- The number itself, or the largest `u32` for one that does not fit.
abbrev pub IsSaturated : ℕ → ℕ → Type 0
IsSaturated n m = (n < 4294967296) × (m ≡ n) ⊎ (4294967296 ≤ n) × (m ≡ 4294967295)

pub if_fits-IsSaturated : (n : ℕ) → IsSaturated n (if ltb n 4294967296 then n else 4294967295)
if_fits-IsSaturated n = elim (Bool-cases (ltb n 4294967296)) [
  | inl fits ↦ inl (ground (arith, fits), ground (arith, fits))
  | inr over ↦ inr (ground (arith, over), ground (arith, over))
]
