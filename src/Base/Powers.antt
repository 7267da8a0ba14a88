-- ===== src/Base/Powers.antt =====
-- Powers of two.
use Prim.Native.Nat.{ℕ, zero, suc, ◌^◌, ◌≤◌}
use native.Mathlib.Omega.{arith}

pub two_power_pos : (e : ℕ) → 1 ≤ 2 ^ e
two_power_pos zero = omega arith
two_power_pos (suc e) = omega (arith, two_power_pos e)

pub two_power_mono : (e f : ℕ) → e ≤ f → 2 ^ e ≤ 2 ^ f
two_power_mono zero f h = two_power_pos f
two_power_mono (suc e) zero h = absurd (omega arith)
two_power_mono (suc e) (suc f) h = omega (arith, two_power_mono e f (omega arith))
