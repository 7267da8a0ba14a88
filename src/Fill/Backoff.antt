-- ===== src/Fill/Backoff.antt =====
-- The delay after a failed publish.
use trading_worker.Base.{ℕ, ◌+◌, ◌-◌, min, ◌≤◌, ◌≡◌, refl, arith}
use trading_worker.Base.Powers.{two_power_pos, two_power_mono}
use trading_worker.Fill.Outbox.{outbox_base_backoff_ms, outbox_max_backoff_ms, outbox_backoff_ms}

exponent_late : (n : ℕ) → min (7 + n - 1) 6 ≡ 6
exponent_late n = omega arith

-- The delay grows with the attempts, from the base to the maximum, which it has from the seventh on.
pub outbox_backoff_ms-bounds :
    (m n : ℕ)
    → m ≤ n
    → (outbox_base_backoff_ms ≤ outbox_backoff_ms m)
      × (outbox_backoff_ms m ≤ outbox_backoff_ms n)
      × (outbox_backoff_ms n ≤ outbox_max_backoff_ms)
      × (outbox_backoff_ms (7 + n) ≡ outbox_max_backoff_ms)
unfolding outbox_backoff_ms
outbox_backoff_ms-bounds m n h = (
  omega (arith, two_power_pos (min (m - 1) 6)),
  omega (arith, two_power_mono (min (m - 1) 6) (min (n - 1) 6) (omega arith)),
  omega arith,
  rw (exponent_late n) refl,
)
