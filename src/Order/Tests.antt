-- ===== src/Order/Tests.antt =====
-- The selects of the order repository at two sample orders.
use trading_worker.Base.{ℕ, Bool, List, [], ◌∷◌, some, length, ◌==◌, ◌≡◌, refl}
use trading_worker.Base.Text.{codes}
use trading_worker.Order.{Order, requested, submitting}
use trading_worker.Order.Store.{claim_batch}
use trading_worker.Fill.Samples.{order_of}

abbrev old : Order
old = order_of 1 (codes "V1") (codes "0") (some 5)

abbrev asked : Order
asked = record (order_of 2 (codes "V2") (codes "0") (some 5)) {
  status = requested;
  updated_at = 900;
}

abbrev orders : List Order
orders = old ∷ asked ∷ []

abbrev first_locked : ℕ → Bool
first_locked id = id == 1

-- The order that is locked is left where it is.
claims_the_other : length (claim_batch first_locked 1000 requested submitting 20 orders).0 ≡ 1
unfolding claim_batch
claims_the_other = refl
