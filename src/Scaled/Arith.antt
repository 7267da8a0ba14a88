-- ===== src/Scaled/Arith.antt =====
-- The scaled product and quotient on amounts that are not negative.
use native.Mathlib.Nat.{div-mul-le_self, lt-div-mul-add}
use trading_worker.Base.{ℕ, zero, suc, ◌+◌, ◌*◌, ◌/◌, ◌≤◌, ◌<◌, ◌≡◌, ap, ◌∙◌, arith}
use trading_worker.Base.Int.{pos, ◌*ℤ◌, *ℤ_pos, div_ℤ}
use trading_worker.Scaled.{multiply_scaled, divide_scaled}

-- A quantity at 8 places times a price at 6, as an amount at 6 places.
abbrev pub amount : ℕ → ℕ → ℕ
amount qty price = qty * price * 1000000 / 100000000000000

-- The price at 6 places at which a quantity makes an amount.
abbrev pub price_of : ℕ → ℕ → ℕ
price_of amount qty = amount * 100000000000000 / (qty * 1000000)

pub multiply_scaled-pos :
    (qty price : ℕ) → multiply_scaled (pos qty) 8 (pos price) 6 6 ≡ pos (amount qty price)
unfolding multiply_scaled
multiply_scaled-pos qty price =
    ap (λ z. div_ℤ z (pos 100000000000000))
      (ap (λ z. z *ℤ pos 1000000) (*ℤ_pos qty price) ∙ *ℤ_pos (qty * price) 1000000)

pub divide_scaled-pos :
    (amount qty : ℕ)
    → 0 < qty
    → divide_scaled (pos amount) 6 (pos qty) 8 6 ≡ pos (price_of amount qty)
unfolding divide_scaled
divide_scaled-pos amount zero h = absurd (omega arith)
divide_scaled-pos amount (suc qty) h = rw (*ℤ_pos amount 100000000000000, *ℤ_pos (suc qty) 1000000)

-- The price is exact but for what is cut off behind its last place.
pub price_of_bounds :
    (amount qty : ℕ)
    → 0 < qty
    → (price_of amount qty * qty ≤ amount * 100000000)
      × (amount * 100000000 < (price_of amount qty + 1) * qty)
price_of_bounds amount qty h =
    let below = div-mul-le_self (amount * 100000000000000) (qty * 1000000) in
    let above = lt-div-mul-add {a = amount * 100000000000000} {b = qty * 1000000} (omega arith) in
    (omega (arith, below), omega (arith, above))
