-- ===== src/Fill/Quantity.antt =====
-- What a fill does to the quantities of its order.
use trading_worker.Base.{ℕ, ◌+◌, ◌-◌, ◌≤◌, ◌<◌, min, ◌≡◌, ap, ◌∙◌, arith, some, false, ◌||◌}
use trading_worker.Base.Int.{
  pos, ◌+ℤ◌, +ℤ_pos, leb_ℤ, ltb_ℤ, min_big_int, max_big_int-sub, max_big_int-pos,
}
use trading_worker.Scaled.{text, multiply_scaled, decimal_to_scaled, scaled_to_decimal}
use trading_worker.Scaled.RoundTrip.{decimal_to_scaled-scaled_to_decimal}
use trading_worker.Scaled.Arith.{amount, multiply_scaled-pos}
use trading_worker.Event.{OrderFilledPayload}
use trading_worker.Order.{Order}
use trading_worker.Fill.{
  FillNumbers, FillAggregate, fill_numbers, aggregate_of, filled_amount_before, fill_of_order,
  build_fill_aggregate,
}
use trading_worker.Fill.Write.{write_fill}

-- What of a fill still fits into its order.
abbrev pub applied : ℕ → ℕ → ℕ → ℕ
applied ordered before qty = min qty (ordered - before)

min_big_int-pos : (a b : ℕ) → min_big_int (pos a) (pos b) ≡ pos (min a b)
unfolding min_big_int
min_big_int-pos a b = ground arith

module _ (qty price ordered before paid : ℕ) (fits : before ≤ ordered) where
  abbrev pub numbers : FillNumbers
  numbers = fill_numbers (pos qty) (pos price) (pos ordered) (pos before) (pos paid)

  pub next_filled_qty_lem : numbers.next_filled_qty ≡ pos (before + applied ordered before qty)
  unfolding fill_numbers
  next_filled_qty_lem =
      rw (+ℤ_pos before qty, min_big_int-pos ordered (before + qty)) (ap pos (omega arith))

  pub applied_qty_lem : numbers.applied_qty ≡ pos (applied ordered before qty)
  unfolding fill_numbers
  applied_qty_lem =
      rw
        (
          +ℤ_pos before qty,
          min_big_int-pos ordered (before + qty),
          max_big_int-sub (min ordered (before + qty)) before,
        )
        (ap pos (omega arith))

  pub remaining_qty_lem :
      numbers.remaining_qty ≡ pos (ordered - (before + applied ordered before qty))
  unfolding fill_numbers
  remaining_qty_lem =
      rw
        (
          +ℤ_pos before qty,
          min_big_int-pos ordered (before + qty),
          max_big_int-sub ordered (min ordered (before + qty)),
        )
        (ap pos (omega arith))

  next_filled_amount_lem :
      numbers.next_filled_amount ≡ pos (paid + amount (applied ordered before qty) price)
  unfolding fill_numbers
  next_filled_amount_lem =
      ap (λ z. pos paid +ℤ multiply_scaled z 8 (pos price) 6 6) applied_qty_lem
      ∙ ap (λ z. pos paid +ℤ z) (multiply_scaled-pos (applied ordered before qty) price)
      ∙ +ℤ_pos paid (amount (applied ordered before qty) price)

  applied_amount_lem : numbers.applied_amount ≡ pos (amount (applied ordered before qty) price)
  unfolding fill_numbers
  applied_amount_lem =
      ap (λ z. multiply_scaled z 8 (pos price) 6 6) applied_qty_lem
      ∙ multiply_scaled-pos (applied ordered before qty) price

-- The numbers that the texts of an order stand for: what was ordered, what of it is filled, and
-- what was paid for that.
pub record Reads (o : Order) (ordered before paid : ℕ) : Type 0 where
  pub quantity_reads : decimal_to_scaled (text o.quantity) 8 ≡ some (pos ordered)
  pub filled_reads : decimal_to_scaled (text o.filled_quantity) 8 ≡ some (pos before)
  pub amount_reads : filled_amount_before o (pos before) ≡ some (pos paid)
  pub fits : before ≤ ordered

-- The numbers of a fill that the broker may report: some quantity, at a price that is not negative.
pub record PayloadReads (p : OrderFilledPayload) (qty price : ℕ) : Type 0 where
  pub qty_reads : decimal_to_scaled (text p.filled_qty) 8 ≡ some (pos qty)
  pub price_reads : decimal_to_scaled (text p.filled_price) 6 ≡ some (pos price)
  pub positive : 0 < qty

printed :
    (n scale : ℕ)
    → 0 < scale
    → decimal_to_scaled (text (scaled_to_decimal (pos n) scale)) scale ≡ some (pos n)
printed n scale h = decimal_to_scaled-scaled_to_decimal (pos n) scale h

module _ {o : Order} {p : OrderFilledPayload} {ordered before paid qty price : ℕ}
    (r : Reads o ordered before paid) (pr : PayloadReads p qty price) where
  abbrev pub aggregate : FillAggregate
  aggregate =
      aggregate_of o p (fill_numbers (pos qty) (pos price) (pos ordered) (pos before) (pos paid))

  fill_of_order_lem :
      fill_of_order o (pos qty) (pos price)
      ≡ some (fill_numbers (pos qty) (pos price) (pos ordered) (pos before) (pos paid))
  unfolding fill_of_order
  fill_of_order_lem = rw (
    r.quantity_reads,
    r.filled_reads,
    max_big_int-pos before,
    r.amount_reads,
    max_big_int-pos ordered,
    max_big_int-pos paid,
  )

  pub build_fill_aggregate_lem : build_fill_aggregate o p ≡ some (some aggregate)
  unfolding build_fill_aggregate
  build_fill_aggregate_lem =
      let valid : (leb_ℤ (pos qty) (pos 0) || ltb_ℤ (pos price) (pos 0)) ≡ false =
        ground (arith, pr.positive) in
      rw (pr.qty_reads, pr.price_reads, valid, fill_of_order_lem)

  pub applied_qty_reads :
      decimal_to_scaled (text aggregate.applied_qty) 8 ≡ some (pos (applied ordered before qty))
  unfolding aggregate_of
  applied_qty_reads =
      rw (applied_qty_lem qty price ordered before paid r.fits) (printed _ 8 (omega arith))

  pub applied_amount_reads :
      decimal_to_scaled (text aggregate.applied_amount) 6
      ≡ some (pos (amount (applied ordered before qty) price))
  unfolding aggregate_of
  applied_amount_reads =
      rw (applied_amount_lem qty price ordered before paid r.fits) (printed _ 6 (omega arith))

  -- The order that a fill leaves: it can still be read, what was ordered stays, the fill is added up
  -- to what was ordered, and what was paid grows by its amount.
  pub write_fill-Reads :
      (now : ℕ)
      → Reads
          (write_fill now p aggregate o o)
          ordered
          (before + applied ordered before qty)
          (paid + amount (applied ordered before qty) price)
  unfolding write_fill aggregate_of filled_amount_before
  write_fill-Reads now = record {
    quantity_reads = r.quantity_reads;
    filled_reads =
        rw (next_filled_qty_lem qty price ordered before paid r.fits) (printed _ 8 (omega arith));
    amount_reads =
        rw (next_filled_amount_lem qty price ordered before paid r.fits)
          (printed _ 6 (omega arith));
    fits = let f = r.fits in omega arith;
  }

  pub remaining_reads :
      decimal_to_scaled (text aggregate.fields.remaining_quantity) 8
      ≡ some (pos (ordered - (before + applied ordered before qty)))
  unfolding aggregate_of
  remaining_reads =
      rw (remaining_qty_lem qty price ordered before paid r.fits) (printed _ 8 (omega arith))

-- A fill of an order that can be read: the code computes an aggregate, of which as much is applied as
-- the order still has room for. The updated order can be read too: the ordered quantity is what it
-- was, the filled quantity grows by what was applied and never beyond the ordered one, the filled
-- amount grows by the applied quantity times the price, and the remaining quantity is the rest.
pub fill_conserves :
    (now : ℕ) (o : Order) (p : OrderFilledPayload) {ordered before paid qty price : ℕ}
    → Reads o ordered before paid
    → PayloadReads p qty price
    → let d = applied ordered before qty in
      (a : FillAggregate) × (build_fill_aggregate o p ≡ some (some a))
      × (decimal_to_scaled (text a.applied_qty) 8 ≡ some (pos d))
      × Reads (write_fill now p a o o) ordered (before + d) (paid + amount d price)
      × (decimal_to_scaled (text a.fields.remaining_quantity) 8
          ≡ some (pos (ordered - (before + d))))
fill_conserves now o p r pr = (
  aggregate r pr,
  build_fill_aggregate_lem r pr,
  applied_qty_reads r pr,
  write_fill-Reads r pr now,
  remaining_reads r pr,
)
