-- ===== src/Fill/Ledger.antt =====
-- The ledger of fills against the orders' filled quantities.
use mathlib.Core.Option.{some-injective}
use trading_worker.Base.{
  ℕ, ◌+◌, ◌≡◌, inl, inr, refl, sym, ◌∙◌, arith, Bool, true, false, List, [], ◌∷◌, ◌++◌, Option,
  some, none, ◌==◌, Returns, Returns-imp, All,
}
use trading_worker.Base.Int.{pos}
use trading_worker.Base.Text.{Text}
use trading_worker.Scaled.{text, decimal_to_scaled}
use trading_worker.Scaled.Arith.{amount}
use trading_worker.Event.{OrderFilledPayload}
use trading_worker.Order.{Order, UniqueIds}
use trading_worker.Order.Ids.{UniqueIds-update_where}
use trading_worker.Fill.{FillAggregate}
use trading_worker.Fill.Db.{Db, FillRow}
use trading_worker.Fill.Write.{write_fill, fill_row}
use trading_worker.Fill.Ingest.{IngestResult, ingest_execution_fill}
use trading_worker.Fill.Quantity.{
  applied, aggregate, build_fill_aggregate_lem, applied_qty_reads, write_fill-Reads,
}
use trading_worker.Fill.Outcome.{Booked, Outcome, ingest-Outcome}
use trading_worker.Fill.Accounts.{
  fill_sum, fill_sum-append, IsAccounted, find_order_for_fill-At, All-At, update_where-All,
  computed-PayloadReads,
}
use trading_worker.Fill.Db.{UnmatchedFill}
use trading_worker.Fill.Retry.{
  RetryRun, settle, settlement_of, retry_loop, due_rows, retry_unmatched_fills, TrackerCall,
  deliver, retry, committed, tracker_calls,
}
use trading_worker.Fill.Attempts.{counted_db}
use trading_worker.Base.{Option-cases, Returns-some}

row_parts :
    (n : ℕ) (o : Order) (p : OrderFilledPayload) (id : Text) (a : FillAggregate) {row : FillRow}
    → fill_row n o p id a ≡ some row
    → (row.order_id ≡ o.id) × (row.quantity ≡ a.applied_qty)
unfolding fill_row
row_parts n o p id a h = ground arith

module _ {null_where : Option ℕ → Bool} {now : ℕ} {p : OrderFilledPayload} {db db' : Db}
    {r : IngestResult} (b : Booked null_where now p db r db') where
  booked_kept :
      (o : Order)
      → (o.id == b.order.id) ≡ false
      → IsAccounted db.fills o
      → IsAccounted (db.fills ++ b.row ∷ []) o
  booked_kept o ne (ordered, paid, reads) =
      let (named, _) = row_parts _ _ _ _ _ b.row_lem in
      let same : fill_sum o.id (db.fills ++ b.row ∷ []) ≡ fill_sum o.id db.fills =
        ground (arith, fill_sum-append o.id db.fills b.row) in
      (ordered, paid, rw same reads)

  booked_order :
      IsAccounted db.fills b.order
      → IsAccounted (db.fills ++ b.row ∷ []) (write_fill now p b.aggregate b.order b.order)
  unfolding write_fill
  booked_order (ordered, paid, reads) =
      let (qty, price, pr) = computed-PayloadReads b.order p b.computed in
      let computed : aggregate reads pr ≡ b.aggregate =
        some-injective _ _
          (some-injective _ _ (sym (build_fill_aggregate_lem reads pr) ∙ b.computed)) in
      let (named, holds) = row_parts _ _ _ _ _ b.row_lem in
      let d = applied ordered (fill_sum b.order.id db.fills) qty in
      let reads_row : decimal_to_scaled (text b.row.quantity) 8 ≡ some (pos d) =
        rw (holds, ← computed) (applied_qty_reads reads pr) in
      let grown : fill_sum b.order.id (db.fills ++ b.row ∷ []) ≡ fill_sum b.order.id db.fills + d =
        rw (fill_sum-append b.order.id db.fills b.row, named, reads_row) (ground arith) in
      (ordered, paid + amount d price, rw (grown, ← computed) (write_fill-Reads reads pr now))

  booked-IsAccounted :
      UniqueIds db.orders
      → All (IsAccounted db.fills) db.orders
      → All (IsAccounted db'.fills) db'.orders
  booked-IsAccounted u h =
      let at = find_order_for_fill-At p db.orders b.found in
      rw (b.fills, b.orders)
        (update_where-All (IsAccounted db.fills) (IsAccounted (db.fills ++ b.row ∷ []))
          (write_fill now p b.aggregate b.order) b.order.id booked_kept db.orders u at refl h
          (booked_order (All-At (IsAccounted db.fills) db.orders h at)))

write_fill-id :
    (now : ℕ) (p : OrderFilledPayload) (a : FillAggregate) (order o : Order)
    → (write_fill now p a order o).id ≡ o.id
unfolding write_fill
write_fill-id now p a order o = refl

-- The database of the fill path is in order: ids are unique, and every order is accounted for.
pub record IsBalanced (db : Db) : Type 0 where
  pub unique : UniqueIds db.orders
  pub accounted : All (IsAccounted db.fills) db.orders

committed-IsBalanced :
    (db : Db) (m : Option (IngestResult × Db))
    → IsBalanced db
    → Returns (λ x. IsBalanced x.1) m
    → IsBalanced (committed m db)
committed-IsBalanced db none h k = h
committed-IsBalanced db (some (r, db')) h k = k

settle-IsBalanced :
    (now : ℕ) (row : UnmatchedFill) (r : IngestResult) (db : Db)
    → IsBalanced db
    → IsBalanced (settle now row r db)
unfolding settle
settle-IsBalanced now row r db h = record { unique = h.unique; accounted = h.accounted }

module _ (null_where : Option ℕ → Bool) where
  module _ (now : ℕ) (p : OrderFilledPayload) (store : Bool) where
    Outcome-IsBalanced :
        (db : Db) (x : IngestResult × Db)
        → IsBalanced db
        → Outcome null_where now p db x
        → IsBalanced x.1
    Outcome-IsBalanced db x h (inl (_, same)) = record {
      unique = rw same.orders h.unique;
      accounted = rw (same.orders, same.fills) h.accounted;
    }
    Outcome-IsBalanced db x h (inr (_, b)) = record {
      unique =
          rw b.orders (
            UniqueIds-update_where _ (write_fill-id now p b.aggregate b.order) _ db.orders
              h.unique);
      accounted = booked-IsAccounted b h.unique h.accounted;
    }

    -- One report keeps the database balanced, whether it is booked, refused, a repetition, clamped
    -- or marked as an anomaly.
    pub ingest-IsBalanced :
        (db : Db)
        → IsBalanced db
        → Returns (λ x. IsBalanced x.1) (ingest_execution_fill null_where now p store db)
    ingest-IsBalanced db h =
        Returns-imp (Outcome null_where now p db) (λ x. IsBalanced x.1) _
          (λ x. Outcome-IsBalanced db x h) (ingest-Outcome null_where now p store db)

  retry_loop-IsBalanced :
      (now : ℕ) (rows : List UnmatchedFill) (run : RetryRun)
      → IsBalanced run.db
      → IsBalanced (retry_loop null_where now rows run).db
  unfolding retry_loop
  retry_loop-IsBalanced now [] run h = h
  retry_loop-IsBalanced now (row ∷ rows) run h =
      elim (Option-cases (ingest_execution_fill null_where now row.payload false run.db)) [
        | inl e ↦ rw (e, retry_loop) h
        | inr ((r, db), e) ↦
            rw (e, retry_loop)
              (retry_loop-IsBalanced now rows _ (
                rw (counted_db (settlement_of (row.attempts + 1) r) _) (
                  settle-IsBalanced now row r db (
                    Returns-some (λ x. IsBalanced x.1) _ (r, db) e
                      (ingest-IsBalanced now row.payload false run.db h)))))
      ]

  -- Whatever the broker reports, in whatever order and however often, and whenever fills that were put
  -- aside are tried again: if at the start order ids are unique and the filled quantity of every order is
  -- the sum of its fills and not more than what was ordered, then this is so at the end.
  pub tracker_calls-IsBalanced :
      (calls : List TrackerCall) (db : Db)
      → IsBalanced db
      → IsBalanced (tracker_calls null_where calls db)
  unfolding tracker_calls retry_unmatched_fills
  tracker_calls-IsBalanced [] db h = h
  tracker_calls-IsBalanced (deliver now p ∷ calls) db h =
      tracker_calls-IsBalanced calls _
        (committed-IsBalanced db _ h (ingest-IsBalanced now p true db h))
  tracker_calls-IsBalanced (retry now limit ∷ calls) db h =
      tracker_calls-IsBalanced calls _
        (retry_loop-IsBalanced now (due_rows now limit db.unmatched) _ h)
