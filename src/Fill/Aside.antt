-- ===== src/Fill/Aside.antt =====
-- The fills put aside in `unmatched_order_fills`: what `ingestExecutionFill` adds to them.
use trading_worker.Base.{
  ℕ, ◌≡◌, ◌⊎◌, inl, inr, refl, Bool, true, false, Option, some, none, Returns, Returns-bind,
  Returns-if, Returns-map, ◌>>=◌,
}
use trading_worker.Base.Int.{ℤ, pos, leb_ℤ}
use trading_worker.Base.Text.{Text, coalesce}
use trading_worker.Scaled.{text, decimal_to_scaled}
use trading_worker.Event.{OrderFilledPayload}
use trading_worker.Order.{
  Order, Anomaly, order_not_found, side_mismatch, invalid_fill, fill_clamped,
}
use trading_worker.Fill.{FillAggregate, matches_order_side, build_fill_aggregate}
use trading_worker.Fill.Db.{Db, insert_unmatched, FillRow}
use trading_worker.Fill.Book.{Books}
use trading_worker.Fill.Find.{find_order_for_fill}
use trading_worker.Fill.Write.{
  fill_row, has_fill, unmatched_row, save_unmatched, save_book_anomaly, write_tables,
}
use trading_worker.Fill.Ingest.{
  IngestResult, external_fill_id_of, not_inserted, refuse, finish_fill, book_fill, insert_row,
  insert_fill, insert_positive, apply_aggregate, ingest_order, ingest_execution_fill,
}

module _ (null_where : Option ℕ → Bool) (now : ℕ) (p : OrderFilledPayload) where
  -- Nothing is put aside, or one row for this payload, if there is none under its fill id.
  abbrev pub Aside : Db → IngestResult × Db → Type 0
  Aside db x =
      (x.1.unmatched ≡ db.unmatched)
      ⊎ ((id : Text) × (reason : Anomaly) × (retryable : Bool) × (order_id : Option ℕ)
          × (x.1.unmatched
              ≡ insert_unmatched (unmatched_row now p id reason retryable order_id) db.unmatched))

  refuse-Aside :
      (store : Bool) (id : Text) (reason : Anomaly) (retryable : Bool) (order_id : Option ℕ)
      (db : Db)
      → Aside db (refuse now store p id reason retryable order_id db)
  unfolding refuse save_unmatched
  refuse-Aside true id reason retryable order_id db = inr (id, reason, retryable, order_id, refl)
  refuse-Aside false id reason retryable order_id db = inl refl

  finish_fill-Aside :
      (id : Text) (o : Order) (a : FillAggregate) (row : FillRow) (db : Db)
      (x : Option Anomaly × Books)
      → Aside db (finish_fill now p id o a row db x)
  unfolding finish_fill save_book_anomaly save_unmatched write_tables
  finish_fill-Aside id o a row db (none, books) = inl refl
  finish_fill-Aside id o a row db (some reason, books) = inr (id, reason, false, some o.id, refl)

  module _ (id : Text) (o : Order) (a : FillAggregate) (db : Db) where
    book_fill-Aside :
        (row : FillRow) → Returns (Aside db) (book_fill null_where now p id o a db row)
    unfolding book_fill
    book_fill-Aside row = Returns-map (Aside db) _ _ λ x _. finish_fill-Aside id o a row db x

    insert_row-Aside :
        (row : FillRow) → Returns (Aside db) (insert_row null_where now p id o a db row)
    unfolding insert_row
    insert_row-Aside row =
        Returns-if (Aside db) (has_fill id db.fills) (some (not_inserted id o.id none db))
          (book_fill null_where now p id o a db row) (λ _. inl refl) (λ _. book_fill-Aside row)

    insert_fill-Aside : Returns (Aside db) (insert_fill null_where now p id o a db)
    unfolding insert_fill
    insert_fill-Aside =
        Returns-bind (Aside db) (fill_row db.next_fill_id o p id a)
          (insert_row null_where now p id o a db) λ row _. insert_row-Aside row

    insert_positive-Aside :
        (qty : ℤ) → Returns (Aside db) (insert_positive null_where now p id o a db qty)
    unfolding insert_positive
    insert_positive-Aside qty =
        Returns-if (Aside db) (leb_ℤ qty (pos 0))
          (some (not_inserted id o.id (some (coalesce a.anomaly fill_clamped)) db))
          (insert_fill null_where now p id o a db) (λ _. inl refl) (λ _. insert_fill-Aside)

  apply_aggregate-Aside :
      (store : Bool) (id : Text) (o : Order) (db : Db) (a : Option FillAggregate)
      → Returns (Aside db) (apply_aggregate null_where now p store id o db a)
  unfolding apply_aggregate
  apply_aggregate-Aside store id o db none = refuse-Aside store id invalid_fill false (some o.id) db
  apply_aggregate-Aside store id o db (some a) =
      Returns-bind (Aside db) (decimal_to_scaled (text a.applied_qty) 8)
        (insert_positive null_where now p id o a db) (λ qty _. insert_positive-Aside id o a db qty)

  ingest_order-Aside :
      (store : Bool) (id : Text) (db : Db) (o : Option Order)
      → Returns (Aside db) (ingest_order null_where now p store id db o)
  unfolding ingest_order
  ingest_order-Aside store id db none = refuse-Aside store id order_not_found true none db
  ingest_order-Aside store id db (some o) =
      Returns-if (Aside db) (matches_order_side o.order_type p.side)
        (build_fill_aggregate o p >>= apply_aggregate null_where now p store id o db)
        (some (refuse now store p id side_mismatch false (some o.id) db))
        (λ _.
          Returns-bind (Aside db) (build_fill_aggregate o p)
            (apply_aggregate null_where now p store id o db)
            (λ a _. apply_aggregate-Aside store id o db a))
        (λ _. refuse-Aside store id side_mismatch false (some o.id) db)

  pub ingest-Aside :
      (store : Bool) (db : Db)
      → Returns (Aside db) (ingest_execution_fill null_where now p store db)
  unfolding ingest_execution_fill
  ingest-Aside store db =
      Returns-bind (Aside db) (external_fill_id_of p p.external_fill_id)
        (λ id. ingest_order null_where now p store id db (find_order_for_fill p db.orders))
        λ id _. ingest_order-Aside store id db (find_order_for_fill p db.orders)
