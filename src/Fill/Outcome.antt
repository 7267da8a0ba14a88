-- ===== src/Fill/Outcome.antt =====
-- What `ingestExecutionFill` can have done to the tables when it returns.
use trading_worker.Base.{
  ℕ, ◌≡◌, ◌⊎◌, inl, inr, refl, Bool, true, false, [], ◌∷◌, ◌++◌, Option, some, none, Returns,
  Returns-bind, Returns-if, Returns-map, ◌==◌,
}
use trading_worker.Base.Int.{ℤ, pos, leb_ℤ}
use trading_worker.Base.Text.{Text}
use trading_worker.Scaled.{text, decimal_to_scaled}
use trading_worker.Event.{OrderFilledPayload}
use trading_worker.Order.{Order, Anomaly, invalid_fill, order_not_found, side_mismatch}
use trading_worker.Fill.{FillAggregate, matches_order_side, build_fill_aggregate}
use trading_worker.Sql.{update_where}
use trading_worker.Fill.Db.{Db, FillRow}
use trading_worker.Fill.Book.{Books, apply_position_book_fill}
use trading_worker.Fill.Find.{find_order_for_fill}
use trading_worker.Fill.Write.{has_fill, write_fill, fill_row}
use trading_worker.Fill.Ingest.{
  IngestResult, book_input, finish_fill, insert_row, insert_positive, refuse, apply_aggregate,
  ingest_order, ingest_execution_fill, external_fill_id_of,
}

-- The tables but for the fills put aside are as they were.
pub record Untouched (db db' : Db) : Type 0 where
  pub orders : db'.orders ≡ db.orders
  pub fills : db'.fills ≡ db.fills
  pub order_fills : db'.order_fills ≡ db.order_fills
  pub position_books : db'.position_books ≡ db.position_books

-- A new fill was written to every table.
pub record Booked (null_where : Option ℕ → Bool) (now : ℕ) (p : OrderFilledPayload) (db : Db)
    (r : IngestResult) (db' : Db) : Type 0 where
  pub order : Order
  pub aggregate : FillAggregate
  pub row : FillRow
  pub qty : ℤ
  pub books : Books
  pub book_anomaly : Option Anomaly
  pub found : find_order_for_fill p db.orders ≡ some order
  pub sided : matches_order_side order.order_type p.side ≡ true
  pub computed : build_fill_aggregate order p ≡ some (some aggregate)
  pub qty_reads : decimal_to_scaled (text aggregate.applied_qty) 8 ≡ some qty
  pub qty_positive : leb_ℤ qty (pos 0) ≡ false
  pub row_lem : fill_row db.next_fill_id order p r.external_fill_id aggregate ≡ some row
  pub fresh : has_fill r.external_fill_id db.fills ≡ false
  pub id_lem : external_fill_id_of p p.external_fill_id ≡ some r.external_fill_id
  pub order_id : r.order_id ≡ some order.id
  pub orders :
      db'.orders ≡ update_where (λ o. o.id == order.id) (write_fill now p aggregate order) db.orders
  pub fills : db'.fills ≡ db.fills ++ row ∷ []
  pub booked :
      apply_position_book_fill null_where
        (book_input p order aggregate row)
        (record { rows = db.position_books; next_id = db.next_position_book_id })
      ≡ some (book_anomaly, books)
  pub position_books : db'.position_books ≡ books.rows

module _ (null_where : Option ℕ → Bool) (now : ℕ) (p : OrderFilledPayload) where
  -- The two ways in which the call returns.
  abbrev pub Outcome : Db → IngestResult × Db → Type 0
  Outcome db x =
      ((x.0.inserted ≡ false) × Untouched db x.1)
      ⊎ ((x.0.inserted ≡ true) × Booked null_where now p db x.0 x.1)

  refuse-Outcome :
      (store : Bool) (id : Text) (reason : Anomaly) (retryable : Bool) (order_id : Option ℕ)
      (db : Db)
      → Outcome db (refuse now store p id reason retryable order_id db)
  unfolding refuse
  refuse-Outcome true id reason retryable order_id db =
      inl (refl, record { orders = refl; fills = refl; order_fills = refl; position_books = refl })
  refuse-Outcome false id reason retryable order_id db =
      inl (refl, record { orders = refl; fills = refl; order_fills = refl; position_books = refl })

  module _ (db : Db) (id : Text) where
    module _ (order : Order) (a : FillAggregate) where
      -- What is known of a fill when its row is about to be inserted.
      pub record Ready : Type 0 where
        found : find_order_for_fill p db.orders ≡ some order
        sided : matches_order_side order.order_type p.side ≡ true
        computed : build_fill_aggregate order p ≡ some (some a)
        known : external_fill_id_of p p.external_fill_id ≡ some id

      finish_fill-Outcome :
          (row : FillRow) (qty : ℤ) (x : Option Anomaly × Books)
          → Ready
          → decimal_to_scaled (text a.applied_qty) 8 ≡ some qty
          → leb_ℤ qty (pos 0) ≡ false
          → fill_row db.next_fill_id order p id a ≡ some row
          → has_fill id db.fills ≡ false
          → apply_position_book_fill null_where
              (book_input p order a row)
              (record { rows = db.position_books; next_id = db.next_position_book_id })
            ≡ some x
          → Outcome db (finish_fill now p id order a row db x)
      unfolding finish_fill
      finish_fill-Outcome row qty (none, books) k reads positive made fresh booked = inr (
        refl,
        record {
          order = order;
          aggregate = a;
          row = row;
          qty = qty;
          books = books;
          book_anomaly = none;
          found = k.found;
          sided = k.sided;
          computed = k.computed;
          qty_reads = reads;
          qty_positive = positive;
          row_lem = made;
          fresh = fresh;
          id_lem = k.known;
          order_id = refl;
          orders = refl;
          fills = refl;
          booked = booked;
          position_books = refl;
        },
      )
      finish_fill-Outcome row qty (some reason, books) k reads positive made fresh booked = inr (
        refl,
        record {
          order = order;
          aggregate = a;
          row = row;
          qty = qty;
          books = books;
          book_anomaly = some reason;
          found = k.found;
          sided = k.sided;
          computed = k.computed;
          qty_reads = reads;
          qty_positive = positive;
          row_lem = made;
          fresh = fresh;
          id_lem = k.known;
          order_id = refl;
          orders = refl;
          fills = refl;
          booked = booked;
          position_books = refl;
        },
      )

      insert_row-Outcome :
          (row : FillRow) (qty : ℤ)
          → Ready
          → decimal_to_scaled (text a.applied_qty) 8 ≡ some qty
          → leb_ℤ qty (pos 0) ≡ false
          → fill_row db.next_fill_id order p id a ≡ some row
          → Returns (Outcome db) (insert_row null_where now p id order a db row)
      unfolding insert_row
      insert_row-Outcome row qty k reads positive made =
          Returns-if (Outcome db) _ _ _
            (λ _. inl (
              refl,
              record { orders = refl; fills = refl; order_fills = refl; position_books = refl },
            ))
            λ fresh.
              Returns-map (Outcome db) _ _
                λ x booked. finish_fill-Outcome row qty x k reads positive made fresh booked

      insert_positive-Outcome :
          (qty : ℤ)
          → Ready
          → decimal_to_scaled (text a.applied_qty) 8 ≡ some qty
          → Returns (Outcome db) (insert_positive null_where now p id order a db qty)
      unfolding insert_positive
      insert_positive-Outcome qty k reads =
          Returns-if (Outcome db) _ _ _
            (λ _. inl (
              refl,
              record { orders = refl; fills = refl; order_fills = refl; position_books = refl },
            ))
            λ positive.
              Returns-bind (Outcome db) _ _
                λ row made. insert_row-Outcome row qty k reads positive made

    apply_aggregate-Outcome :
        (store : Bool) (order : Order) (a : Option FillAggregate)
        → find_order_for_fill p db.orders ≡ some order
        → matches_order_side order.order_type p.side ≡ true
        → build_fill_aggregate order p ≡ some a
        → external_fill_id_of p p.external_fill_id ≡ some id
        → Returns (Outcome db) (apply_aggregate null_where now p store id order db a)
    unfolding apply_aggregate
    apply_aggregate-Outcome store order none found sided computed known =
        refuse-Outcome store id invalid_fill false (some order.id) db
    apply_aggregate-Outcome store order (some a) found sided computed known =
        Returns-bind (Outcome db) _ _ λ qty reads.
          insert_positive-Outcome order a qty
            (record { found = found; sided = sided; computed = computed; known = known }) reads

    ingest_order-Outcome :
        (store : Bool) (order : Option Order)
        → find_order_for_fill p db.orders ≡ order
        → external_fill_id_of p p.external_fill_id ≡ some id
        → Returns (Outcome db) (ingest_order null_where now p store id db order)
    unfolding ingest_order
    ingest_order-Outcome store none found known =
        refuse-Outcome store id order_not_found true none db
    ingest_order-Outcome store (some order) found known =
        Returns-if (Outcome db) _ _ _
          (λ sided.
            Returns-bind (Outcome db) _ _
              λ a computed. apply_aggregate-Outcome store order a found sided computed known)
          (λ _. refuse-Outcome store id side_mismatch false (some order.id) db)

  -- Whenever the call returns, it has either inserted nothing and left all tables but the fills put
  -- aside as they were, or inserted one new fill, with all that `Booked` says.
  pub ingest-Outcome :
      (store : Bool) (db : Db)
      → Returns (Outcome db) (ingest_execution_fill null_where now p store db)
  unfolding ingest_execution_fill
  ingest-Outcome store db =
      Returns-bind (Outcome db) _ _
        λ id known. ingest_order-Outcome db id store (find_order_for_fill p db.orders) refl known
