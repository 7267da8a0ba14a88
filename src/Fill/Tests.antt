-- ===== src/Fill/Tests.antt =====
-- The theorems of the fill path at the sample database.
use trading_worker.Base.{
  ◌+◌, ◌-◌, ◌*◌, ◌≤◌, ◌≡◌, refl, arith, true, false, List, [], ◌∷◌, Option, some, none, Returns,
}
use trading_worker.Base.Int.{pos, max_big_int, min_big_int, ◌-ℤ◌, ◌+ℤ◌, ◌*ℤ◌}
use trading_worker.Base.Text.{codes}
use trading_worker.Scaled.{text, decimal_to_scaled, multiply_scaled, scaled_to_decimal}
use trading_worker.Event.{Side}
use trading_worker.Order.{accepted}
use trading_worker.Fill.{
  FillAggregate, build_fill_aggregate, filled_amount_before, matches_order_side, fill_of_order,
  aggregate_of, fill_numbers,
}
use trading_worker.Fill.Book.{BookFill, BookNumbers, book_numbers, booked, apply_position_book_fill}
use trading_worker.Fill.Db.{Db}
use trading_worker.Fill.Find.{find_order_for_fill}
use trading_worker.Fill.Write.{write_fill}
use trading_worker.Fill.Ingest.{IngestResult, ingest_execution_fill}
use trading_worker.Fill.Quantity.{Reads, PayloadReads, applied, fill_conserves}
use trading_worker.Fill.Accounts.{fill_sum}
use trading_worker.Fill.Ledger.{IsBalanced, tracker_calls-IsBalanced}
use trading_worker.Fill.Retry.{TrackerCall, deliver, retry, committed, tracker_calls}
use trading_worker.Fill.Status.{StatusAfter, AnomalyAfter, fill_status}
use trading_worker.Fill.Outcome.{Untouched, Outcome, ingest-Outcome}
use trading_worker.Fill.Once.{ingest_twice}
use trading_worker.Fill.Position.{manual_buy_never_inserted, BookReads, average_after, book_update}
use trading_worker.Fill.Samples.{
  ignores_null, order, order_of, report, stray_report, database, userless, account_book,
}

order-Reads : Reads order 1000000000 0 0
unfolding decimal_to_scaled filled_amount_before
order-Reads = record {
  quantity_reads = refl;
  filled_reads = refl;
  amount_reads = refl;
  fits = omega arith;
}

report-PayloadReads : PayloadReads report 400000000 100000000
unfolding decimal_to_scaled
report-PayloadReads = record { qty_reads = refl; price_reads = refl; positive = omega arith }

database-IsBalanced : IsBalanced database
unfolding fill_sum
database-IsBalanced = record { unique = (tt, tt); accounted = ((1000000000, 0, order-Reads), tt) }

abbrev calls : List TrackerCall
calls = deliver 1 report ∷ deliver 2 stray_report ∷ deliver 3 report ∷ retry 9000 20 ∷ []

tracker_calls-IsBalanced_example : IsBalanced (tracker_calls ignores_null calls database)
tracker_calls-IsBalanced_example =
    tracker_calls-IsBalanced ignores_null calls database database-IsBalanced

fill_conserves_example :
    (a : FillAggregate) × (build_fill_aggregate order report ≡ some (some a))
    × (decimal_to_scaled (text a.applied_qty) 8 ≡ some (pos 400000000))
    × Reads (write_fill 5 report a order order) 1000000000 400000000 400000000
    × (decimal_to_scaled (text a.fields.remaining_quantity) 8 ≡ some (pos 600000000))
fill_conserves_example = fill_conserves 5 order report order-Reads report-PayloadReads

fill_status_example :
    (a : FillAggregate) × (build_fill_aggregate order report ≡ some (some a))
    × StatusAfter accepted a.fields.status (1000000000 - (0 + applied 1000000000 0 400000000))
    × AnomalyAfter accepted a.anomaly
fill_status_example = fill_status order report order-Reads report-PayloadReads (omega arith)

ingest-Outcome_example :
    Returns
      (Outcome ignores_null 1 report database)
      (ingest_execution_fill ignores_null 1 report true database)
ingest-Outcome_example = ingest-Outcome ignores_null 1 report true database

-- The database that the first delivery leaves.
abbrev once : Db
once = committed (ingest_execution_fill ignores_null 1 report true database) database

abbrev result_of : Option (IngestResult × Db) → IngestResult
result_of none = record { inserted = false; order_id = none; anomaly = none; external_fill_id = [] }
result_of (some (r, db)) = r

first_delivery :
    ingest_execution_fill ignores_null 1 report true database
    ≡ some (result_of (ingest_execution_fill ignores_null 1 report true database), once)
unfolding ingest_execution_fill decimal_to_scaled find_order_for_fill matches_order_side
    build_fill_aggregate fill_of_order filled_amount_before aggregate_of scaled_to_decimal
    fill_numbers max_big_int ◌-ℤ◌ min_big_int ◌+ℤ◌ apply_position_book_fill multiply_scaled ◌*ℤ◌
first_delivery = refl

first_inserts :
    (result_of (ingest_execution_fill ignores_null 1 report true database)).inserted ≡ true
unfolding ingest_execution_fill decimal_to_scaled find_order_for_fill matches_order_side
    build_fill_aggregate fill_of_order filled_amount_before aggregate_of scaled_to_decimal
    fill_numbers max_big_int ◌-ℤ◌ min_big_int ◌+ℤ◌ apply_position_book_fill multiply_scaled ◌*ℤ◌
first_inserts = refl

ingest_twice_example :
    Returns
      (λ x. (x.0.inserted ≡ false) × Untouched once x.1)
      (ingest_execution_fill ignores_null 9 report true once)
ingest_twice_example =
    ingest_twice ignores_null 1 report true 9 true database first_delivery first_inserts

userless_finds :
    find_order_for_fill report userless.orders ≡ some (order_of 7 (codes "V1") (codes "0") none)
unfolding find_order_for_fill
userless_finds = refl

manual_buy_never_inserted_example :
    Returns (λ x. x.0.inserted ≡ false) (ingest_execution_fill ignores_null 1 report true userless)
manual_buy_never_inserted_example =
    manual_buy_never_inserted ignores_null 1 report true userless userless_finds refl refl refl refl

-- The report sells one of the two that the book holds.
abbrev sale : BookFill
sale = record {
  order = order;
  payload = record report { side = Side.sell };
  fill_id = some 1;
  filled_at = 5000;
  applied_qty = codes "1";
  applied_amount = codes "120";
}

account_book-BookReads : BookReads account_book 200000000 200000000 100000000
unfolding decimal_to_scaled
account_book-BookReads = record { qty_reads = refl; cost_reads = refl; average_reads = refl }

sale_qty_reads : decimal_to_scaled (text sale.applied_qty) 8 ≡ some (pos 100000000)
unfolding decimal_to_scaled
sale_qty_reads = refl

sale_amount_reads : decimal_to_scaled (text sale.applied_amount) 6 ≡ some (pos 120000000)
unfolding decimal_to_scaled
sale_amount_reads = refl

book_update_example :
    (n : BookNumbers) × (book_numbers Side.sell
        (text account_book.quantity)
        (text account_book.cost_amount)
        (text account_book.average_price)
        sale.applied_qty
        sale.applied_amount
      ≡ some n)
    × BookReads (booked sale n account_book) 100000000 100000000 (average_after 100000000 100000000)
    × (average_after 100000000 100000000 * 100000000 ≤ 100000000 * 100000000)
book_update_example =
    book_update sale account_book account_book-BookReads sale_qty_reads sale_amount_reads
