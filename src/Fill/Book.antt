-- ===== src/Fill/Book.antt =====
-- execution-persistence.service.ts: `applyPositionBookFill` and `findManualPositionBook`, over the
-- indexes of schema/phase-3-live-hardening.sql. The advisory locks make it run alone for one
-- account and stock. `none` is an exception, which rolls the whole transaction back.
use trading_worker.Base.{
  ℕ, zero, suc, Bool, List, [], ◌∷◌, ◌++◌, Option, none, some, ◌||◌, ◌&&◌, ◌>>=◌, ◌==◌,
  if◌then◌else◌, exists,
}
use trading_worker.Base.Int.{ℤ, pos, ◌+ℤ◌, ◌-ℤ◌, ltb_ℤ, max_big_int}
use trading_worker.Base.Text.{Text, codes, coalesce_null}
use trading_worker.Scaled.{
  text, null, DecimalInput, is_zero, decimal_to_scaled, scaled_to_decimal, multiply_scaled,
  divide_scaled,
}
use trading_worker.Event.{Side, OrderFilledPayload}
use trading_worker.Order.{Order, Anomaly, position_book_missing_sell}
use trading_worker.Sql.{id_eq, is_null, find_first, update_where}
use trading_worker.Fill.Db.{PositionBook, SourceType, strategy, manual, source_eq}
use mathlib.Core.Option

pub record BookFill : Type 0 where
  pub order : Order
  pub payload : OrderFilledPayload
  pub fill_id : Option ℕ
  pub filled_at : ℕ
  pub applied_qty : Text
  pub applied_amount : Text

-- `order.accountStrategyId ? 'STRATEGY' : 'MANUAL'`: an id of 0 is falsy.
abbrev pub source_type_of : Option ℕ → SourceType
source_type_of none = manual
source_type_of (some zero) = manual
source_type_of (some (suc n)) = strategy

abbrev is_user_book : ℕ → ℕ → Option ℕ → PositionBook → Bool
is_user_book account stock user b =
    (b.account_id == account)
    && (b.stock_id == stock)
    && source_eq b.source_type manual
    && id_eq b.requested_by_user_id user

-- The unique indexes of `position_books`: per strategy, per user, and per account where no user
-- is named.
unfoldable pub is_same_scope : PositionBook → PositionBook → Bool
is_same_scope a b =
    (a.account_id == b.account_id)
    && (a.stock_id == b.stock_id)
    && ((source_eq a.source_type strategy
          && source_eq b.source_type strategy
          && id_eq a.account_strategy_id b.account_strategy_id)
        || (source_eq a.source_type manual
            && source_eq b.source_type manual
            && (id_eq a.requested_by_user_id b.requested_by_user_id
                || (is_null a.requested_by_user_id && is_null b.requested_by_user_id))))

-- `INSERT`; `none` is the violation of a unique index.
unfoldable pub insert_book : PositionBook → List PositionBook → Option (List PositionBook)
unfolding is_same_scope
insert_book row rows = if exists (is_same_scope row) rows then none else some (rows ++ row ∷ [])

pub record BookNumbers : Type 0 where
  pub next_qty : ℤ
  pub next_cost : ℤ
  pub next_average : ℤ

unfoldable pub next_qty_of : Side → ℤ → ℤ → ℤ
next_qty_of Side.buy current_qty fill_qty = current_qty +ℤ fill_qty
next_qty_of Side.sell current_qty fill_qty = max_big_int (pos 0) (current_qty -ℤ fill_qty)

-- A sale takes its quantity out at the average price, which is read only if some quantity is left.
unfoldable pub next_cost_of : Side → ℤ → ℤ → ℤ → ℤ → DecimalInput → Option ℤ
next_cost_of Side.buy current_cost fill_qty fill_amount next_qty average =
    some (current_cost +ℤ fill_amount)
next_cost_of Side.sell current_cost fill_qty fill_amount next_qty average =
    if is_zero next_qty
    then some (pos 0)
    else Option.map
        (λ price. max_big_int (pos 0) (current_cost -ℤ multiply_scaled fill_qty 8 price 6 6))
        (decimal_to_scaled average 6)

unfoldable pub book_numbers :
    Side → DecimalInput → DecimalInput → DecimalInput → Text → Text → Option BookNumbers
unfolding next_qty_of next_cost_of
book_numbers side quantity cost average applied_qty applied_amount = do
  current_qty ← decimal_to_scaled quantity 8
  current_cost ← decimal_to_scaled cost 6
  fill_qty ← decimal_to_scaled (text applied_qty) 8
  fill_amount ← decimal_to_scaled (text applied_amount) 6
  let next_qty = next_qty_of side current_qty fill_qty
  next_cost ← next_cost_of side current_cost fill_qty fill_amount next_qty average
  some (record {
    next_qty = next_qty;
    next_cost = next_cost;
    next_average = if ltb_ℤ (pos 0) next_qty then divide_scaled next_cost 6 next_qty 8 6 else pos 0;
  })

unfoldable pub booked : BookFill → BookNumbers → PositionBook → PositionBook
booked input n book = record book {
  quantity = scaled_to_decimal n.next_qty 8;
  average_price = scaled_to_decimal n.next_average 6;
  cost_amount = scaled_to_decimal n.next_cost 6;
  last_fill_id = input.fill_id;
  last_filled_at = some input.filled_at;
}

unfoldable pub new_book : BookFill → BookNumbers → ℕ → PositionBook
new_book input n id = record {
  id = id;
  account_id = input.order.account_id;
  stock_id = input.order.stock_id;
  source_type = source_type_of input.order.account_strategy_id;
  account_strategy_id = input.order.account_strategy_id;
  strategy_id = input.order.strategy_id;
  requested_by_user_id = input.order.requested_by_user_id;
  quantity = scaled_to_decimal n.next_qty 8;
  average_price = scaled_to_decimal n.next_average 6;
  cost_amount = scaled_to_decimal n.next_cost 6;
  realized_amount = codes "0";
  last_fill_id = input.fill_id;
  last_filled_at = some input.filled_at;
}

-- The table and its sequence.
pub record Books : Type 0 where
  pub rows : List PositionBook
  pub next_id : ℕ

unfoldable pub write_book : BookFill → Books → ℕ → BookNumbers → Option Anomaly × Books
unfolding booked update_where
write_book input books id n =
    (none, record books { rows = update_where (λ b. b.id == id) (booked input n) books.rows })

unfoldable pub update_book : BookFill → Books → PositionBook → Option (Option Anomaly × Books)
unfolding book_numbers write_book
update_book input books existing = Option.map (write_book input books existing.id) (
    book_numbers input.payload.side (text existing.quantity) (text existing.cost_amount)
      (text existing.average_price) input.applied_qty input.applied_amount)

unfoldable pub insert_new_book : BookFill → Books → BookNumbers → Option (Option Anomaly × Books)
unfolding new_book insert_book
insert_new_book input books n =
    Option.map (λ rows. (none, record { rows = rows; next_id = suc books.next_id }))
      (insert_book (new_book input n books.next_id) books.rows)

unfoldable pub open_book : BookFill → Books → Option (Option Anomaly × Books)
unfolding book_numbers insert_new_book
open_book input books =
    book_numbers input.payload.side null null null input.applied_qty input.applied_amount
    >>= insert_new_book input books

-- With no book, a buy opens one and a sale is an anomaly.
unfoldable pub book_or_open :
    Side → BookFill → Books → Option PositionBook → Option (Option Anomaly × Books)
unfolding update_book open_book
book_or_open side input books (some existing) = update_book input books existing
book_or_open Side.sell input books none = some (some position_book_missing_sell, books)
book_or_open Side.buy input books none = open_book input books

-- How TypeORM reads `requestedByUserId: null` in a `where`: whether a row with this column passes.
module _ (null_where : Option ℕ → Bool) where
  find_account_book : Side → ℕ → ℕ → List PositionBook → Option PositionBook
  unfolding find_first
  find_account_book Side.buy account stock rows = none
  find_account_book Side.sell account stock rows =
      find_first
        (λ b.
          (b.account_id == account)
          && (b.stock_id == stock)
          && source_eq b.source_type manual
          && null_where b.requested_by_user_id)
        rows

  unfoldable pub find_manual_book :
      ℕ → ℕ → Option ℕ → Side → List PositionBook → Option PositionBook
  unfolding find_account_book
  find_manual_book account stock none side rows = find_account_book side account stock rows
  find_manual_book account stock (some user) side rows =
      coalesce_null (find_first (is_user_book account stock (some user)) rows)
        (find_account_book side account stock rows)

  abbrev pub find_book : SourceType → BookFill → List PositionBook → Option PositionBook
  find_book strategy input rows =
      find_first
        (λ b.
          (b.account_id == input.order.account_id)
          && (b.stock_id == input.order.stock_id)
          && source_eq b.source_type strategy
          && id_eq b.account_strategy_id input.order.account_strategy_id)
        rows
  find_book manual input rows =
      find_manual_book input.order.account_id input.order.stock_id input.order.requested_by_user_id
        input.payload.side rows

  unfoldable pub apply_position_book_fill : BookFill → Books → Option (Option Anomaly × Books)
  unfolding book_or_open find_manual_book
  apply_position_book_fill input books =
      book_or_open input.payload.side input books
        (find_book (source_type_of input.order.account_strategy_id) input books.rows)
