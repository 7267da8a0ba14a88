-- ===== src/Fill/Position.antt =====
-- The position books: what a fill does to a book, and to a missing one.
use trading_worker.Base.{
  ℕ, zero, suc, ◌+◌, ◌-◌, ◌≤◌, ◌<◌, ◌*◌, ◌≡◌, inl, inr, refl, sym, ap, ◌∙◌, arith, Bool, true,
  false, List, [], ◌∷◌, Option, some, none, ◌&&◌, ◌==◌, ◌>>=◌, Returns, Returns-imp, exists,
  if◌then◌else◌, subst,
}
use mathlib.Core.Option.{some-injective}
use trading_worker.Base.Int.{pos, ltb_ℤ, +ℤ_pos, max_big_int-sub}
use trading_worker.Scaled.{text, DecimalInput, decimal_to_scaled, scaled_to_decimal, divide_scaled}
use trading_worker.Scaled.RoundTrip.{decimal_to_scaled-scaled_to_decimal}
use trading_worker.Scaled.Arith.{
  amount, price_of, multiply_scaled-pos, divide_scaled-pos, price_of_bounds,
}
use trading_worker.Event.{Side, OrderFilledPayload}
use trading_worker.Order.{Order}
use trading_worker.Sql.{is_null}
use trading_worker.Fill.Db.{Db, PositionBook, manual, source_eq}
use trading_worker.Fill.Book.{
  BookFill, BookNumbers, Books, source_type_of, is_same_scope, insert_book, next_qty_of,
  next_cost_of, book_numbers, booked, new_book, open_book, insert_new_book,
  apply_position_book_fill,
}
use trading_worker.Fill.Find.{find_order_for_fill}
use trading_worker.Fill.Ingest.{IngestResult, ingest_execution_fill, book_input}
use trading_worker.Fill.Outcome.{Outcome, ingest-Outcome}

-- A book of an account that names neither a strategy nor a user.
abbrev pub is_account_book : ℕ → ℕ → PositionBook → Bool
is_account_book account stock b =
    (account == b.account_id)
    && (stock == b.stock_id)
    && (source_eq b.source_type manual && is_null b.requested_by_user_id)

scope_of_account :
    (input : BookFill) (n : BookNumbers) (id : ℕ) (b : PositionBook)
    → source_type_of input.order.account_strategy_id ≡ manual
    → input.order.requested_by_user_id ≡ none
    → is_account_book input.order.account_id input.order.stock_id b ≡ true
    → is_same_scope (new_book input n id) b ≡ true
unfolding is_same_scope new_book
scope_of_account input n id b m u h = ground arith

exists_imp :
    (p q : PositionBook → Bool) (rows : List PositionBook)
    → ((b : PositionBook) → p b ≡ true → q b ≡ true)
    → exists p rows ≡ true
    → exists q rows ≡ true
exists_imp p q [] k h = cc
exists_imp p q (b ∷ rows) k h = ground (arith, k b, exists_imp p q rows k)

bind_none {ℓ κ} :
    {A : Type ℓ} {B : Type κ} (m : Option A) (f : A → Option B)
    → ((a : A) → f a ≡ none)
    → (m >>= f) ≡ none
bind_none none f k = refl
bind_none (some a) f k = k a

insert_book-conflict :
    (row : PositionBook) (rows : List PositionBook)
    → exists (is_same_scope row) rows ≡ true
    → insert_book row rows ≡ none
unfolding insert_book
insert_book-conflict row rows h = rw h

module _ (input : BookFill) (books : Books)
    (m : source_type_of input.order.account_strategy_id ≡ manual)
    (u : input.order.requested_by_user_id ≡ none)
    (h : exists (is_account_book input.order.account_id input.order.stock_id) books.rows
      ≡ true) where
  insert_new_book-conflict : (n : BookNumbers) → insert_new_book input books n ≡ none
  unfolding insert_new_book
  insert_new_book-conflict n = rw (
      insert_book-conflict (new_book input n books.next_id) books.rows (
        exists_imp _ (is_same_scope (new_book input n books.next_id)) books.rows
          (λ b. scope_of_account input n books.next_id b m u) h))

  open_book-conflict : open_book input books ≡ none
  unfolding open_book
  open_book-conflict = bind_none _ (insert_new_book input books) insert_new_book-conflict

  -- A buy for a manual order that names no user looks for no book, and opens one: where the account
  -- has such a book already, the unique index refuses it.
  manual_buy_conflict :
      (null_where : Option ℕ → Bool)
      → input.payload.side ≡ Side.buy
      → apply_position_book_fill null_where input books ≡ none
  unfolding apply_position_book_fill
  manual_buy_conflict null_where side = ground (arith, open_book-conflict)

-- A buy fill of a manual order that names no user, on an account that holds such a book of the stock
-- already: however the ORM reads a null and whatever else holds, the fill is never inserted.
pub manual_buy_never_inserted :
    (null_where : Option ℕ → Bool) (now : ℕ) (p : OrderFilledPayload) (store : Bool) (db : Db)
    {o : Order}
    → find_order_for_fill p db.orders ≡ some o
    → p.side ≡ Side.buy
    → source_type_of o.account_strategy_id ≡ manual
    → o.requested_by_user_id ≡ none
    → exists (is_account_book o.account_id o.stock_id) db.position_books ≡ true
    → Returns (λ x. x.0.inserted ≡ false) (ingest_execution_fill null_where now p store db)
unfolding book_input
manual_buy_never_inserted null_where now p store db {o} found side m u h =
    Returns-imp (Outcome null_where now p db) (λ x. x.0.inserted ≡ false) _ step
      (ingest-Outcome null_where now p store db)
  where
    step : (x : IngestResult × Db) → Outcome null_where now p db x → x.0.inserted ≡ false
    step x (inl (e, _)) = e
    step x (inr (_, b)) =
        let same : o ≡ b.order = some-injective _ _ (sym found ∙ b.found) in
        let books : Books = record {
          rows = db.position_books;
          next_id = db.next_position_book_id;
        } in
        let conflict =
          manual_buy_conflict (book_input p b.order b.aggregate b.row) books
            (subst (λ q. source_type_of q.account_strategy_id ≡ manual) same m)
            (subst (λ q. q.requested_by_user_id ≡ none) same u)
            (subst (λ q. exists (is_account_book q.account_id q.stock_id) db.position_books ≡ true)
              same h)
            null_where side in
        cc (conflict, b.booked)

-- The numbers that the texts of a book stand for.
pub record BookReads (b : PositionBook) (qty cost average : ℕ) : Type 0 where
  pub qty_reads : decimal_to_scaled (text b.quantity) 8 ≡ some (pos qty)
  pub cost_reads : decimal_to_scaled (text b.cost_amount) 6 ≡ some (pos cost)
  pub average_reads : decimal_to_scaled (text b.average_price) 6 ≡ some (pos average)

abbrev pub qty_after : Side → ℕ → ℕ → ℕ
qty_after Side.buy held qty = held + qty
qty_after Side.sell held qty = held - qty

abbrev pub cost_after : Side → ℕ → ℕ → ℕ → ℕ → ℕ → ℕ
cost_after Side.buy held cost average qty paid = cost + paid
cost_after Side.sell held cost average qty paid =
    if held - qty == 0 then 0 else cost - amount qty average

-- The average price of a book, 0 where nothing is held.
abbrev pub average_after : ℕ → ℕ → ℕ
average_after qty cost = if qty == 0 then 0 else price_of cost qty

next_qty_of_lem :
    (s : Side) (held qty : ℕ) → next_qty_of s (pos held) (pos qty) ≡ pos (qty_after s held qty)
unfolding next_qty_of
next_qty_of_lem Side.buy held qty = +ℤ_pos held qty
next_qty_of_lem Side.sell held qty = max_big_int-sub held qty

sold_cost_lem :
    (left cost average qty : ℕ) (price : DecimalInput)
    → decimal_to_scaled price 6 ≡ some (pos average)
    → next_cost_of Side.sell (pos cost) (pos qty) (pos 0) (pos left) price
      ≡ some (pos (if left == 0 then 0 else cost - amount qty average))
unfolding next_cost_of
sold_cost_lem zero cost average qty price e = refl
sold_cost_lem (suc left) cost average qty price e =
    rw (e, multiply_scaled-pos qty average, max_big_int-sub cost (amount qty average))
      (ground arith)

next_cost_of_lem :
    (s : Side) (held cost average qty paid : ℕ) (price : DecimalInput)
    → decimal_to_scaled price 6 ≡ some (pos average)
    → next_cost_of s (pos cost) (pos qty) (pos paid) (pos (qty_after s held qty)) price
      ≡ some (pos (cost_after s held cost average qty paid))
unfolding next_cost_of
next_cost_of_lem Side.buy held cost average qty paid price e = ap some (+ℤ_pos cost paid)
next_cost_of_lem Side.sell held cost average qty paid price e =
    sold_cost_lem (held - qty) cost average qty price e

average_after_le : (qty cost : ℕ) → average_after qty cost * qty ≤ cost * 100000000
average_after_le zero cost = omega arith
average_after_le (suc qty) cost = ground (arith, (price_of_bounds cost (suc qty) (omega arith)).0)

average_lem :
    (qty cost : ℕ)
    → (if ltb_ℤ (pos 0) (pos qty) then divide_scaled (pos cost) 6 (pos qty) 8 6 else pos 0)
      ≡ pos (average_after qty cost)
average_lem zero cost = ground arith
average_lem (suc qty) cost = ground (arith, divide_scaled-pos cost (suc qty) (omega arith))

printed :
    (n scale : ℕ)
    → 0 < scale
    → decimal_to_scaled (text (scaled_to_decimal (pos n) scale)) scale ≡ some (pos n)
printed n scale h = decimal_to_scaled-scaled_to_decimal (pos n) scale h

module _ (input : BookFill) (b : PositionBook) {held cost average qty paid : ℕ}
    (r : BookReads b held cost average)
    (q : decimal_to_scaled (text input.applied_qty) 8 ≡ some (pos qty))
    (a : decimal_to_scaled (text input.applied_amount) 6 ≡ some (pos paid)) where
  abbrev left : ℕ
  left = qty_after input.payload.side held qty

  abbrev worth : ℕ
  worth = cost_after input.payload.side held cost average qty paid

  abbrev numbers : BookNumbers
  numbers = record {
    next_qty = pos left;
    next_cost = pos worth;
    next_average = pos (average_after left worth);
  }

  numbers_lem :
      book_numbers input.payload.side
        (text b.quantity)
        (text b.cost_amount)
        (text b.average_price)
        input.applied_qty
        input.applied_amount
      ≡ some numbers
  unfolding book_numbers
  numbers_lem = rw (
    r.qty_reads,
    r.cost_reads,
    q,
    a,
    next_qty_of_lem input.payload.side held qty,
    next_cost_of_lem input.payload.side held cost average qty paid (text b.average_price)
        r.average_reads,
    average_lem left worth,
  )

  -- A booked fill: a buy adds its quantity and its amount; a sale takes its quantity out, never
  -- below zero, at the average price, and the cost is zero once nothing is held. The new average
  -- price is the cost over the quantity, cut off at its last place, so that quantity times average
  -- never exceeds the cost.
  pub book_update :
      (n : BookNumbers) × (book_numbers input.payload.side
          (text b.quantity)
          (text b.cost_amount)
          (text b.average_price)
          input.applied_qty
          input.applied_amount
        ≡ some n)
      × BookReads (booked input n b) left worth (average_after left worth)
      × (average_after left worth * left ≤ worth * 100000000)
  unfolding booked
  book_update = (
    numbers,
    numbers_lem,
    record {
      qty_reads = printed left 8 (omega arith);
      cost_reads = printed worth 6 (omega arith);
      average_reads = printed (average_after left worth) 6 (omega arith);
    },
    average_after_le left worth,
  )
