-- ===== src/Order/Store.antt =====
-- shared/persistence/order/order.repository.impl.ts, with its database attached: the `orders` table as the
-- executor and the tracker's watchdogs use it. An update stamps `updated_at`.
use trading_worker.Base.{
  ℕ, zero, suc, Bool, true, false, not, ◌&&◌, List, [], ◌∷◌, ◌++◌, Option, some, none, ltb, leb,
  ◌==◌, if◌then◌else◌, take, map, exists, sort_by, filter_by,
}
use trading_worker.Base.Text.{Text, codes, trim, is_empty}
use trading_worker.Sql.{find_first, update_where, is_null}
use trading_worker.Event.{MarketEnv}
use trading_worker.Order.{
  Order, OrderStatus, requested, submitting, cancel_requested, cancel_submitting, OrderType,
  OrderMethod, Brokerage, status_eq, status_in,
}

unfoldable pub find_order_by_id : ℕ → List Order → Option Order
unfolding find_first
find_order_by_id id orders = if id == 0 then none else find_first (λ o. o.id == id) orders

abbrev pub set_status : ℕ → OrderStatus → Order → Order
set_status now status o = record o { status = status; updated_at = now }

-- What the caller is given: the row as it was read, under its new status.
abbrev pub claimed : OrderStatus → Order → Order
claimed status o = record o { status = status }

abbrev pub has_order : List Order → ℕ → Bool
has_order picked id = exists (λ o. o.id == id) picked

-- The select of a claim: `locked` says which rows another transaction holds, which SKIP LOCKED passes
-- over.
unfoldable pub pick_orders : (ℕ → Bool) → OrderStatus → ℕ → List Order → List Order
unfolding sort_by filter_by
pick_orders locked from batch_size orders = take batch_size (
    sort_by (λ a b. leb a.id b.id)
      (filter_by (λ o. status_eq o.status from && not (locked o.id)) orders))

unfoldable pub claim_picked : ℕ → OrderStatus → List Order → List Order → List Order × List Order
unfolding update_where
claim_picked now to [] orders = ([], orders)
claim_picked now to (o ∷ picked) orders = (
  map (claimed to) (o ∷ picked),
  update_where (λ x. has_order (o ∷ picked) x.id) (set_status now to) orders,
)

unfoldable pub claim_batch :
    (ℕ → Bool) → ℕ → OrderStatus → OrderStatus → ℕ → List Order → List Order × List Order
unfolding claim_picked pick_orders
claim_batch locked now from to zero orders = ([], orders)
claim_batch locked now from to (suc n) orders =
    claim_picked now to (pick_orders locked from (suc n) orders) orders

unfoldable pub find_requested_batch : (ℕ → Bool) → ℕ → ℕ → List Order → List Order × List Order
unfolding claim_batch
find_requested_batch locked now = claim_batch locked now requested submitting

unfoldable pub find_cancelling_batch : (ℕ → Bool) → ℕ → ℕ → List Order → List Order × List Order
unfolding claim_batch
find_cancelling_batch locked now = claim_batch locked now cancel_requested cancel_submitting

unfoldable pub claim_one : ℕ → List Order → Option Order → Option Order × List Order
unfolding update_where
claim_one now orders none = (none, orders)
claim_one now orders (some picked) = (
  some (claimed submitting picked),
  update_where (λ o. o.id == picked.id) (set_status now submitting) orders,
)

unfoldable pub find_and_claim_requested_by_id :
    (ℕ → Bool) → ℕ → ℕ → List Order → Option Order × List Order
unfolding claim_one find_first
find_and_claim_requested_by_id locked now zero orders = (none, orders)
find_and_claim_requested_by_id locked now (suc id) orders = claim_one now orders (
    find_first (λ o. (o.id == suc id) && (status_eq o.status requested && not (locked o.id)))
      orders)

-- `UPDATE … WHERE`, and whether it affected a row.
unfoldable pub update_orders : (Order → Bool) → (Order → Order) → List Order → Bool × List Order
unfolding update_where
update_orders p f orders = (exists p orders, update_where p f orders)

-- `fields` assigns the columns that are given; the update stamps the row.
abbrev pub stamped : ℕ → (Order → Order) → Order → Order
stamped now fields o = record (fields o) { updated_at = now }

unfoldable pub update_status : ℕ → ℕ → (Order → Order) → List Order → Bool × List Order
unfolding update_orders
update_status now id fields = update_orders (λ o. o.id == id) (stamped now fields)

unfoldable pub update_status_from_expected :
    ℕ → ℕ → List OrderStatus → (Order → Order) → List Order → Bool × List Order
unfolding update_orders
update_status_from_expected now id [] fields orders = (false, orders)
update_status_from_expected now id (s ∷ expected) fields orders =
    update_orders (λ o. (o.id == id) && status_in o.status (s ∷ expected)) (stamped now fields)
      orders

abbrev pub set_broker_order_id : ℕ → Text → Order → Order
set_broker_order_id now broker_order_id o = record o {
  broker_order_id = some broker_order_id;
  external_order_id = some broker_order_id;
  updated_at = now;
}

-- `!this.repo || expectedStatuses.length === 0 || !brokerOrderId.trim()`, the database attached.
abbrev pub no_attach : List OrderStatus → Text → Bool
no_attach [] broker_order_id = true
no_attach (s ∷ expected) broker_order_id = is_empty (trim broker_order_id)

unfoldable pub attach_broker_order_id_from_expected :
    ℕ → ℕ → List OrderStatus → Text → List Order → Bool × List Order
unfolding update_orders trim
attach_broker_order_id_from_expected now id expected broker_order_id orders =
    if no_attach expected broker_order_id
    then (false, orders)
    else update_orders
        (λ o.
          (o.id == id)
          && (status_in o.status expected
              && (is_null o.broker_order_id && is_null o.external_order_id)))
        (set_broker_order_id now broker_order_id) orders

unfoldable pub find_stale_orders : List OrderStatus → ℕ → ℕ → List Order → List Order
unfolding sort_by filter_by
find_stale_orders [] older_than limit orders = []
find_stale_orders (s ∷ statuses) older_than limit orders = take limit (
    sort_by (λ a b. leb a.updated_at b.updated_at)
      (filter_by (λ o. status_in o.status (s ∷ statuses) && ltb o.updated_at older_than) orders))

pub record CreateDecisionOrderInput : Type 0 where
  pub account_id : ℕ
  pub decision_id : ℕ
  pub account_strategy_id : Option ℕ
  pub strategy_id : Option ℕ
  pub stock_id : ℕ
  pub client_order_id : Option Text
  pub brokerage : Option Brokerage
  pub market_env : Option MarketEnv
  pub account_external_id : Option Text
  pub order_type : OrderType
  pub order_method : OrderMethod
  pub status : OrderStatus
  pub quantity : Text
  pub price : Option Text
  pub order_amount : Option Text
  pub is_paper : Bool
  pub requested_at : Option ℕ
  pub api_credential_id : Option ℕ
  pub requested_by_user_id : Option ℕ

-- The row saved, and the table with it; `id` is the next of the sequence.
unfoldable pub create_decision_order :
    ℕ → ℕ → CreateDecisionOrderInput → List Order → Order × List Order
create_decision_order now id input orders =
    let saved : Order = record {
      id = id;
      account_id = input.account_id;
      decision_id = some input.decision_id;
      account_strategy_id = input.account_strategy_id;
      strategy_id = input.strategy_id;
      stock_id = input.stock_id;
      external_order_id = none;
      client_order_id = input.client_order_id;
      requested_by_user_id = input.requested_by_user_id;
      api_credential_id = input.api_credential_id;
      brokerage = input.brokerage;
      market_env = input.market_env;
      account_external_id = input.account_external_id;
      broker_order_id = none;
      order_type = input.order_type;
      order_method = input.order_method;
      status = input.status;
      quantity = input.quantity;
      filled_quantity = codes "0";
      remaining_quantity = some input.quantity;
      price = input.price;
      average_fill_price = none;
      order_amount = input.order_amount;
      filled_amount = none;
      fee_amount = none;
      tax_amount = none;
      is_paper = input.is_paper;
      requested_at = input.requested_at;
      accepted_at = none;
      filled_at = none;
      cancel_requested_at = none;
      cancelled_at = none;
      failed_at = none;
      failure_reason = none;
      request_symbol = none;
      raw_response = none;
      created_at = now;
      updated_at = now;
    } in
    (saved, orders ++ saved ∷ [])
