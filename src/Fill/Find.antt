-- ===== src/Fill/Find.antt =====
-- execution-persistence.service.ts: `findLockedOrderForFill`.
use trading_worker.Base.{Bool, List, [], ◌∷◌, Option, none, some, ◌||◌, ◌&&◌, if◌then◌else◌, ltb}
use trading_worker.Base.Text.{Text, opt_eq, trim}
use trading_worker.Event.{OrderFilledPayload}
use trading_worker.Order.{Order}

-- The one of two rows that `ORDER BY id DESC` puts first.
unfoldable pub newer : Order → Option Order → Option Order
newer o none = some o
newer o (some r) = if ltb o.id r.id then some r else some o

-- `ORDER BY id DESC LIMIT 1` over the rows that pass a test.
unfoldable pub latest : (Order → Bool) → List Order → Option Order
unfolding newer
latest p [] = none
latest p (o ∷ os) = let rest = latest p os in if p o then newer o rest else rest

abbrev pub is_vendor_order : Text → Text → Order → Bool
is_vendor_order account vendor o =
    opt_eq o.account_external_id account
    && (opt_eq o.external_order_id vendor || opt_eq o.broker_order_id vendor)

abbrev pub is_client_order : Text → Text → Order → Bool
is_client_order account client o =
    opt_eq o.account_external_id account && opt_eq o.client_order_id client

unfoldable pub find_order_by : Text → Text → Text → List Order → Option Order
find_order_by account [] [] orders = none
find_order_by account [] (c ∷ client) orders = latest (is_client_order account (c ∷ client)) orders
find_order_by account (v ∷ vendor) client orders =
    latest (is_vendor_order account (v ∷ vendor)) orders

unfoldable pub find_order_for_fill : OrderFilledPayload → List Order → Option Order
unfolding find_order_by trim latest
find_order_for_fill payload orders =
    find_order_by (trim payload.account_id) (trim payload.vendor_order_id)
      (trim payload.client_order_id) orders
