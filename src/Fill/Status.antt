-- ===== src/Fill/Status.antt =====
-- Which status and which anomaly a fill gives its order.
use trading_worker.Base.{ℕ, ◌+◌, ◌-◌, ◌<◌, ◌≡◌, ◌⊎◌, arith, Option, some, none, true, false}
use trading_worker.Base.Int.{pos}
use trading_worker.Event.{OrderFilledPayload}
use trading_worker.Order.{Order, OrderStatus, partially_filled, filled, Anomaly, terminal_fill}
use trading_worker.Fill.{
  FillAggregate, is_terminal, is_cancelling, resolve_fill_status, fill_anomaly, aggregate_of,
  fill_numbers, build_fill_aggregate,
}
use trading_worker.Fill.Quantity.{
  Reads, PayloadReads, applied, build_fill_aggregate_lem, aggregate, remaining_qty_lem,
  applied_qty_lem,
}

-- The status after a fill, on every branch: a closed order stays closed; an open one is filled
-- exactly when nothing remains, keeps a cancellation that is under way, and else is partly filled.
pub record StatusAfter (before after : OrderStatus) (remaining : ℕ) : Type 0 where
  pub closed : is_terminal before ≡ true → after ≡ before
  pub complete : is_terminal before ≡ false → remaining ≡ 0 → after ≡ filled
  pub cancelling :
      is_terminal before ≡ false → is_cancelling before ≡ true → 0 < remaining → after ≡ before
  pub partial :
      is_terminal before ≡ false
      → is_cancelling before ≡ false
      → 0 < remaining
      → after ≡ partially_filled

resolve_fill_status_lem :
    (s : OrderStatus) (ordered remaining : ℕ)
    → 0 < ordered
    → StatusAfter s (resolve_fill_status s (pos ordered) (pos remaining)) remaining
unfolding resolve_fill_status
resolve_fill_status_lem s ordered remaining h = ground arith

fill_anomaly_lem :
    (s : OrderStatus) (ordered qty : ℕ)
    → 0 < ordered
    → 0 < qty
    → ((is_terminal s ≡ true) × (fill_anomaly s (pos ordered) (pos qty) ≡ some (terminal_fill s)))
      ⊎ ((is_terminal s ≡ false) × (fill_anomaly s (pos ordered) (pos qty) ≡ none))
unfolding fill_anomaly
fill_anomaly_lem s ordered qty h k = ground arith

abbrev pub AnomalyAfter : OrderStatus → Option Anomaly → Type 0
AnomalyAfter s anomaly =
    ((is_terminal s ≡ true) × (anomaly ≡ some (terminal_fill s)))
    ⊎ ((is_terminal s ≡ false) × (anomaly ≡ none))

-- A fill of an order with room left: the status after it is as `StatusAfter` says of what remains,
-- and the aggregate carries an anomaly exactly when the order was closed before, naming its status.
pub fill_status :
    (o : Order) (p : OrderFilledPayload) {ordered before paid qty price : ℕ}
    → Reads o ordered before paid
    → PayloadReads p qty price
    → before < ordered
    → (a : FillAggregate) × (build_fill_aggregate o p ≡ some (some a))
      × StatusAfter o.status a.fields.status (ordered - (before + applied ordered before qty))
      × AnomalyAfter o.status a.anomaly
unfolding aggregate_of fill_numbers
fill_status o p {ordered} {before} {paid} {qty} {price} r pr room =
    (aggregate r pr, build_fill_aggregate_lem r pr, status, anomaly)
  where
    status :
        StatusAfter o.status
          (aggregate r pr).fields.status
          (ordered - (before + applied ordered before qty))
    status =
        rw (remaining_qty_lem qty price ordered before paid r.fits)
          (resolve_fill_status_lem o.status ordered _ (omega arith))

    anomaly : AnomalyAfter o.status (aggregate r pr).anomaly
    anomaly =
        let q = pr.positive in
        rw (applied_qty_lem qty price ordered before paid r.fits) (
          fill_anomaly_lem o.status ordered (applied ordered before qty) (omega arith)
            (omega arith))
