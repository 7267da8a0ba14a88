-- ===== src/Executor/Handed.antt =====
-- The orders that the pods' claims hand out to be placed.
use trading_worker.Base.{
  ℕ, zero, suc, refl, arith, Bool, not, ◌&&◌, List, [], ◌∷◌, ◌==◌, All, Bool-cases, inl, inr,
}
use mathlib.Core.Bool.{false≢true}
use trading_worker.Base.Text.{Text}
use trading_worker.Sql.{find_first, is_null}
use trading_worker.Sql.Rows.{All-concat, All-always}
use trading_worker.Order.{
  Order, UniqueIds, OrderStatus, requested, submitting, cancel_requested, cancel_submitting,
  status_eq, status_in,
}
use trading_worker.Order.Ids.{UniqueIds-append}
use trading_worker.Order.Store.{
  stamped, find_and_claim_requested_by_id, find_requested_batch, find_cancelling_batch,
  update_orders, update_status_from_expected, attach_broker_order_id_from_expected,
  set_broker_order_id, no_attach,
}
use trading_worker.Order.Claims.{
  Gone, NotIn, Gone-NotIn, claim_batch-UniqueIds, claim_batch-NotIn, claim_batch-Gone,
  claim_batch-Taken,
}
use trading_worker.Executor.Pods.{
  expected_of, written, PodCall, requested_batch, requested_one, cancelling_batch, close, attach,
  listed, pod_call, pod_calls,
}
use trading_worker.Executor.Keeping.{
  Closes, written-Closes, update_orders-Gone, update_orders-UniqueIds, find_first-All,
  claim_one-NotIn, claim_one-Gone, claim_one-Taken, claim_one-UniqueIds,
}

-- What holds of a call, whatever the orders handed out before.
record Sound (orders : List Order) (x : List Order × List Order) : Type 0 where
  unique : UniqueIds x.0 × UniqueIds x.1
  taken : All (Gone requested x.0) x.1
  kept :
      (given : List Order)
      → All (Gone requested given) orders
      → All (Gone requested given) x.1 × All (NotIn given) x.0

nothing_taken : (orders : List Order) → All (Gone requested []) orders
nothing_taken orders = All-always (Gone requested []) (λ o e. absurd (false≢true e)) orders

close-Sound :
    (f : Order → Order) (closes : Closes f) (p : Order → Bool) (orders : List Order)
    → UniqueIds orders
    → Sound orders ([], (update_orders p f orders).1)
close-Sound f closes p orders u = record {
  unique = (tt, update_orders-UniqueIds [] f closes p orders u);
  taken = nothing_taken _;
  kept = λ given h. (update_orders-Gone given f closes p orders h, tt);
}

untouched-Sound : (orders : List Order) → UniqueIds orders → Sound orders ([], orders)
untouched-Sound orders u = record {
  unique = (tt, u);
  taken = nothing_taken orders;
  kept = λ given h. (h, tt);
}

from_expected-Sound :
    (now id : ℕ) (expected : List OrderStatus) (f : Order → Order)
    → Closes (stamped now f)
    → (orders : List Order) → UniqueIds orders
    → Sound orders ([], (update_status_from_expected now id expected f orders).1)
unfolding update_status_from_expected
from_expected-Sound now id [] f closes orders u = untouched-Sound orders u
from_expected-Sound now id (s ∷ expected) f closes orders u =
    close-Sound (stamped now f) closes (λ o. (o.id == id) && status_in o.status (s ∷ expected))
      orders u

attach-Sound :
    (now id : ℕ) (expected : List OrderStatus) (v : Text) (orders : List Order)
    → UniqueIds orders
    → Sound orders ([], (attach_broker_order_id_from_expected now id expected v orders).1)
unfolding attach_broker_order_id_from_expected
attach-Sound now id expected v orders u = elim (Bool-cases (no_attach expected v)) [
  | inl e ↦ rw e (untouched-Sound orders u)
  | inr e ↦ rw e (
      close-Sound (set_broker_order_id now v) (λ o. (refl, λ t. t))
        (λ o.
          (o.id == id)
          && (status_in o.status expected
              && (is_null o.broker_order_id && is_null o.external_order_id)))
        orders u)
]

requested_one-Sound :
    (locked : ℕ → Bool) (now id : ℕ) (orders : List Order)
    → UniqueIds orders
    → let one = find_and_claim_requested_by_id locked now id orders in
      Sound orders (listed one.0, one.1)
unfolding find_and_claim_requested_by_id
requested_one-Sound locked now zero orders u = untouched-Sound orders u
requested_one-Sound locked now (suc id) orders u =
    let p : Order → Bool =
      λ o. (o.id == suc id) && (status_eq o.status requested && not (locked o.id)) in
    record {
      unique = claim_one-UniqueIds now orders (find_first p orders) u;
      taken = claim_one-Taken now orders (find_first p orders);
      kept = λ given h. (
        claim_one-Gone now orders given (find_first p orders) h,
        claim_one-NotIn now orders given (find_first p orders) (
            find_first-All (Gone requested given) (NotIn given) p
              (λ o e g. Gone-NotIn given requested o (ground arith) g) orders h),
      );
    }

pod_call-Sound :
    (call : PodCall) (orders : List Order) → UniqueIds orders → Sound orders (pod_call call orders)
unfolding pod_call find_requested_batch find_cancelling_batch
pod_call-Sound (requested_batch locked now n) orders u = record {
  unique = claim_batch-UniqueIds locked now requested submitting n orders u;
  taken = claim_batch-Taken locked now requested submitting requested refl n orders;
  kept = λ given h. (
    claim_batch-Gone locked now requested submitting requested refl given n orders h,
    claim_batch-NotIn locked now requested submitting given n orders h,
  );
}
pod_call-Sound (requested_one locked now id) orders u = requested_one-Sound locked now id orders u
pod_call-Sound (cancelling_batch locked now n) orders u = record {
  unique = (tt, (claim_batch-UniqueIds locked now cancel_requested cancel_submitting n orders u).1);
  taken = nothing_taken _;
  kept = λ given h. (
    claim_batch-Gone locked now cancel_requested cancel_submitting requested refl given n orders h,
    tt,
  );
}
pod_call-Sound (close now id w) orders u =
    from_expected-Sound now id (expected_of w) (written now w) (written-Closes now w) orders u
pod_call-Sound (attach now id v) orders u =
    attach-Sound now id (submitting ∷ cancel_requested ∷ cancel_submitting ∷ []) v orders u

-- An order that is gone is handed out by no later call.
pod_calls-NotIn :
    (calls : List PodCall) (given orders : List Order)
    → UniqueIds orders
    → All (Gone requested given) orders
    → All (NotIn given) (pod_calls calls orders).0
unfolding pod_calls
pod_calls-NotIn [] given orders u h = tt
pod_calls-NotIn (call ∷ calls) given orders u h =
    let s = pod_call-Sound call orders u in
    All-concat (NotIn given) (pod_call call orders).0 _ (s.kept given h).1
      (pod_calls-NotIn calls given (pod_call call orders).1 s.unique.1 (s.kept given h).0)

-- In whatever order the pods commit their transactions, and whatever rows are locked when they select: no
-- order is handed out to be placed twice, if the ids of the table are unique.
pub pod_calls-UniqueIds :
    (calls : List PodCall) (orders : List Order)
    → UniqueIds orders
    → UniqueIds (pod_calls calls orders).0
unfolding pod_calls
pod_calls-UniqueIds [] orders u = tt
pod_calls-UniqueIds (call ∷ calls) orders u =
    let s = pod_call-Sound call orders u in
    UniqueIds-append (pod_call call orders).0 _ s.unique.0
      (pod_calls-UniqueIds calls (pod_call call orders).1 s.unique.1)
      (pod_calls-NotIn calls (pod_call call orders).0 (pod_call call orders).1 s.unique.1 s.taken)
