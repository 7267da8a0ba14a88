-- ===== src/Executor/Tests.antt =====
-- The theorems of the executor at two sample orders.
use trading_worker.Base.{ℕ, ◌≡◌, refl, arith, Bool, false, List, [], ◌∷◌, some, none, All}
use trading_worker.Base.Text.{Text, codes}
use trading_worker.Order.{Order, UniqueIds, requested, submitting, cancel_submitting}
use trading_worker.Executor.{Answer, returns, throws, domain_error}
use trading_worker.Executor.Placing.{PlaceInput, process_one}
use trading_worker.Executor.Cancelling.{CancelInput, process_cancel}
use trading_worker.Executor.Pods.{
  PodCall, requested_batch, requested_one, cancelling_batch, close, accept_order, pod_calls,
}
use trading_worker.Executor.Handed.{pod_calls-UniqueIds}
use trading_worker.Executor.Closing.{Closed, process_one-Closed, process_cancel-Closed}
use trading_worker.Executor.Asked.{Called}
use trading_worker.Executor.Calls.{Truthful, process_one-Called, process_one-Truthful}
use trading_worker.Executor.Lock.{Held, LockCall, set_call, release_call, lock_calls}
use trading_worker.Executor.Exclusion.{lock_calls_exclusive}
use trading_worker.Fill.Samples.{order_of}

abbrev asked : ℕ → Order
asked id = record (order_of id (codes "V") (codes "0") (some 5)) {
  status = requested;
  external_order_id = none;
  broker_order_id = none;
}

abbrev orders : List Order
orders = asked 1 ∷ asked 2 ∷ []

abbrev unlocked : ℕ → Bool
unlocked id = false

abbrev calls : List PodCall
calls =
    requested_batch unlocked 10 1
    ∷ requested_batch unlocked 11 20
    ∷ close 12 1 (accept_order (codes "V1"))
    ∷ requested_one unlocked 13 2
    ∷ cancelling_batch unlocked 14 20
    ∷ []

pod_calls-UniqueIds_example : UniqueIds (pod_calls calls orders).0
pod_calls-UniqueIds_example = pod_calls-UniqueIds calls orders ((refl, tt), (tt, tt))

abbrev id_text : ℕ → Text
id_text id = codes "1"

abbrev claimed_order : Order
claimed_order = record (asked 1) { status = submitting }

abbrev refuses : ℕ → ℕ → PlaceInput → Answer Text
refuses account credential input =
    throws (domain_error (codes "no funds") (codes "VENDOR_REJECTED"))

abbrev accepts : ℕ → ℕ → PlaceInput → Answer Text
accepts account credential input = returns (codes "V1")

abbrev nothing : List Order → List Order
nothing orders = orders

abbrev claimed_orders : List Order
claimed_orders = claimed_order ∷ asked 2 ∷ []

process_one-Closed_example :
    All
      (Closed submitting 1)
      (process_one id_text refuses nothing 10 claimed_order none claimed_orders).orders
process_one-Closed_example =
    process_one-Closed 10 claimed_order id_text refuses nothing none claimed_orders

process_one-Called_example :
    Called id_text claimed_order none
      (process_one id_text accepts nothing 10 claimed_order none claimed_orders).calls
process_one-Called_example =
    process_one-Called id_text accepts nothing 10 claimed_order none claimed_orders

process_one-Truthful_example :
    Truthful claimed_order
      (process_one id_text accepts nothing 10 claimed_order none claimed_orders)
process_one-Truthful_example =
    process_one-Truthful 10 claimed_order id_text accepts nothing none claimed_orders

abbrev cancelling_order : Order
cancelling_order = record (asked 1) {
  status = cancel_submitting;
  external_order_id = some (codes "V1");
}

abbrev cancels : CancelInput → Answer Unit
cancels input = returns tt

process_cancel-Closed_example :
    All
      (Closed cancel_submitting 1)
      (process_cancel cancels nothing 10 cancelling_order none none (cancelling_order ∷ [])).orders
process_cancel-Closed_example =
    process_cancel-Closed 10 cancelling_order cancels nothing none none (cancelling_order ∷ [])

abbrev table : ℕ → List Order
table at = cancelling_order ∷ []

abbrev held : Held
held = record { owner = 1; expires_at = 70000 }

abbrev others : List LockCall
others = set_call 20000 2 ∷ release_call 30000 3 ∷ set_call 69999 2 ∷ []

lock_calls_exclusive_example : lock_calls others (some held) ≡ ([], some held)
lock_calls_exclusive_example =
    lock_calls_exclusive others held
      ((omega arith, refl), ((omega arith, refl), ((omega arith, refl), tt)))

abbrev never : ℕ → Bool
never at = false
