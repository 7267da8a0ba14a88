-- ===== src/Executor/Pods.antt =====
-- The executor pods on the one table of orders: each transaction that `PickupRequestedOrdersUsecase` and
-- `PickupCancellingOrdersUsecase` commit, in whatever order the pods commit them.
use trading_worker.Base.{ℕ, Bool, List, [], ◌∷◌, ◌++◌, Option, some, none}
use trading_worker.Base.Text.{Text}
use trading_worker.Order.{Order, OrderStatus, submitting, cancel_requested, cancel_submitting}
use trading_worker.Order.Store.{
  find_requested_batch, find_and_claim_requested_by_id, find_cancelling_batch,
  update_status_from_expected, attach_broker_order_id_from_expected,
}
use trading_worker.Executor.{Failure}
use trading_worker.Executor.Placing.{set_accepted, set_failed_order, fail_status}
use trading_worker.Executor.Cancelling.{set_cancelled, set_cancel_failed}

-- The writes that close a claim.
pub data ClaimWrite : Type 0 where
  accept_order : Text → ClaimWrite
  fail_order : Failure → ClaimWrite
  cancel_order : ClaimWrite
  fail_cancel : Failure → ClaimWrite

abbrev pub expected_of : ClaimWrite → List OrderStatus
expected_of (accept_order vendor_order_id) = submitting ∷ []
expected_of (fail_order failure) = submitting ∷ []
expected_of cancel_order = cancel_submitting ∷ []
expected_of (fail_cancel failure) = cancel_submitting ∷ []

abbrev pub written : ℕ → ClaimWrite → Order → Order
written now (accept_order vendor_order_id) = set_accepted now vendor_order_id
written now (fail_order failure) = set_failed_order now (fail_status failure) failure
written now cancel_order = set_cancelled now
written now (fail_cancel failure) = set_cancel_failed now failure

-- A claim says which rows other transactions hold at its time.
pub data PodCall : Type 0 where
  requested_batch : (ℕ → Bool) → ℕ → ℕ → PodCall
  requested_one : (ℕ → Bool) → ℕ → ℕ → PodCall
  cancelling_batch : (ℕ → Bool) → ℕ → ℕ → PodCall
  close : ℕ → ℕ → ClaimWrite → PodCall
  attach : ℕ → ℕ → Text → PodCall

abbrev pub listed : Option Order → List Order
listed none = []
listed (some order) = order ∷ []

-- The orders that a call hands out to be placed, and the table after it.
unfoldable pub pod_call : PodCall → List Order → List Order × List Order
unfolding find_requested_batch find_and_claim_requested_by_id find_cancelling_batch
    update_status_from_expected attach_broker_order_id_from_expected
pod_call (requested_batch locked now batch_size) orders =
    find_requested_batch locked now batch_size orders
pod_call (requested_one locked now id) orders =
    let one = find_and_claim_requested_by_id locked now id orders in (listed one.0, one.1)
pod_call (cancelling_batch locked now batch_size) orders =
    ([], (find_cancelling_batch locked now batch_size orders).1)
pod_call (close now id write) orders =
    ([], (update_status_from_expected now id (expected_of write) (written now write) orders).1)
pod_call (attach now id vendor_order_id) orders = (
  [],
  (attach_broker_order_id_from_expected now id
      (submitting ∷ cancel_requested ∷ cancel_submitting ∷ []) vendor_order_id orders).1,
)

unfoldable pub pod_calls : List PodCall → List Order → List Order × List Order
unfolding pod_call
pod_calls [] orders = ([], orders)
pod_calls (call ∷ calls) orders =
    let step = pod_call call orders in
    let rest = pod_calls calls step.1 in (step.0 ++ rest.0, rest.1)
