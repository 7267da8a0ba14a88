-- ===== src/Executor/Cancelling.antt =====
-- pickup-cancelling-orders.usecase.ts: `processOne`, `cancelClaimedOrder`, `failCancelClaim` and
-- `waitForBrokerHandle`.
use trading_worker.Base.{ℕ, zero, suc, ◌+◌, List, [], ◌∷◌, Option, some, none, ltb, if◌then◌else◌}
use trading_worker.Base.Text.{Text, codes, coalesce, coalesce_null, trim}
use trading_worker.Order.{Order, cancel_submitting, cancelled, failed, status_eq}
use trading_worker.Order.Store.{update_status_from_expected, find_order_by_id}
use trading_worker.Executor.{
  Failure, Answer, returns, throws, domain_error, positive_id, non_empty, account_external_id_of,
  failure_reason_of,
}
use mathlib.Core.Option

abbrev pub missing_broker_handle_wait_ms : ℕ
missing_broker_handle_wait_ms = 22000

abbrev pub missing_broker_handle_poll_ms : ℕ
missing_broker_handle_poll_ms = 250

-- What the broker is asked to cancel.
pub record CancelInput : Type 0 where
  pub account_id : ℕ
  pub api_credential_id : ℕ
  pub account_external_id : Text
  pub external_order_id : Text
  pub symbol : Option Text
  pub quantity : Text

pub record CancelRun : Type 0 where
  pub calls : List CancelInput
  pub orders : List Order

abbrev pub set_cancelled : ℕ → Order → Order
set_cancelled now o = record o { status = cancelled; cancelled_at = some now }

abbrev pub set_cancel_failed : ℕ → Failure → Order → Order
set_cancel_failed now failure o = record o {
  status = failed;
  failed_at = some now;
  failure_reason = some (failure_reason_of failure);
}

-- The write that closes the claim, if it is still held.
unfoldable pub close_claim : ℕ → Order → (Order → Order) → List CancelInput → List Order → CancelRun
unfolding update_status_from_expected
close_claim now order fields calls orders = record {
  calls = calls;
  orders = (update_status_from_expected now order.id (cancel_submitting ∷ []) fields orders).1;
}

unfoldable pub fail_cancel_claim : ℕ → Order → Failure → List CancelInput → List Order → CancelRun
unfolding close_claim
fail_cancel_claim now order failure = close_claim now order (set_cancel_failed now failure)

unfoldable pub cancel_input : Order → Text → Text → ℕ → CancelInput
unfolding trim
cancel_input order external_order_id account credential = record {
  account_id = order.account_id;
  api_credential_id = credential;
  account_external_id = account;
  external_order_id = external_order_id;
  symbol = Option.map trim order.request_symbol;
  quantity = coalesce order.remaining_quantity order.quantity;
}

unfoldable pub on_cancel_answer : ℕ → Order → CancelInput → Answer Unit → List Order → CancelRun
unfolding close_claim fail_cancel_claim
on_cancel_answer now order input (throws failure) orders =
    fail_cancel_claim now order failure (input ∷ []) orders
on_cancel_answer now order input (returns u) orders =
    close_claim now order (set_cancelled now) (input ∷ []) orders

-- `waitForBrokerHandle`: the poll at `at` reads the table as it is then, `table at`. The clock is read
-- before each poll, which sleeps first; `fuel` bounds the polls.
abbrev pub handle_of : Order → Option Text
handle_of o = coalesce_null o.external_order_id o.broker_order_id

-- What a poll that reads the order decides: to go on, or to return.
pub data Poll : Type 0 where
  go_on : Poll
  return : Option Text → Poll

unfoldable pub poll_handle : Option Order → Poll
poll_handle none = return none
poll_handle (some current) = elim (Option.bind (handle_of current) non_empty) [
  | some handle ↦ return (some handle)
  | none ↦ if status_eq current.status cancel_submitting then go_on else return none
]

abbrev pub after_poll : Option (Option Text) → Poll → Option (Option Text)
after_poll rest go_on = rest
after_poll rest (return handle) = some handle

module _ (table : ℕ → List Order) (order_id : ℕ) where
  unfoldable pub wait_for_broker_handle : ℕ → ℕ → ℕ → Option (Option Text)
  unfolding poll_handle find_order_by_id
  wait_for_broker_handle zero now deadline = none
  wait_for_broker_handle (suc fuel) now deadline =
      let at = now + missing_broker_handle_poll_ms in
      let rest = wait_for_broker_handle fuel at deadline in
      if ltb now deadline
      then after_poll rest (poll_handle (find_order_by_id order_id (table at)))
      else some none

abbrev pub missing_account : Failure
missing_account =
    domain_error
      (codes
        "cancel order is missing accountExternalId; refusing to send internal account id to broker")
      (codes "ORDER_ACCOUNT_EXTERNAL_ID_MISSING")

abbrev pub missing_cancel_credential : Failure
missing_cancel_credential =
    domain_error (codes "cancel order is missing apiCredentialId")
      (codes "ORDER_API_CREDENTIAL_MISSING")

-- `gateway` is the vendor's `cancelOrderForAccountCredential`; `meanwhile` is what other transactions make
-- of the table while the call is on its way.
module _ (gateway : CancelInput → Answer Unit) (meanwhile : List Order → List Order) where
  unfoldable pub cancel_with : ℕ → Order → Text → Option Text → Option ℕ → List Order → CancelRun
  unfolding fail_cancel_claim on_cancel_answer cancel_input
  cancel_with now order external_order_id none credential orders =
      fail_cancel_claim now order missing_account [] orders
  cancel_with now order external_order_id (some account) none orders =
      fail_cancel_claim now order missing_cancel_credential [] orders
  cancel_with now order external_order_id (some account) (some credential) orders =
      on_cancel_answer now order (cancel_input order external_order_id account credential)
        (gateway (cancel_input order external_order_id account credential)) (meanwhile orders)

  -- With a broker handle: `locked` is the lock's own error, if it throws.
  unfoldable pub cancel_claimed_order : ℕ → Order → Text → Option Failure → List Order → CancelRun
  unfolding cancel_with account_external_id_of fail_cancel_claim
  cancel_claimed_order now order external_order_id (some failure) orders =
      fail_cancel_claim now order failure [] orders
  cancel_claimed_order now order external_order_id none orders =
      cancel_with now order external_order_id (account_external_id_of order)
        (positive_id order.api_credential_id) orders

  -- An empty handle is no handle: the claim is closed without a call.
  unfoldable pub cancel_with_handle :
      ℕ → Order → Option Failure → Option Text → List Order → CancelRun
  unfolding cancel_claimed_order close_claim
  cancel_with_handle now order locked none orders =
      close_claim now order (set_cancelled now) [] orders
  cancel_with_handle now order locked (some external_order_id) orders =
      cancel_claimed_order now order external_order_id locked orders

-- `order.externalOrderId ?? order.brokerOrderId ?? await this.waitForBrokerHandle(order.id)`
abbrev pub claimed_handle : Order → Option Text → Option Text
claimed_handle order waited = Option.bind (coalesce_null (handle_of order) waited) non_empty

-- `waited` is what `waitForBrokerHandle` returns for this order.
unfoldable pub process_cancel :
    (CancelInput → Answer Unit)
    → (List Order → List Order)
    → ℕ
    → Order
    → Option Failure
    → Option Text
    → List Order
    → CancelRun
unfolding cancel_with_handle
process_cancel gateway meanwhile now order locked waited orders =
    cancel_with_handle gateway meanwhile now order locked (claimed_handle order waited) orders
