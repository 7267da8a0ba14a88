-- ===== src/Executor/Closing.antt =====
-- What a pickup leaves of the order it has claimed: `placeClaimedOrder` and the cancel worker.
use trading_worker.Base.{
  ℕ, ◌≡◌, refl, arith, Bool, true, false, ◌&&◌, List, [], ◌∷◌, Option, some, none, ◌==◌, All,
  Bool-cases, inl, inr,
}
use trading_worker.Base.Text.{Text, text_eq, codes}
use trading_worker.Sql.{is_null}
use trading_worker.Sql.Rows.{All-update_where, All-always}
use trading_worker.Order.{
  Order, OrderStatus, submitting, cancel_requested, cancel_submitting, status_eq, status_in,
}
use trading_worker.Order.Store.{
  stamped, update_orders, update_status_from_expected, attach_broker_order_id_from_expected,
  set_broker_order_id, no_attach,
}
use trading_worker.Executor.{Failure, Answer, returns, throws, positive_id, account_external_id_of}
use trading_worker.Executor.Placing.{
  PlaceInput, fail_status, error_code, set_failed_order, set_accepted, after_fail,
  fail_claimed_order, missing_credential, after_ack, on_answer, place_with, place_checked,
  process_one, to_place_input,
}
use trading_worker.Executor.Cancelling.{
  CancelInput, set_cancelled, set_cancel_failed, close_claim, fail_cancel_claim, missing_account,
  missing_cancel_credential, cancel_input, on_cancel_answer, cancel_with, cancel_claimed_order,
  cancel_with_handle, process_cancel, claimed_handle,
}

-- The order is not left in the status of a claim.
abbrev pub Closed : OrderStatus → ℕ → Order → Type 0
Closed claim id o = (o.id == id) ≡ true → status_eq o.status claim ≡ false

from_expected-Closed :
    (now id : ℕ) (claim : OrderStatus) (f : Order → Order)
    → ((o : Order) → status_eq (f o).status claim ≡ false)
    → (orders : List Order)
    → All (Closed claim id) (update_status_from_expected now id (claim ∷ []) f orders).1
unfolding update_status_from_expected update_orders status_in
from_expected-Closed now id claim f k orders =
    All-update_where {0, 0, 0} (λ _. Unit) (Closed claim id)
      (λ o. (o.id == id) && status_in o.status (claim ∷ [])) (stamped now f) (λ o _ _ _. k o)
      (λ o miss _ hit. not_in o hit miss) orders (All-always (λ _. Unit) (λ _. tt) orders)
  where
    not_in :
        (o : Order)
        → (o.id == id) ≡ true
        → ((o.id == id) && status_in o.status (claim ∷ [])) ≡ false
        → status_eq o.status claim ≡ false
    not_in o hit miss = ground arith

attach-Closed :
    (now id : ℕ) (expected : List OrderStatus) (v : Text) (claim : OrderStatus)
    (orders : List Order)
    → All (Closed claim id) orders
    → All (Closed claim id) (attach_broker_order_id_from_expected now id expected v orders).1
unfolding attach_broker_order_id_from_expected update_orders
attach-Closed now id expected v claim orders h = elim (Bool-cases (no_attach expected v)) [
  | inl e ↦ rw e h
  | inr e ↦ rw e (
      All-update_where (Closed claim id) (Closed claim id)
        (λ o.
          (o.id == id)
          && (status_in o.status expected
              && (is_null o.broker_order_id && is_null o.external_order_id)))
        (set_broker_order_id now v) (λ o _ c. c) (λ o _ c. c) orders h)
]

fail_status_not_submitting :
    (failure : Failure) → status_eq (fail_status failure) submitting ≡ false
fail_status_not_submitting failure =
    elim (Bool-cases (text_eq (error_code failure) (codes "VENDOR_REJECTED"))) [
      | inl t ↦ rw t refl
      | inr f ↦ rw f refl
    ]

after_fail_orders :
    (calls : List PlaceInput) (order : Order) (failure : Failure) (x : Bool × List Order)
    → (after_fail calls order failure x).orders ≡ x.1
after_fail_orders calls order failure (false, orders) = refl
after_fail_orders calls order failure (true, orders) = refl

module _ (now : ℕ) (order : Order) where
  fail_claimed_order-Closed :
      (calls : List PlaceInput) (failure : Failure) (orders : List Order)
      → All (Closed submitting order.id) (fail_claimed_order now calls order failure orders).orders
  unfolding fail_claimed_order
  fail_claimed_order-Closed calls failure orders =
      rw
        (after_fail_orders calls order failure (
          update_status_from_expected now order.id (submitting ∷ [])
            (set_failed_order now (fail_status failure) failure) orders))
        (from_expected-Closed now order.id submitting
          (set_failed_order now (fail_status failure) failure)
          (λ o. fail_status_not_submitting failure) orders)

  after_ack-Closed :
      (input : PlaceInput) (v : Text) (x : Bool × List Order)
      → All (Closed submitting order.id) x.1
      → All (Closed submitting order.id) (after_ack now input order v x).orders
  unfolding after_ack
  after_ack-Closed input v (true, orders) h = h
  after_ack-Closed input v (false, orders) h =
      attach-Closed now order.id (submitting ∷ cancel_requested ∷ cancel_submitting ∷ []) v
        submitting orders h

  on_answer-Closed :
      (input : PlaceInput) (answer : Answer Text) (orders : List Order)
      → All (Closed submitting order.id) (on_answer now input order answer orders).orders
  unfolding on_answer
  on_answer-Closed input (throws failure) orders =
      fail_claimed_order-Closed (input ∷ []) failure orders
  on_answer-Closed input (returns v) orders =
      after_ack-Closed input v _
        (from_expected-Closed now order.id submitting (set_accepted now v) (λ o. refl) orders)

  module _ (id_text : ℕ → Text) (gateway : ℕ → ℕ → PlaceInput → Answer Text)
      (meanwhile : List Order → List Order) where
    place_with-Closed :
        (input : PlaceInput) (credential : Option ℕ) (orders : List Order)
        → All
            (Closed submitting order.id)
            (place_with id_text gateway meanwhile now order input credential orders).orders
    unfolding place_with
    place_with-Closed input none orders = fail_claimed_order-Closed [] missing_credential orders
    place_with-Closed input (some c) orders =
        on_answer-Closed input (gateway order.account_id c input) (meanwhile orders)

    place_checked-Closed :
        (input : Answer PlaceInput) (orders : List Order)
        → All
            (Closed submitting order.id)
            (place_checked id_text gateway meanwhile now order input orders).orders
    unfolding place_checked
    place_checked-Closed (throws failure) orders = fail_claimed_order-Closed [] failure orders
    place_checked-Closed (returns input) orders =
        place_with-Closed input (positive_id order.api_credential_id) orders

    -- After `processOne` no row of the order is left SUBMITTING: whether the lock, the checks or the broker
    -- throw, whatever the broker answers, and whatever others write while the call is on its way.
    pub process_one-Closed :
        (locked : Option Failure) (orders : List Order)
        → All
            (Closed submitting order.id)
            (process_one id_text gateway meanwhile now order locked orders).orders
    unfolding process_one
    process_one-Closed (some failure) orders = fail_claimed_order-Closed [] failure orders
    process_one-Closed none orders = place_checked-Closed (to_place_input id_text order) orders

-- The same of a cancellation.
module _ (now : ℕ) (order : Order) where
  close_claim-Closed :
      (f : Order → Order)
      → ((o : Order) → status_eq (f o).status cancel_submitting ≡ false)
      → (calls : List CancelInput) (orders : List Order)
      → All (Closed cancel_submitting order.id) (close_claim now order f calls orders).orders
  unfolding close_claim
  close_claim-Closed f k calls orders =
      from_expected-Closed now order.id cancel_submitting f k orders

  fail_cancel_claim-Closed :
      (failure : Failure) (calls : List CancelInput) (orders : List Order)
      → All
          (Closed cancel_submitting order.id)
          (fail_cancel_claim now order failure calls orders).orders
  unfolding fail_cancel_claim
  fail_cancel_claim-Closed failure calls orders =
      close_claim-Closed (set_cancel_failed now failure) (λ o. refl) calls orders

  on_cancel_answer-Closed :
      (input : CancelInput) (answer : Answer Unit) (orders : List Order)
      → All
          (Closed cancel_submitting order.id)
          (on_cancel_answer now order input answer orders).orders
  unfolding on_cancel_answer
  on_cancel_answer-Closed input (throws failure) orders =
      fail_cancel_claim-Closed failure (input ∷ []) orders
  on_cancel_answer-Closed input (returns u) orders =
      close_claim-Closed (set_cancelled now) (λ o. refl) (input ∷ []) orders

  module _ (gateway : CancelInput → Answer Unit) (meanwhile : List Order → List Order) where
    cancel_with-Closed :
        (handle : Text) (account : Option Text) (credential : Option ℕ) (orders : List Order)
        → All
            (Closed cancel_submitting order.id)
            (cancel_with gateway meanwhile now order handle account credential orders).orders
    unfolding cancel_with
    cancel_with-Closed handle none credential orders =
        fail_cancel_claim-Closed missing_account [] orders
    cancel_with-Closed handle (some account) none orders =
        fail_cancel_claim-Closed missing_cancel_credential [] orders
    cancel_with-Closed handle (some account) (some c) orders =
        let input = cancel_input order handle account c in
        on_cancel_answer-Closed input (gateway input) (meanwhile orders)

    cancel_claimed_order-Closed :
        (handle : Text) (locked : Option Failure) (orders : List Order)
        → All
            (Closed cancel_submitting order.id)
            (cancel_claimed_order gateway meanwhile now order handle locked orders).orders
    unfolding cancel_claimed_order
    cancel_claimed_order-Closed handle (some failure) orders =
        fail_cancel_claim-Closed failure [] orders
    cancel_claimed_order-Closed handle none orders =
        cancel_with-Closed handle (account_external_id_of order)
          (positive_id order.api_credential_id) orders

    cancel_with_handle-Closed :
        (locked : Option Failure) (handle : Option Text) (orders : List Order)
        → All
            (Closed cancel_submitting order.id)
            (cancel_with_handle gateway meanwhile now order locked handle orders).orders
    unfolding cancel_with_handle
    cancel_with_handle-Closed locked none orders =
        close_claim-Closed (set_cancelled now) (λ o. refl) [] orders
    cancel_with_handle-Closed locked (some handle) orders =
        cancel_claimed_order-Closed handle locked orders

    -- After `processOne` of a cancellation no row of the order is left CANCEL_SUBMITTING, with a broker
    -- handle or without one, whatever throws and whatever others write meanwhile.
    pub process_cancel-Closed :
        (locked : Option Failure) (waited : Option Text) (orders : List Order)
        → All
            (Closed cancel_submitting order.id)
            (process_cancel gateway meanwhile now order locked waited orders).orders
    unfolding process_cancel
    process_cancel-Closed locked waited orders =
        cancel_with_handle-Closed locked (claimed_handle order waited) orders
