-- ===== src/Executor/Calls.antt =====
-- What the pickup asks of the broker, and what it says on the bus.
use trading_worker.Base.{
  ℕ, ◌≡◌, refl, arith, Bool, true, false, ◌||◌, ◌&&◌, List, [], ◌∷◌, Option, some, none, ◌==◌,
  if◌then◌else◌, exists, All, Bool-cases, inl, inr,
}
use trading_worker.Base.Text.{Text, text_eq, text_eq_self, codes, opt_eq}
use trading_worker.Sql.{update_where}
use trading_worker.Order.{
  Order, OrderStatus, submitting, accepted, rejected, failed, status_eq, status_in,
}
use trading_worker.Order.Store.{stamped, update_orders, update_status_from_expected}
use trading_worker.Executor.{Failure, Answer, returns, throws, positive_id, account_external_id_of}
use trading_worker.Executor.Asked.{Called, fail_claimed_order_calls, on_answer_calls}
use trading_worker.Executor.Checks.{
  IsComplete, IsChecked, CredentialOf, to_place_input-IsChecked, credential_column,
}
use trading_worker.Executor.Placing.{
  PlaceInput, Placed, OrderEvent, order_placed, order_failed, fail_status, set_failed_order,
  set_accepted, failed_events, after_fail, fail_claimed_order, missing_credential, after_ack,
  on_answer, place_with, place_checked, process_one, to_place_input,
}

-- An event is true of the table: an order said to be placed is there, accepted under the broker's id; an
-- order said to have failed is there, rejected if the broker refused it, and failed otherwise.
abbrev pub IsTrue : Order → List Order → OrderEvent → Type 0
IsTrue order orders (order_placed id v) =
    (id ≡ order.id)
    × (exists (λ o. (o.id == id) && (status_eq o.status accepted && opt_eq o.broker_order_id v))
          orders
        ≡ true)
IsTrue order orders (order_failed id code message) =
    (id ≡ order.id)
    × (exists
          (λ o.
            (o.id == id)
            && status_eq o.status
                (if text_eq code (codes "VENDOR_REJECTED") then rejected else failed))
          orders
        ≡ true)

status_eq_self : (s : OrderStatus) → status_eq s s ≡ true
status_eq_self s = ground arith

exists-update_where :
    (p q : Order → Bool) (f : Order → Order)
    → ((o : Order) → p o ≡ true → q (f o) ≡ true)
    → (orders : List Order) → exists p orders ≡ true
    → exists q (update_where p f orders) ≡ true
unfolding update_where
exists-update_where p q f k [] h = cc
exists-update_where p q f k (o ∷ orders) h = elim (Bool-cases (p o)) [
  | inl e ↦ rw (e, k o e) refl
  | inr e ↦ rw e (or_right (q o) (exists-update_where p q f k orders (rw e at h)))
]
  where
    or_right : (a : Bool) {b : Bool} → b ≡ true → (a || b) ≡ true
    or_right true e = refl
    or_right false e = e

-- The outcome of a conditional update: what it says is what it did.
from_expected_exists :
    (now id : ℕ) (claim : OrderStatus) (f : Order → Order) (q : Order → Bool)
    → ((o : Order) → (o.id == id) ≡ true → q (stamped now f o) ≡ true)
    → (orders : List Order) → (update_status_from_expected now id (claim ∷ []) f orders).0 ≡ true
    → exists q (update_status_from_expected now id (claim ∷ []) f orders).1 ≡ true
unfolding update_status_from_expected update_orders
from_expected_exists now id claim f q k orders h =
    exists-update_where (λ o. (o.id == id) && status_in o.status (claim ∷ [])) q (stamped now f)
      (λ o e. k o (ground arith)) orders h

-- A run says only what is true.
abbrev pub Truthful : Order → Placed → Type 0
Truthful order x = All (IsTrue order x.orders) x.events

module _ (now : ℕ) (order : Order) where
  after_fail-Truthful :
      (calls : List PlaceInput) (failure : Failure) (x : Bool × List Order)
      → (x.0 ≡ true
          → exists (λ o. (o.id == order.id) && status_eq o.status (fail_status failure)) x.1 ≡ true)
      → Truthful order (after_fail calls order failure x)
  after_fail-Truthful calls failure (false, orders) k = tt
  after_fail-Truthful calls failure (true, orders) k = said (account_external_id_of order)
    where
      said :
          (account : Option Text) → All (IsTrue order orders) (failed_events order failure account)
      said none = tt
      said (some account) = ((refl, k refl), tt)

  fail_claimed_order-Truthful :
      (calls : List PlaceInput) (failure : Failure) (orders : List Order)
      → Truthful order (fail_claimed_order now calls order failure orders)
  unfolding fail_claimed_order
  fail_claimed_order-Truthful calls failure orders = after_fail-Truthful calls failure _ (
      from_expected_exists now order.id submitting
        (set_failed_order now (fail_status failure) failure)
        (λ o. (o.id == order.id) && status_eq o.status (fail_status failure))
        (λ o e. rw e (status_eq_self (fail_status failure))) orders)

  after_ack-Truthful :
      (input : PlaceInput) (v : Text) (x : Bool × List Order)
      → (x.0 ≡ true
          → exists
              (λ o.
                (o.id == order.id) && (status_eq o.status accepted && opt_eq o.broker_order_id v))
              x.1
            ≡ true)
      → Truthful order (after_ack now input order v x)
  unfolding after_ack
  after_ack-Truthful input v (true, orders) k = ((refl, k refl), tt)
  after_ack-Truthful input v (false, orders) k = tt

  on_answer-Truthful :
      (input : PlaceInput) (answer : Answer Text) (orders : List Order)
      → Truthful order (on_answer now input order answer orders)
  unfolding on_answer
  on_answer-Truthful input (throws failure) orders =
      fail_claimed_order-Truthful (input ∷ []) failure orders
  on_answer-Truthful input (returns v) orders = after_ack-Truthful input v _ (
      from_expected_exists now order.id submitting (set_accepted now v)
        (λ o. (o.id == order.id) && (status_eq o.status accepted && opt_eq o.broker_order_id v))
        (λ o e. rw e (text_eq_self v)) orders)

  module _ (id_text : ℕ → Text) (gateway : ℕ → ℕ → PlaceInput → Answer Text)
      (meanwhile : List Order → List Order) where
    place_with-Truthful :
        (input : PlaceInput) (credential : Option ℕ) (orders : List Order)
        → Truthful order (place_with id_text gateway meanwhile now order input credential orders)
    unfolding place_with
    place_with-Truthful input none orders = fail_claimed_order-Truthful [] missing_credential orders
    place_with-Truthful input (some c) orders =
        on_answer-Truthful input (gateway order.account_id c input) (meanwhile orders)

    place_checked-Truthful :
        (input : Answer PlaceInput) (orders : List Order)
        → Truthful order (place_checked id_text gateway meanwhile now order input orders)
    unfolding place_checked
    place_checked-Truthful (throws failure) orders = fail_claimed_order-Truthful [] failure orders
    place_checked-Truthful (returns input) orders =
        place_with-Truthful input (positive_id order.api_credential_id) orders

    -- Whatever the lock, the checks and the broker do, and whatever others write while the call is on its
    -- way, an event produced by `processOne` is true of the table that it leaves: a placed order is there,
    -- accepted under the broker's id, and a failed one is there, rejected exactly if the code of the error is
    -- VENDOR_REJECTED.
    pub process_one-Truthful :
        (locked : Option Failure) (orders : List Order)
        → Truthful order (process_one id_text gateway meanwhile now order locked orders)
    unfolding process_one
    process_one-Truthful (some failure) orders = fail_claimed_order-Truthful [] failure orders
    process_one-Truthful none orders = place_checked-Truthful (to_place_input id_text order) orders

-- What is asked of the broker.
module _ (id_text : ℕ → Text) (gateway : ℕ → ℕ → PlaceInput → Answer Text)
    (meanwhile : List Order → List Order) (now : ℕ) (order : Order) where
  place_with-Called :
      (input : PlaceInput) (credential : Option ℕ) (orders : List Order)
      → IsComplete id_text order input
      → CredentialOf order.api_credential_id credential
      → Called id_text order none
          (place_with id_text gateway meanwhile now order input credential orders).calls
  unfolding place_with
  place_with-Called input none orders e c =
      inl (fail_claimed_order_calls now [] order missing_credential orders, inr (inr c))
  place_with-Called input (some k) orders e c = inr (
    input,
    on_answer_calls now input order (gateway order.account_id k input) (meanwhile orders),
    refl,
    e,
    c,
  )

  place_checked-Called :
      (answer : Answer PlaceInput) (orders : List Order)
      → IsChecked id_text order answer
      → Called id_text order none
          (place_checked id_text gateway meanwhile now order answer orders).calls
  unfolding place_checked
  place_checked-Called (throws failure) orders e =
      inl (fail_claimed_order_calls now [] order failure orders, inr (inl e))
  place_checked-Called (returns input) orders e =
      place_with-Called input (positive_id order.api_credential_id) orders e
        (credential_column order.api_credential_id)

  -- `processOne` asks the broker at most once. If it asks, it holds the lock, the order has an external
  -- account and a symbol that are not blank, which are what is asked for once trimmed, and a credential whose
  -- id is not 0; side, quantity and price are the order's, a limit order is placed as one and every other at
  -- the market, and the client id is the order's own or `order-` and its number. If it does not ask, the lock
  -- has thrown, or the account or the symbol is null or blank, or the credential is null or 0.
  pub process_one-Called :
      (locked : Option Failure) (orders : List Order)
      → Called id_text order locked
          (process_one id_text gateway meanwhile now order locked orders).calls
  unfolding process_one
  process_one-Called (some failure) orders =
      inl (fail_claimed_order_calls now [] order failure orders, inl (failure, refl))
  process_one-Called none orders =
      place_checked-Called (to_place_input id_text order) orders
        (to_place_input-IsChecked id_text order)
