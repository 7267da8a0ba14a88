-- ===== src/Executor/Asked.antt =====
-- What a run of `processOne` has asked of the broker.
use trading_worker.Base.{ℕ, ◌≡◌, refl, Bool, true, false, List, [], ◌∷◌, Option, some, none, ◌⊎◌}
use trading_worker.Base.Text.{Text}
use trading_worker.Order.{Order}
use trading_worker.Executor.{Failure, Answer, returns, throws}
use trading_worker.Executor.Checks.{IsComplete, IsIncomplete, HasCredential}
use trading_worker.Executor.Placing.{
  PlaceInput, after_fail, fail_claimed_order, after_ack, on_answer,
}

-- A reason not to ask: the lock throws, or the account, the symbol or the credential is missing.
abbrev pub MayNotAsk : Order → Option Failure → Type 0
MayNotAsk order locked =
    ((failure : Failure) × (locked ≡ some failure))
    ⊎ (IsIncomplete order ⊎ ¬ HasCredential order.api_credential_id)

-- What was asked for an order: nothing, for a reason, or one thing.
abbrev pub Called : (ℕ → Text) → Order → Option Failure → List PlaceInput → Type 0
Called id_text order locked calls =
    ((calls ≡ []) × MayNotAsk order locked)
    ⊎ ((input : PlaceInput) × (calls ≡ input ∷ [])
        × (locked ≡ none)
        × IsComplete id_text order input
        × HasCredential order.api_credential_id)

-- The calls that the parts of a run make.
after_fail_calls :
    (calls : List PlaceInput) (order : Order) (failure : Failure) (x : Bool × List Order)
    → (after_fail calls order failure x).calls ≡ calls
after_fail_calls calls order failure (false, orders) = refl
after_fail_calls calls order failure (true, orders) = refl

after_ack_calls :
    (now : ℕ) (input : PlaceInput) (order : Order) (v : Text) (x : Bool × List Order)
    → (after_ack now input order v x).calls ≡ input ∷ []
unfolding after_ack
after_ack_calls now input order v (true, orders) = refl
after_ack_calls now input order v (false, orders) = refl

pub fail_claimed_order_calls :
    (now : ℕ) (calls : List PlaceInput) (order : Order) (failure : Failure) (orders : List Order)
    → (fail_claimed_order now calls order failure orders).calls ≡ calls
unfolding fail_claimed_order
fail_claimed_order_calls now calls order failure orders = after_fail_calls calls order failure _

pub on_answer_calls :
    (now : ℕ) (input : PlaceInput) (order : Order) (answer : Answer Text) (orders : List Order)
    → (on_answer now input order answer orders).calls ≡ input ∷ []
unfolding on_answer
on_answer_calls now input order (throws failure) orders =
    fail_claimed_order_calls now (input ∷ []) order failure orders
on_answer_calls now input order (returns v) orders = after_ack_calls now input order v _
