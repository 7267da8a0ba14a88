-- ===== src/Executor/Checks.antt =====
-- pickup-requested-orders.usecase.ts, `toPlaceInput`: what an order must have to be placed, and what is then
-- asked for it, by the columns of the order.
use trading_worker.Base.{
  ℕ, zero, suc, ◌≤◌, ◌≡◌, refl, arith, [], ◌∷◌, ◌++◌, Option, some, none, ◌⊎◌, inl, inr,
}
use trading_worker.Base.Text.{Text, codes, coalesce, trim}
use trading_worker.Event.{Side}
use trading_worker.Order.{Order, OrderType, OrderMethod}
use trading_worker.Executor.{
  Answer, returns, throws, positive_id, non_empty, account_external_id_of,
}
use trading_worker.Executor.Placing.{
  PlaceInput, PlaceType, limit, market, place_input, place_input_with, to_place_input, symbol_of,
  side_of, type_of,
}
use mathlib.Core.Option

-- The column has a text that is not blank, and this is the text without the space around it.
abbrev pub IsGiven : Option Text → Text → Type 0
IsGiven column text = (raw : Text) × (column ≡ some raw) × (text ≡ trim raw) × ¬ (text ≡ [])

-- The column is null or blank.
abbrev pub IsMissing : Option Text → Type 0
IsMissing none = Unit
IsMissing (some raw) = trim raw ≡ []

abbrev pub HasCredential : Option ℕ → Type 0
HasCredential none = ⊥
HasCredential (some id) = 1 ≤ id

abbrev SameSide : OrderType → Side → Type 0
SameSide OrderType.buy Side.buy = Unit
SameSide OrderType.sell Side.sell = Unit
SameSide OrderType.buy Side.sell = ⊥
SameSide OrderType.sell Side.buy = ⊥

-- A limit order is placed as one, every other at the market.
abbrev SameType : OrderMethod → PlaceType → Type 0
SameType OrderMethod.limit t = t ≡ limit
SameType OrderMethod.market t = t ≡ market
SameType OrderMethod.stop t = t ≡ market
SameType OrderMethod.stop_limit t = t ≡ market

-- The order's own client id, or `order-` and its number.
abbrev IsClientId : Text → Option Text → Text → Type 0
IsClientId number none asked = asked ≡ codes "order-" ++ number
IsClientId number (some own) asked = asked ≡ own

abbrev AsksFor : (ℕ → Text) → Order → PlaceInput → Type 0
AsksFor id_text order input =
    SameSide order.order_type input.side
    × SameType order.order_method input.type
    × (input.quantity ≡ order.quantity)
    × (input.price ≡ order.price)
    × IsClientId (id_text order.id) order.client_order_id input.client_order_id

abbrev pub IsComplete : (ℕ → Text) → Order → PlaceInput → Type 0
IsComplete id_text order input =
    IsGiven order.account_external_id input.account_id
    × IsGiven order.request_symbol input.symbol
    × AsksFor id_text order input

abbrev pub IsIncomplete : Order → Type 0
IsIncomplete order = IsMissing order.account_external_id ⊎ IsMissing order.request_symbol

same_side : (t : OrderType) → SameSide t (side_of t)
same_side OrderType.buy = tt
same_side OrderType.sell = tt

same_type : (m : OrderMethod) → SameType m (type_of m)
same_type OrderMethod.limit = refl
same_type OrderMethod.market = refl
same_type OrderMethod.stop = refl
same_type OrderMethod.stop_limit = refl

client_id :
    (number : Text) (own : Option Text)
    → IsClientId number own (coalesce own (codes "order-" ++ number))
client_id number none = refl
client_id number (some own) = refl

-- What `non_empty` makes of a text.
abbrev NonEmptyOf : Text → Option Text → Type 0
NonEmptyOf text none = text ≡ []
NonEmptyOf text (some u) = (u ≡ text) × ¬ (u ≡ [])

not_nil : (c : ℕ) (text : Text) → ¬ (◌≡◌ {A = Text} (c ∷ text) [])
not_nil c text e = cc

non_empty-NonEmptyOf : (text : Text) → NonEmptyOf text (non_empty text)
non_empty-NonEmptyOf [] = refl
non_empty-NonEmptyOf (c ∷ text) = (refl, not_nil c text)

abbrev ColumnOf : Option Text → Option Text → Type 0
ColumnOf column none = IsMissing column
ColumnOf column (some text) = IsGiven column text

given_or_missing : (raw : Text) (o : Option Text) → NonEmptyOf (trim raw) o → ColumnOf (some raw) o
given_or_missing raw none h = h
given_or_missing raw (some text) (same, some_text) = (raw, refl, same, some_text)

account_column : (order : Order) → ColumnOf order.account_external_id (account_external_id_of order)
unfolding account_external_id_of Option.bind
account_column order = of_column order.account_external_id
  where
    of_column : (o : Option Text) → ColumnOf o (Option.bind o (λ t. non_empty (trim t)))
    of_column none = tt
    of_column (some raw) =
        given_or_missing raw (non_empty (trim raw)) (non_empty-NonEmptyOf (trim raw))

symbol_column : (order : Order) → ColumnOf order.request_symbol (non_empty (symbol_of order))
symbol_column order = of_column order.request_symbol
  where
    of_column : (o : Option Text) → ColumnOf o (non_empty (coalesce (Option.map trim o) []))
    of_column none = tt
    of_column (some raw) =
        given_or_missing raw (non_empty (trim raw)) (non_empty-NonEmptyOf (trim raw))

-- What the checks answer.
abbrev pub IsChecked : (ℕ → Text) → Order → Answer PlaceInput → Type 0
IsChecked id_text order (throws failure) = IsIncomplete order
IsChecked id_text order (returns input) = IsComplete id_text order input

place_input_with-IsChecked :
    (id_text : ℕ → Text) (order : Order) (account symbol : Option Text)
    → ColumnOf order.account_external_id account
    → ColumnOf order.request_symbol symbol
    → IsChecked id_text order (place_input_with id_text order account symbol)
unfolding place_input_with place_input
place_input_with-IsChecked id_text order none symbol a s = inl a
place_input_with-IsChecked id_text order (some account) none a s = inr s
place_input_with-IsChecked id_text order (some account) (some symbol) a s = (
  a,
  s,
  (
    same_side order.order_type,
    same_type order.order_method,
    refl,
    refl,
    client_id (id_text order.id) order.client_order_id,
  ),
)

pub to_place_input-IsChecked :
    (id_text : ℕ → Text) (order : Order) → IsChecked id_text order (to_place_input id_text order)
unfolding to_place_input
to_place_input-IsChecked id_text order =
    place_input_with-IsChecked id_text order (account_external_id_of order)
      (non_empty (symbol_of order)) (account_column order) (symbol_column order)

-- What the check of the credential answers.
abbrev pub CredentialOf : Option ℕ → Option ℕ → Type 0
CredentialOf column none = ¬ HasCredential column
CredentialOf column (some id) = HasCredential column

pub credential_column : (column : Option ℕ) → CredentialOf column (positive_id column)
credential_column none = λ h. h
credential_column (some zero) = λ h. ground arith
credential_column (some (suc id)) = omega arith
