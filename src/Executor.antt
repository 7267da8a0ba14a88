-- ===== src/Executor.antt =====
-- roles/executor: what the pickups of requested and of cancelled orders share. A call of a dependency
-- answers with a value or throws.
pub mod Lock
pub mod Exclusion
pub mod Placing
pub mod Cancelling
pub mod Pods
pub mod Keeping
pub mod Handed
pub mod Closing
pub mod Waiting
pub mod Checks
pub mod Asked
pub mod Calls
mod Tests
use trading_worker.Base.{ℕ, zero, suc, Bool, true, false, List, [], ◌∷◌, Option, some, none, take}
use trading_worker.Base.Text.{Text, codes, coalesce, text_eq, trim}
use trading_worker.Order.{Order}
use mathlib.Core.Option

-- An error: `code`, if it is a DomainError, and the message.
pub record Failure : Type 0 where
  pub code : Option Text
  pub message : Text

pub data Answer (A : Type 0) : Type 0 where
  returns : A → Answer A
  throws : Failure → Answer A

abbrev pub domain_error : Text → Text → Failure
domain_error message code = record { code = some code; message = message }

-- `!Number.isInteger(id) || id <= 0` on a nullable id: `Number(null)` is 0.
abbrev pub positive_id : Option ℕ → Option ℕ
positive_id none = none
positive_id (some zero) = none
positive_id (some (suc id)) = some (suc id)

abbrev pub non_empty : Text → Option Text
non_empty [] = none
non_empty (c ∷ text) = some (c ∷ text)

-- `order.accountExternalId?.trim()`, where an empty text is falsy.
unfoldable pub account_external_id_of : Order → Option Text
unfolding trim
account_external_id_of order = Option.bind order.account_external_id (λ t. non_empty (trim t))

-- `failureReason: message.slice(0, 1000)`
abbrev pub failure_reason_of : Failure → Text
failure_reason_of failure = take 1000 failure.message
