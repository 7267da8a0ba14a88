-- ===== src/Collector/Subscriptions.antt =====
-- roles/collector/service/subscription-planner.service.ts: what to subscribe to and what to leave.
mod Tests
use trading_worker.Base.{
  ◌≡◌, refl, arith, Bool, true, false, not, ◌&&◌, ◌||◌, List, ◌++◌, filter_by,
}
use trading_worker.Base.Text.{Text}
use trading_worker.Base.TextSet.{
  has_text, unique, has_text-filter_by, has_text-append, has_text-unique,
}

pub record SubscriptionPlan : Type 0 where
  pub add : List Text
  pub remove : List Text

-- The texts of the one list that are not in the other, each once.
abbrev only_in : List Text → List Text → List Text
only_in texts others = filter_by (λ t. not (has_text (unique others) t)) (unique texts)

unfoldable pub plan : List Text → List Text → SubscriptionPlan
unfolding filter_by unique
plan current target = record { add = only_in target current; remove = only_in current target }

-- What is subscribed to once a plan is carried out.
abbrev pub carried_out : SubscriptionPlan → List Text → List Text
carried_out p current = filter_by (λ t. not (has_text p.remove t)) current ++ p.add

has_text-only_in :
    (texts others : List Text) (s : Text)
    → has_text (only_in texts others) s ≡ has_text texts s && not (has_text others s)
has_text-only_in texts others s = ground (
  arith,
  has_text-filter_by (λ t. not (has_text (unique others) t)) (unique texts) s,
  has_text-unique texts s,
  has_text-unique others s,
)

-- Carrying out a plan leads from the current symbols to exactly the target ones. A symbol is added only where
-- it is not there yet, and removed only where it is there and not wanted.
pub plan_reaches :
    (current target : List Text) (s : Text)
    → (has_text (carried_out (plan current target) current) s ≡ has_text target s)
      × (has_text ((plan current target).add) s ≡ has_text target s && not (has_text current s))
      × (has_text ((plan current target).remove) s ≡ has_text current s && not (has_text target s))
unfolding plan
plan_reaches current target s = (
  ground (
    arith,
    has_text-append (filter_by (λ t. not (has_text (only_in current target) t)) current)
        (only_in target current) s,
    has_text-filter_by (λ t. not (has_text (only_in current target) t)) current s,
    has_text-only_in current target s,
    has_text-only_in target current s,
  ),
  has_text-only_in target current s,
  has_text-only_in current target s,
)
