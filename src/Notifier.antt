-- ===== src/Notifier.antt =====
-- The notification outbox: roles/notifier/repository/notification-outbox.repository.impl.ts and
-- roles/notifier/usecase/dispatch-notification-outbox.usecase.ts with the dispatch service.
-- The notify vendor answers by a parameter; the text of a message is left out, since no branch reads it, and
-- a payload is a text. Without a database every method of the repositories returns at once.
pub mod Settling
pub mod Replicas
mod Tests
use trading_worker.Base.{
  ℕ, zero, suc, ◌+◌, ◌-◌, ◌*◌, ◌^◌, min, Bool, true, false, not, ◌&&◌, ◌||◌, List, [], ◌∷◌, ◌++◌,
  Option, some, none, leb, ◌==◌, if◌then◌else◌, map, take, exists, sort_by, filter_by,
}
use trading_worker.Base.Text.{Text, codes, text_eq, coalesce}
use trading_worker.Sql.{find_first, update_where}

pub data OutboxStatus : Type 0 where
  pending sent failed : OutboxStatus

pub record NotificationRow : Type 0 where
  pub id : ℕ
  pub event_id : ℕ
  pub channel_id : ℕ
  pub channel_type : Text
  pub payload : Text
  pub status : OutboxStatus
  pub attempts : ℕ
  pub last_error : Option Text
  pub next_attempt_at : ℕ
  pub sent_at : Option ℕ

pub record NotificationInput : Type 0 where
  pub event_id : ℕ
  pub channel_id : ℕ
  pub channel_type : Text
  pub payload : Text
  pub next_attempt_at : ℕ

pub data DeliveryStatus : Type 0 where
  delivered skipped failed : DeliveryStatus

pub record Delivery : Type 0 where
  pub outbox_id : ℕ
  pub channel_id : ℕ
  pub channel_type : Text
  pub status : DeliveryStatus
  pub sent_at : ℕ
  pub reason : Option Text

-- The tables, and the counts of the status service.
pub record NotifierState : Type 0 where
  pub outbox : List NotificationRow
  pub next_id : ℕ
  pub deliveries : List Delivery
  pub dispatched : ℕ
  pub dispatch_failures : ℕ

abbrev pub is_waiting : OutboxStatus → Bool
is_waiting pending = true
is_waiting _ = false

abbrev new_row : ℕ → NotificationInput → NotificationRow
new_row id input = record {
  id = id;
  event_id = input.event_id;
  channel_id = input.channel_id;
  channel_type = input.channel_type;
  payload = input.payload;
  status = pending;
  attempts = 0;
  last_error = none;
  next_attempt_at = input.next_attempt_at;
  sent_at = none;
}

unfoldable pub insert_many : List NotificationInput → NotifierState → NotifierState
insert_many [] s = s
insert_many (input ∷ inputs) s =
    insert_many inputs
      (record s { outbox = s.outbox ++ new_row s.next_id input ∷ []; next_id = s.next_id + 1 })

abbrev pub is_due : (ℕ → Bool) → ℕ → NotificationRow → Bool
is_due locked now r = is_waiting r.status && leb r.next_attempt_at now && not (locked r.id)

abbrev pub earlier : NotificationRow → NotificationRow → Bool
earlier a b = leb a.next_attempt_at b.next_attempt_at

-- A select under row locks that are released when its transaction ends: it writes nothing.
unfoldable pub claim_pending :
    (ℕ → Bool) → ℕ → ℕ → NotifierState → List NotificationRow × NotifierState
unfolding sort_by filter_by
claim_pending locked limit now s =
    (take limit (sort_by earlier (filter_by (is_due locked now) s.outbox)), s)

abbrev pub is_row : ℕ → NotificationRow → Bool
is_row id r = r.id == id

abbrev pub set_sent : ℕ → NotificationRow → NotificationRow
set_sent sent_at r = record r { status = sent; sent_at = some sent_at; last_error = none }

unfoldable pub mark_sent : ℕ → ℕ → NotifierState → NotifierState
unfolding update_where
mark_sent id sent_at s = record s { outbox = update_where (is_row id) (set_sent sent_at) s.outbox }

-- PENDING with the next attempt, or FAILED where there is none.
abbrev pub set_unsent : ℕ → Text → Option ℕ → NotificationRow → NotificationRow
set_unsent attempts error none r = record r {
  status = OutboxStatus.failed;
  attempts = attempts;
  last_error = some (take 1000 error);
}
set_unsent attempts error (some next) r = record r {
  status = pending;
  attempts = attempts;
  last_error = some (take 1000 error);
  next_attempt_at = next;
}

abbrev mark_found : ℕ → Text → Option ℕ → Option NotificationRow → NotifierState → NotifierState
mark_found id error next none s = s
mark_found id error next (some row) s = record s {
  outbox = update_where (is_row id) (set_unsent (row.attempts + 1) error next) s.outbox;
}

unfoldable pub mark_failed : ℕ → Text → Option ℕ → NotifierState → NotifierState
unfolding find_first update_where
mark_failed id error next s = mark_found id error next (find_first (is_row id) s.outbox) s

abbrev pub base_backoff_ms : ℕ
base_backoff_ms = 5000

abbrev pub max_backoff_ms : ℕ
max_backoff_ms = 300000

-- `none` once the attempts are used up.
unfoldable pub next_attempt_date : ℕ → ℕ → ℕ → Option ℕ
next_attempt_date max_attempts now attempt_count =
    if leb max_attempts attempt_count
    then none
    else some (now + min (base_backoff_ms * 2 ^ (attempt_count - 1)) max_backoff_ms)

-- What the vendor answers, or the message of what it throws.
pub data NotifyAnswer : Type 0 where
  answered : DeliveryStatus → Option Text → NotifyAnswer
  threw : Text → NotifyAnswer

abbrev supported_channel_types : List Text
supported_channel_types =
    codes "sms" ∷ codes "telegram" ∷ codes "discord" ∷ codes "slack" ∷ codes "push" ∷ []

abbrev pub is_supported_channel_type : Text → Bool
is_supported_channel_type value = exists (λ t. text_eq t value) supported_channel_types

-- `dispatch`: the vendor is asked for a channel type that is supported, and no other.
unfoldable pub dispatch : NotifyAnswer → Text → NotifyAnswer
dispatch vendor channel_type =
    if is_supported_channel_type channel_type
    then vendor
    else answered skipped (some (codes "unsupported channel type: " ++ channel_type))

abbrev pub delivery_of : ℕ → NotificationRow → DeliveryStatus → Option Text → Delivery
delivery_of now row status reason = record {
  outbox_id = row.id;
  channel_id = row.channel_id;
  channel_type = row.channel_type;
  status = status;
  sent_at = now;
  reason = reason;
}

abbrev pub record_delivery :
    ℕ → NotificationRow → DeliveryStatus → Option Text → NotifierState → NotifierState
record_delivery now row status reason s = record s {
  deliveries = s.deliveries ++ delivery_of now row status reason ∷ [];
}

abbrev count_failed : NotifierState → NotifierState
count_failed s = record s { dispatch_failures = s.dispatch_failures + 1 }

abbrev count_ok : NotifierState → NotifierState
count_ok s = record s { dispatched = s.dispatched + 1 }

unfoldable pub on_result : ℕ → ℕ → NotificationRow → NotifyAnswer → NotifierState → NotifierState
unfolding mark_failed mark_sent next_attempt_date
on_result max_attempts now row (answered failed reason) s = count_failed (
    mark_failed row.id (coalesce reason (codes "unknown vendor failure"))
      (next_attempt_date max_attempts now (row.attempts + 1))
      (record_delivery now row failed reason s))
on_result max_attempts now row (answered status reason) s =
    count_ok (mark_sent row.id now (record_delivery now row status reason s))
on_result max_attempts now row (threw message) s =
    count_failed
      (mark_failed row.id message (next_attempt_date max_attempts now (row.attempts + 1)) s)

-- `handleRow`, with the row as it was claimed.
unfoldable pub handle_row : ℕ → ℕ → NotificationRow → NotifyAnswer → NotifierState → NotifierState
unfolding on_result dispatch
handle_row max_attempts now row vendor s =
    on_result max_attempts now row (dispatch vendor row.channel_type) s

unfoldable pub handle_rows :
    ℕ → ℕ → (NotificationRow → NotifyAnswer) → List NotificationRow → NotifierState → NotifierState
unfolding handle_row
handle_rows max_attempts now vendor [] s = s
handle_rows max_attempts now vendor (row ∷ rows) s =
    handle_rows max_attempts now vendor rows (handle_row max_attempts now row (vendor row) s)

-- `execute`
unfoldable pub execute :
    ℕ → ℕ → (ℕ → Bool) → ℕ → (NotificationRow → NotifyAnswer) → NotifierState → NotifierState
unfolding claim_pending handle_rows
execute batch_size max_attempts locked now vendor s =
    let claimed = claim_pending locked batch_size now s in
    handle_rows max_attempts now vendor claimed.0 claimed.1
