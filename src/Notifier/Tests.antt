-- ===== src/Notifier/Tests.antt =====
-- A notification through its attempts.
use trading_worker.Base.{
  ℕ, ◌≡◌, ◌++◌, refl, arith, false, List, [], ◌∷◌, map, length, Option, some, none, inr,
}
use trading_worker.Base.Text.{codes}
use trading_worker.Sql.{find_first}
use trading_worker.Notifier.{
  NotificationRow, NotifierState, OutboxStatus, pending, DeliveryStatus, delivered, NotifyAnswer,
  answered, threw, is_waiting, claim_pending, handle_row, handle_rows,
}
use trading_worker.Notifier.Settling.{
  row_of, IsSettled, handle_row-IsSettled, try_row, try_row-IsOver,
}
use trading_worker.Notifier.Replicas.{Vendor, answer_of, recorded, two_replicas_send_twice}

abbrev row : NotificationRow
row = record {
  id = 7;
  event_id = 1;
  channel_id = 2;
  channel_type = codes "slack";
  payload = codes "{}";
  status = pending;
  attempts = 0;
  last_error = none;
  next_attempt_at = 0;
  sent_at = none;
}

abbrev state : NotifierState
state = record {
  outbox = row ∷ [];
  next_id = 8;
  deliveries = [];
  dispatched = 0;
  dispatch_failures = 0;
}

row_is_there : row_of 7 state ≡ some row
unfolding find_first
row_is_there = refl

handle_row-IsSettled_example :
    (r : NotificationRow) × (row_of 7 (handle_row 5 1000 row (threw (codes "timeout")) state)
      ≡ some r)
    × IsSettled 5 1000 row (threw (codes "timeout")) r
handle_row-IsSettled_example =
    handle_row-IsSettled 5 1000 row (threw (codes "timeout")) state row_is_there

abbrev rounds : List (ℕ × NotifyAnswer)
rounds = (1000, threw (codes "timeout")) ∷ (9000, answered DeliveryStatus.failed none) ∷ []

try_row-IsOver_example :
    (r : NotificationRow) × (row_of 7 (try_row 2 7 rounds state) ≡ some r)
    × (is_waiting r.status ≡ false)
try_row-IsOver_example =
    try_row-IsOver 2 7 rounds state row row_is_there (inr (omega arith)) (omega arith)

abbrev status_and_attempts : Option NotificationRow → Option (OutboxStatus × ℕ)
status_and_attempts none = none
status_and_attempts (some r) = some (r.status, r.attempts)

given_up : status_and_attempts (row_of 7 (try_row 2 7 rounds state)) ≡ some (OutboxStatus.failed, 2)
unfolding try_row
given_up = refl

abbrev vendor : Vendor
vendor r = (delivered, none)

two_replicas_send_twice_example :
    let first = claim_pending (λ _. false) 20 0 state in
    let second = claim_pending (λ _. false) 20 0 first.1 in
    let sent_once = handle_rows 5 1000 (answer_of vendor) first.0 second.1 in
    (handle_rows 5 1000 (answer_of vendor) second.0 sent_once).deliveries
    ≡ (state.deliveries ++ map (recorded vendor 1000) first.0) ++ map (recorded vendor 1000) first.0
two_replicas_send_twice_example = two_replicas_send_twice 20 5 0 1000 vendor state

claimed_once : length ((claim_pending (λ _. false) 20 0 state).0) ≡ 1
unfolding claim_pending
claimed_once = refl
