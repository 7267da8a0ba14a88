-- ===== src/Detector.antt =====
-- roles/detector: alert-evaluator.service.ts, alert.service.ts, evaluate-alerts.usecase.ts and the repository
-- of the raised alerts (repository/alert.repository.ts), with its table there.
-- An instant is its milliseconds, also where a payload carries it as a text. `now` is the clock and `alert_id`
-- the id that ulid makes. A query that fails counts nothing, and an insert that fails is only logged.
pub mod Dedup
mod Tests
use trading_worker.Base.{
  ℕ, zero, suc, ◌+◌, ◌-◌, ◌*◌, Bool, true, false, ◌&&◌, List, [], ◌∷◌, ◌++◌, Option, some, none,
  ltb, leb, if◌then◌else◌, length, exists, filter_by,
}
use trading_worker.Base.Text.{Text, text_eq, codes, coalesce}
use trading_worker.Base.TextMap.{lookup, assign}
use trading_worker.Scaled.{print}

pub data AlertCategory : Type 0 where
  dead_letter_spike order_rejection_spike stale_tick chart_archive_mismatch chart_archive_failure
        krx_calendar_sync :
      AlertCategory

pub data AlertSeverity : Type 0 where
  info warning critical : AlertSeverity

abbrev category_text : AlertCategory → Text
category_text dead_letter_spike = codes "dead-letter-spike"
category_text order_rejection_spike = codes "order-rejection-spike"
category_text stale_tick = codes "stale-tick"
category_text chart_archive_mismatch = codes "chart-archive-mismatch"
category_text chart_archive_failure = codes "chart-archive-failure"
category_text krx_calendar_sync = codes "krx-calendar-sync"

pub record AlertCandidate : Type 0 where
  pub category : AlertCategory
  pub severity : AlertSeverity
  pub subject_key : Text
  pub subject : Text
  pub message : Text
  pub metadata : List (Text × Text)

abbrev pub window_ms : ℕ
window_ms = 60000

abbrev pub dedup_window_ms : ℕ
dedup_window_ms = 300000

-- `[{ count, windowMs }]`
abbrev count_metadata : ℕ → List (Text × Text)
count_metadata n = (codes "count", print n) ∷ (codes "windowMs", print window_ms) ∷ []

unfoldable pub dead_letter_alerts : ℕ → List AlertCandidate
dead_letter_alerts n =
    let critical_alert : AlertCandidate = record {
      category = dead_letter_spike;
      severity = critical;
      subject_key = codes "collector.dead-letter";
      subject = codes "Collector dead-letter spike: " ++ print n ++ codes "/1m";
      message =
          print n ++ codes " dead-letter records in the last 60s exceeds CRITICAL threshold 200.";
      metadata = count_metadata n;
    } in
    let warning_alert : AlertCandidate = record {
      category = dead_letter_spike;
      severity = warning;
      subject_key = codes "collector.dead-letter";
      subject = codes "Collector dead-letter elevated: " ++ print n ++ codes "/1m";
      message =
          print n ++ codes " dead-letter records in the last 60s exceeds WARNING threshold 50.";
      metadata = count_metadata n;
    } in
    if leb 200 n then critical_alert ∷ [] else if leb 50 n then warning_alert ∷ [] else []

unfoldable pub failed_order_alerts : ℕ → List AlertCandidate
failed_order_alerts n =
    let critical_alert : AlertCandidate = record {
      category = order_rejection_spike;
      severity = critical;
      subject_key = codes "executor.order-failed";
      subject = codes "Order failure spike: " ++ print n ++ codes "/1m";
      message =
          print n
          ++ codes
              " order_attempt rows with status=failed in the last 60s exceeds CRITICAL threshold 20.";
      metadata = count_metadata n;
    } in
    let warning_alert : AlertCandidate = record {
      category = order_rejection_spike;
      severity = warning;
      subject_key = codes "executor.order-failed";
      subject = codes "Order failures elevated: " ++ print n ++ codes "/1m";
      message =
          print n ++ codes " failed order attempts in the last 60s exceeds WARNING threshold 5.";
      metadata = count_metadata n;
    } in
    if leb 20 n then critical_alert ∷ [] else if leb 5 n then warning_alert ∷ [] else []

-- A row that is counted: its instant, and whether the further condition holds.
pub record CountedRow : Type 0 where
  pub at : ℕ
  pub is_counted : Bool

-- `none` is a query that fails.
unfoldable pub count_since : ℕ → Option (List CountedRow) → ℕ
unfolding filter_by
count_since since none = 0
count_since since (some rows) = length (filter_by (λ r. r.is_counted && leb since r.at) rows)

unfoldable pub evaluate :
    ℕ → Option (List CountedRow) → Option (List CountedRow) → List AlertCandidate
unfolding dead_letter_alerts failed_order_alerts count_since
evaluate now dead_letters order_attempts =
    dead_letter_alerts (count_since (now - window_ms) dead_letters)
    ++ failed_order_alerts (count_since (now - window_ms) order_attempts)

pub record AlertRaised : Type 0 where
  pub alert_id : Text
  pub category : AlertCategory
  pub severity : AlertSeverity
  pub subject : Text
  pub message : Text
  pub metadata : List (Text × Text)
  pub raised_at : ℕ
  pub worker_instance_id : Text

-- What goes to the vendor of notifications, on the channel `slack`.
pub record AlertNotice : Type 0 where
  pub title : Text
  pub body : Text
  pub severity : AlertSeverity
  pub metadata : List (Text × Text)

-- The service, with the table and with what it has asked of the vendor and of the stream.
pub record AlertService : Type 0 where
  pub open_window : List (Text × ℕ)
  pub raised : ℕ
  pub suppressed_dedup : ℕ
  pub last_raised_at : Option ℕ
  pub alerts : List AlertRaised
  pub notified : List AlertNotice
  pub produced : List AlertRaised

-- What a call of `raise` reads.
pub record AlertReads : Type 0 where
  pub now : ℕ
  pub alert_id : Text
  pub is_database_up : Bool

pub record AlertCall : Type 0 where
  pub candidate : AlertCandidate
  pub reads : AlertReads

-- `${category}:${subjectKey}`
abbrev pub alert_key : AlertCandidate → Text
alert_key c = category_text c.category ++ b':' ∷ c.subject_key

abbrev pub payload_of : Text → AlertCall → AlertRaised
payload_of worker call = record {
  alert_id = call.reads.alert_id;
  category = call.candidate.category;
  severity = call.candidate.severity;
  subject = call.candidate.subject;
  message = call.candidate.message;
  metadata = call.candidate.metadata;
  raised_at = call.reads.now;
  worker_instance_id = worker;
}

abbrev pub notice_of : AlertRaised → AlertNotice
notice_of payload = record {
  title = payload.subject;
  body = payload.message;
  severity = payload.severity;
  metadata = payload.metadata;
}

-- `insert` of the repository: an id that is there already changes nothing.
unfoldable pub insert_alert : AlertRaised → List AlertRaised → List AlertRaised
insert_alert payload alerts =
    if exists (λ a. text_eq a.alert_id payload.alert_id) alerts
    then alerts
    else alerts ++ payload ∷ []

-- Whether an alert of the key is raised that was raised last at the instant.
abbrev pub is_quiet_since : Option ℕ → ℕ → Bool
is_quiet_since last_at now = leb dedup_window_ms (now - coalesce last_at 0)

-- What `raise` does behind its guard.
unfoldable pub send_alert : Text → AlertCall → AlertService → AlertService
unfolding assign insert_alert
send_alert worker call s =
    let payload = payload_of worker call in
    record {
      open_window = assign (alert_key call.candidate) call.reads.now s.open_window;
      raised = s.raised + 1;
      suppressed_dedup = s.suppressed_dedup;
      last_raised_at = some call.reads.now;
      alerts = if call.reads.is_database_up then insert_alert payload s.alerts else s.alerts;
      notified = s.notified ++ notice_of payload ∷ [];
      produced = s.produced ++ payload ∷ [];
    }

unfoldable pub raise : Text → AlertCall → AlertService → AlertService
unfolding lookup send_alert
raise worker call s =
    if is_quiet_since (lookup (alert_key call.candidate) s.open_window) call.reads.now
    then send_alert worker call s
    else record s { suppressed_dedup = s.suppressed_dedup + 1 }

-- The calls of `EvaluateAlertsUsecase.execute`, one after the other.
unfoldable pub raise_all : Text → List AlertCall → AlertService → AlertService
unfolding raise
raise_all worker [] s = s
raise_all worker (call ∷ calls) s = raise_all worker calls (raise worker call s)

-- What the calls read, by their places.
abbrev pub calls_of : (ℕ → AlertReads) → ℕ → List AlertCandidate → List AlertCall
calls_of reads i [] = []
calls_of reads i (c ∷ candidates) =
    record { candidate = c; reads = reads i } ∷ calls_of reads (suc i) candidates

unfoldable pub execute :
    Text
    → ℕ
    → Option (List CountedRow)
    → Option (List CountedRow)
    → (ℕ → AlertReads)
    → AlertService
    → AlertService
unfolding raise_all evaluate
execute worker now dead_letters order_attempts reads s =
    raise_all worker (calls_of reads 0 (evaluate now dead_letters order_attempts)) s
