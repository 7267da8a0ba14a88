-- ===== src/Detector/Tests.antt =====
-- The detector at a few counts, and a dead-letter alert that grows worse within five minutes.
use trading_worker.Base.{ℕ, ◌≡◌, refl, arith, true, false, List, [], ◌∷◌, none, some}
use trading_worker.Base.Text.{Text, codes}
use trading_worker.Detector.{
  AlertCategory, dead_letter_spike, order_rejection_spike, AlertSeverity, warning, critical,
  AlertCandidate, AlertCall, AlertReads, AlertService, AlertRaised, CountedRow, evaluate, raise_all,
}
use trading_worker.Detector.Dedup.{deduped, HasRaised, raise_all-Deduped}

abbrev kinds : List AlertCandidate → List (AlertCategory × AlertSeverity)
kinds [] = []
kinds (c ∷ candidates) = (c.category, c.severity) ∷ kinds candidates

abbrev failed : CountedRow
failed = record { at = 500000; is_counted = true }

-- Five failed orders within the minute, one from before it; the query of dead letters fails.
abbrev attempts : List CountedRow
attempts =
    record { at = 100000; is_counted = true }
    ∷ record { at = 500000; is_counted = false }
    ∷ failed
    ∷ failed
    ∷ failed
    ∷ failed
    ∷ failed
    ∷ []

warns_of_failed_orders :
    kinds (evaluate 520000 none (some attempts)) ≡ (order_rejection_spike, warning) ∷ []
unfolding evaluate
warns_of_failed_orders = refl

abbrev reads_at : ℕ → Text → AlertReads
reads_at now id = record { now = now; alert_id = id; is_database_up = true }

abbrev idle : AlertService
idle = record {
  open_window = [];
  raised = 0;
  suppressed_dedup = 0;
  last_raised_at = none;
  alerts = [];
  notified = [];
  produced = [];
}

abbrev severities : List AlertRaised → List (AlertSeverity × ℕ)
severities [] = []
severities (a ∷ alerts) = (a.severity, a.raised_at) ∷ severities alerts

abbrev dead_letters : AlertSeverity → ℕ → AlertCall
dead_letters severity now = record {
  candidate = record {
    category = dead_letter_spike;
    severity = severity;
    subject_key = codes "collector.dead-letter";
    subject = codes "s";
    message = codes "m";
    metadata = [];
  };
  reads = reads_at now (codes "id");
}

abbrev calls : List AlertCall
calls =
    dead_letters warning 400000 ∷ dead_letters critical 460000 ∷ dead_letters critical 700000 ∷ []

-- The turn for the worse waits for the window to end; the table keeps one row of an id.
raises_twice :
    severities ((raise_all (codes "w") calls idle).produced)
    ≡ (warning, 400000) ∷ (critical, 700000) ∷ []
unfolding raise_all
raises_twice = refl

raise_all-Deduped_example :
    HasRaised (codes "w") calls (deduped [] calls) idle (raise_all (codes "w") calls idle)
raise_all-Deduped_example =
    raise_all-Deduped (codes "w") calls idle refl (omega arith, (omega arith, (omega arith, tt)))
