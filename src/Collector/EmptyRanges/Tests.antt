-- ===== src/Collector/EmptyRanges/Tests.antt =====
-- A holiday that is later only a gap in passing.
use trading_worker.Base.{ℕ, ◌+◌, ◌≡◌, refl, true, List, [], ◌∷◌, none, some}
use mathlib.Core.Option
use trading_worker.Base.Text.{codes}
use trading_worker.Event.{mock}
use trading_worker.Collector.EmptyRanges.{
  EmptyReason, holiday, transient, no_data, minute_interval, CatchupRequest, EmptyRange, EmptyReads,
  priority, ttl_ms_for, range_key_of, range_key_eq, record_empty,
}
use trading_worker.Collector.EmptyRanges.Keeping.{
  EmptyCall, call_of, record_calls, IsMarked, record_empty_range-Lasts,
}

abbrev request : CatchupRequest
request = record {
  market_env = mock;
  symbol = codes "005930";
  chart_market = none;
  interval_type = minute_interval;
  from_date = some 100;
  to_date = some 200;
  target_from = none;
  target_to = some (some 150);
  target_ranges = [];
}

abbrev reads_at : ℕ → EmptyReads
reads_at now = record { now = now; database_now = now; is_ensured = true; is_database_up = true }

-- The second call is for the same range, the third has its dates the wrong way round, the fourth none.
abbrev later : List EmptyCall
later =
    call_of (reads_at 2000) request (some 100) (some 150) transient
    ∷ call_of (reads_at 3000) request (some 150) (some 100) holiday
    ∷ call_of (reads_at 4000) request none (some 150) holiday
    ∷ []

abbrev marks : List EmptyRange → List (EmptyReason × ℕ)
marks [] = []
marks (r ∷ rows) = (r.reason, r.ttl_until) ∷ marks rows

stays_a_holiday :
    marks (record_calls (call_of (reads_at 1000) request (some 100) (some 150) holiday ∷ later) [])
    ≡ (holiday, 86401000) ∷ []
unfolding record_calls range_key_eq
stays_a_holiday = refl

takes_the_target :
    Option.map marks (record_empty (reads_at 0) request no_data []) ≡ some ((no_data, 1800000) ∷ [])
unfolding record_empty range_key_eq
takes_the_target = refl

record_empty_range-Lasts_example :
    IsMarked
      (range_key_of request 100 150)
      (priority holiday)
      (1000 + ttl_ms_for holiday)
      (record_calls (call_of (reads_at 1000) request (some 100) (some 150) holiday ∷ later) [])
record_empty_range-Lasts_example =
    record_empty_range-Lasts (reads_at 1000) request 100 150 holiday later [] refl refl
