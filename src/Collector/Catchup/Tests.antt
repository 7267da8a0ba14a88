-- ===== src/Collector/Catchup/Tests.antt =====
-- A run over two targets, of which the second has no candle.
use trading_worker.Base.{ℕ, zero, suc, ◌≡◌, refl, true, false, List, [], ◌∷◌, none, some, filter_by}
use trading_worker.Base.Text.{codes}
use trading_worker.Event.{mock}
use trading_worker.Collector.EmptyRanges.{
  minute_interval, TargetRange, CatchupRequest, EmptyRange, EmptyReads, range_key_eq,
}
use trading_worker.Collector.Catchup.{
  Bucket, UpsertAnswer, wrote, skipped, throws, run, is_krx_continuous_session_bucket,
}
use trading_worker.Collector.Catchup.Rows.{may_persist}
use trading_worker.Collector.Catchup.Targets.{RunEnds, run-Accounted}

-- Minutes after 09:00 in Korea.
abbrev target : ℕ → ℕ → TargetRange
target from to = record { from_date = some from; to_date = some to }

abbrev request : CatchupRequest
request = record {
  market_env = mock;
  symbol = codes "005930";
  chart_market = none;
  interval_type = minute_interval;
  from_date = some 0;
  to_date = some 600000;
  target_from = none;
  target_to = none;
  target_ranges = target 0 120000 ∷ target 120000 240000 ∷ [];
}

abbrev reads : EmptyReads
reads = record { now = 1000; database_now = 1000; is_ensured = true; is_database_up = true }

-- 09:00, 09:01, and 15:20, which is not in the continuous session.
abbrev rows : List Bucket
rows = some 0 ∷ some 60000 ∷ some 22800000 ∷ []

abbrev answers : ℕ → UpsertAnswer
answers zero = wrote
answers (suc i) = skipped

abbrev marks : List EmptyRange → List (ℕ × ℕ)
marks [] = []
marks (r ∷ ranges) = (r.key.range_from, r.ttl_until) ∷ marks ranges

counts_two :
    (run reads request (some rows) answers []).0
    ≡ record { candles_written = 1; candles_skipped = 1; has_error = false }
unfolding run range_key_eq is_krx_continuous_session_bucket
counts_two = refl

marks_the_second : marks ((run reads request (some rows) answers []).1) ≡ (120000, 601000) ∷ []
unfolding run range_key_eq is_krx_continuous_session_bucket
marks_the_second = refl

-- A run whose second write throws.
abbrev breaks : ℕ → UpsertAnswer
breaks zero = wrote
breaks (suc i) = throws

counts_until_thrown :
    run reads request (some rows) breaks []
    ≡ (record { candles_written = 1; candles_skipped = 0; has_error = true }, [])
unfolding run range_key_eq is_krx_continuous_session_bucket
counts_until_thrown = refl

run-Accounted_example :
    RunEnds reads request
      (filter_by (may_persist minute_interval) rows)
      answers
      []
      (run reads request (some rows) answers [])
run-Accounted_example = run-Accounted reads request rows answers [] refl refl
