-- ===== src/Candle/Tests.antt =====
-- The theorems of the candle builder at a few ticks.
use trading_worker.Base.{ℕ, List, [], ◌∷◌, some, none, All, Returns}
use trading_worker.Base.Int.{ℤ, pos, negsuc}
use trading_worker.Base.Text.{codes}
use trading_worker.Base.TextMap.{lookup}
use trading_worker.Event.{MarketEnv}
use trading_worker.Candle.{MarketTick, at, kospi, empty_builder, ingest, ingest_all}
use trading_worker.Candle.Minute.{IsWellformed, IsSound}
use trading_worker.Candle.Wellformed.{ingest_all-IsSound}
use trading_worker.Candle.Counting.{Counts, ingest-Counts}

abbrev tick_at : ℕ → ℤ → ℤ → MarketTick
tick_at ms price volume = record {
  market_env = MarketEnv.mock;
  symbol = codes "005930";
  market = some kospi;
  source_ts = at ms;
  price = some price;
  trade_volume = some volume;
  cumulative_volume = none;
  parse_warnings = [];
}

-- Two ticks of one minute, one of the next, and one that comes too late.
abbrev ticks : List MarketTick
ticks =
    tick_at 60000 (pos 100) (pos 5)
    ∷ tick_at 61000 (pos 90) (negsuc 2)
    ∷ tick_at 125000 (pos 95) (pos 1)
    ∷ tick_at 61000 (pos 80) (pos 1)
    ∷ []

empty-IsSound : IsSound empty_builder
unfolding lookup
empty-IsSound key c e = cc

ingest_all-IsSound_example :
    All IsWellformed (ingest_all ticks empty_builder).0 × IsSound (ingest_all ticks empty_builder).1
ingest_all-IsSound_example = ingest_all-IsSound ticks empty_builder empty-IsSound

ingest-Counts_example :
    Returns (Counts 5 empty_builder) (ingest (tick_at 60000 (pos 100) (pos 5)) empty_builder)
ingest-Counts_example = ingest-Counts (tick_at 60000 (pos 100) (pos 5)) empty_builder
