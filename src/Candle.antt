-- ===== src/Candle.antt =====
-- roles/collector/service/candle-builder.service.ts and candle.model.ts: one-minute candles out of ticks.
-- Prices and volumes are whole numbers, as the exchange has them. The two branches of
-- `resolveMarketRealtimeProfile` name one chart market.
pub mod Minute
pub mod Wellformed
pub mod Counting
mod Tests
use trading_worker.Base.{
  ℕ, zero, suc, ◌+◌, ◌-◌, ◌*◌, ◌%◌, min, max, Bool, true, false, ◌||◌, ◌&&◌, List, [], ◌∷◌, ◌++◌,
  map, Option, some, none, ltb, leb, ◌==◌, if◌then◌else◌,
}
use trading_worker.Base.Int.{ℤ, pos, negsuc, leb_ℤ, ltb_ℤ}
use trading_worker.Base.Text.{Text, codes, coalesce_null}
use trading_worker.Base.TextMap.{lookup, assign}
use trading_worker.Event.{MarketEnv}
use mathlib.Core.Option

pub data MarketTickMarket : Type 0 where
  kospi kosdaq konex nxt unknown : MarketTickMarket

pub data ParseWarning : Type 0 where
  missing_price missing_trade_volume missing_source_ts other_warning : ParseWarning

-- `tick.sourceTs`: null or '', a text that is no date, or a date.
pub data SourceTs : Type 0 where
  absent invalid : SourceTs
  at : ℕ → SourceTs

pub record MarketTick : Type 0 where
  pub market_env : MarketEnv
  pub symbol : Text
  pub market : Option MarketTickMarket
  pub source_ts : SourceTs
  pub price : Option ℤ
  pub trade_volume : Option ℤ
  pub cumulative_volume : Option ℤ
  pub parse_warnings : List ParseWarning

pub data ChartSource : Type 0 where
  trade_tick_0b : ChartSource

pub data ChartMarket : Type 0 where
  krw : ChartMarket

pub record Candle : Type 0 where
  pub symbol : Text
  pub market_env : MarketEnv
  pub market : Option MarketTickMarket
  pub chart_source : ChartSource
  pub chart_market : ChartMarket
  pub bucket_start : ℕ
  pub bucket_end : ℕ
  pub open_price : ℕ
  pub high : ℕ
  pub low : ℕ
  pub close : ℕ
  pub volume : ℕ
  pub tick_count : ℕ
  pub first_source_ts : ℕ
  pub last_source_ts : ℕ
  pub cumulative_volume_first : Option ℤ
  pub cumulative_volume_last : Option ℤ
  pub cumulative_volume_anomalies : ℕ

pub data TickRejection : Type 0 where
  parse_warning missing_required_field invalid_price invalid_volume stale_tick : TickRejection

pub record CandleBuilder : Type 0 where
  pub current : List (Text × Candle)
  pub last_accepted_source_ts_ms : List (Text × ℕ)
  pub rejections : TickRejection → ℕ

abbrev pub one_minute_ms : ℕ
one_minute_ms = 60000

abbrev pub kst_offset_min : ℕ
kst_offset_min = 540

unfoldable pub floor_to_kst_minute : ℕ → ℕ
floor_to_kst_minute utc_ms =
    let kst_ms = utc_ms + kst_offset_min * one_minute_ms in
    let floored_kst = kst_ms - kst_ms % one_minute_ms in
    floored_kst - kst_offset_min * one_minute_ms

abbrev pub add_minutes : ℕ → ℕ → ℕ
add_minutes d n = d + n * one_minute_ms

-- `Math.abs`; a price that has passed its test is positive.
abbrev pub magnitude : ℤ → ℕ
magnitude (pos n) = n
magnitude (negsuc n) = suc n

unfoldable pub open_candle : MarketTick → ℕ → ℕ → ℕ → ℕ → Candle
open_candle tick price volume source_ts bucket_start = record {
  symbol = tick.symbol;
  market_env = tick.market_env;
  market = tick.market;
  chart_source = trade_tick_0b;
  chart_market = krw;
  bucket_start = bucket_start;
  bucket_end = add_minutes bucket_start 1;
  open_price = price;
  high = price;
  low = price;
  close = price;
  volume = volume;
  tick_count = 1;
  first_source_ts = source_ts;
  last_source_ts = source_ts;
  cumulative_volume_first = tick.cumulative_volume;
  cumulative_volume_last = tick.cumulative_volume;
  cumulative_volume_anomalies = 0;
}

abbrev pub is_volume_anomaly : Option ℤ → Option ℤ → Bool
is_volume_anomaly none last = false
is_volume_anomaly (some incoming) none = false
is_volume_anomaly (some incoming) (some last) = ltb_ℤ incoming last

unfoldable pub update_candle : Candle → MarketTick → ℕ → ℕ → ℕ → Candle
update_candle prev tick price volume source_ts = record prev {
  high = max prev.high price;
  low = min prev.low price;
  close = price;
  volume = prev.volume + volume;
  tick_count = prev.tick_count + 1;
  last_source_ts = source_ts;
  cumulative_volume_last = coalesce_null tick.cumulative_volume prev.cumulative_volume_last;
  cumulative_volume_anomalies =
      prev.cumulative_volume_anomalies
      + (if is_volume_anomaly tick.cumulative_volume prev.cumulative_volume_last then 1 else 0);
}

pub data CandleIngestResult : Type 0 where
  accepted : Option Candle → Candle → CandleIngestResult
  rejected : TickRejection → CandleIngestResult

abbrev pub rejection_code : TickRejection → ℕ
rejection_code parse_warning = 0
rejection_code missing_required_field = 1
rejection_code invalid_price = 2
rejection_code invalid_volume = 3
rejection_code stale_tick = 4

unfoldable pub reject : TickRejection → CandleBuilder → CandleIngestResult × CandleBuilder
reject reason b = (
  rejected reason,
  record b {
    rejections = λ r. b.rejections r + (if rejection_code r == rejection_code reason then 1 else 0);
  },
)

abbrev pub is_blocking : List ParseWarning → Bool
is_blocking [] = false
is_blocking (other_warning ∷ ws) = is_blocking ws
is_blocking (_ ∷ ws) = true

-- `${tick.marketEnv}:${tick.symbol}`
abbrev pub key_of : MarketEnv → Text → Text
key_of MarketEnv.mock symbol = codes "mock:" ++ symbol
key_of MarketEnv.production symbol = codes "production:" ++ symbol

-- The candle that is closed, and the one that takes its place.
unfoldable pub next_candle : MarketTick → ℕ → ℕ → ℕ → Option Candle → Option Candle × Candle
unfolding open_candle update_candle floor_to_kst_minute
next_candle tick price volume source_ts none =
    (none, open_candle tick price volume source_ts (floor_to_kst_minute source_ts))
next_candle tick price volume source_ts (some existing) =
    if existing.bucket_start == floor_to_kst_minute source_ts
    then (none, update_candle existing tick price volume source_ts)
    else (some existing, open_candle tick price volume source_ts (floor_to_kst_minute source_ts))

unfoldable pub accept :
    Text → ℕ → Option Candle × Candle → CandleBuilder → CandleIngestResult × CandleBuilder
unfolding assign
accept key source_ts (closed, next) b = (
  accepted closed next,
  record b {
    current = assign key next b.current;
    last_accepted_source_ts_ms = assign key source_ts b.last_accepted_source_ts_ms;
  },
)

abbrev pub is_stale : ℕ → Option ℕ → Bool
is_stale source_ts none = false
is_stale source_ts (some last) = ltb source_ts last

unfoldable pub ingest_at :
    MarketTick → ℕ → ℕ → ℕ → CandleBuilder → CandleIngestResult × CandleBuilder
unfolding reject accept next_candle lookup
ingest_at tick price volume source_ts b =
    let key = key_of tick.market_env tick.symbol in
    if is_stale source_ts (lookup key b.last_accepted_source_ts_ms)
    then reject stale_tick b
    else accept key source_ts (next_candle tick price volume source_ts (lookup key b.current)) b

-- The instant is `none` if its text is no date; the outer `none` is the error that `floorToKstMinute` then
-- throws.
unfoldable pub ingest_dated :
    MarketTick → ℕ → ℕ → Option ℕ → CandleBuilder → Option (CandleIngestResult × CandleBuilder)
unfolding ingest_at
ingest_dated tick price volume none b = none
ingest_dated tick price volume (some source_ts) b = some (ingest_at tick price volume source_ts b)

unfoldable pub ingest_numbers :
    MarketTick → ℤ → ℤ → Option ℕ → CandleBuilder → Option (CandleIngestResult × CandleBuilder)
unfolding ingest_dated reject
ingest_numbers tick price volume source_ts b =
    if leb_ℤ price (pos 0)
    then some (reject invalid_price b)
    else if magnitude volume == 0
    then some (reject invalid_volume b)
    else ingest_dated tick (magnitude price) (magnitude volume) source_ts b

unfoldable pub ingest_fields :
    MarketTick
    → Option ℤ
    → Option ℤ
    → SourceTs
    → CandleBuilder
    → Option (CandleIngestResult × CandleBuilder)
unfolding ingest_numbers reject
ingest_fields tick none volume source_ts b = some (reject missing_required_field b)
ingest_fields tick (some price) none source_ts b = some (reject missing_required_field b)
ingest_fields tick (some price) (some volume) absent b = some (reject missing_required_field b)
ingest_fields tick (some price) (some volume) invalid b = ingest_numbers tick price volume none b
ingest_fields tick (some price) (some volume) (at source_ts) b =
    ingest_numbers tick price volume (some source_ts) b

unfoldable pub ingest : MarketTick → CandleBuilder → Option (CandleIngestResult × CandleBuilder)
unfolding ingest_fields reject
ingest tick b =
    if is_blocking tick.parse_warnings
    then some (reject parse_warning b)
    else ingest_fields tick tick.price tick.trade_volume tick.source_ts b

abbrev values : List (Text × Candle) → List Candle
values [] = []
values ((key, candle) ∷ m) = candle ∷ values m

unfoldable pub open_buckets : CandleBuilder → List Candle
open_buckets b = values b.current

unfoldable pub flush_all : CandleBuilder → List Candle × CandleBuilder
flush_all b = (values b.current, record b { current = []; last_accepted_source_ts_ms = [] })

abbrev pub empty_builder : CandleBuilder
empty_builder = record { current = []; last_accepted_source_ts_ms = []; rejections = λ r. 0 }

-- The candles that a result closes.
abbrev pub closed_by : CandleIngestResult → List Candle
closed_by (accepted none current) = []
closed_by (accepted (some closed) current) = closed ∷ []
closed_by (rejected reason) = []

-- A stream of ticks: the candles closed, and the builder after it. A tick that throws is dropped by the
-- caller.
abbrev pub after_tick :
    Option (CandleIngestResult × CandleBuilder) → CandleBuilder → List Candle × CandleBuilder
after_tick none b = ([], b)
after_tick (some (r, next)) b = (closed_by r, next)

unfoldable pub ingest_all : List MarketTick → CandleBuilder → List Candle × CandleBuilder
unfolding ingest
ingest_all [] b = ([], b)
ingest_all (tick ∷ ticks) b =
    let step = after_tick (ingest tick b) b in
    let rest = ingest_all ticks step.1 in (step.0 ++ rest.0, rest.1)
