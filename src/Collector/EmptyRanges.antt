-- ===== src/Collector/EmptyRanges.antt =====
-- roles/collector/service/chart-empty-range.service.ts: ranges of a chart that the broker has no candles for.
-- `none` for a date is a text that `new Date` does not read; other dates are their milliseconds. Provider and
-- upper case, which every row has, are left out.
pub mod Keeping
pub mod Untouched
mod Tests
use trading_worker.Base.{
  ℕ, ◌+◌, max, Bool, true, false, not, ◌&&◌, List, [], ◌∷◌, ◌++◌, Option, some, none, ltb, ◌==◌,
  if◌then◌else◌, exists,
}
use trading_worker.Base.Text.{Text, text_eq, coalesce}
use trading_worker.Event.{MarketEnv, mock, production}
use trading_worker.Sql.{update_where}
use trading_worker.Archive.Tasks.{env_eq}

pub data EmptyReason : Type 0 where
  transient holiday no_data : EmptyReason

pub data CatchupMarket : Type 0 where
  krw_market al_market nxt_market unknown_market : CatchupMarket

pub data CatchupInterval : Type 0 where
  minute_interval day_interval : CatchupInterval

pub record TargetRange : Type 0 where
  pub from_date : Option ℕ
  pub to_date : Option ℕ

-- The fields of a catch-up request that are read here and by the catch-up itself; no target ranges are an
-- empty list of them.
pub record CatchupRequest : Type 0 where
  pub market_env : MarketEnv
  pub symbol : Text
  pub chart_market : Option CatchupMarket
  pub interval_type : CatchupInterval
  pub from_date : Option ℕ
  pub to_date : Option ℕ
  pub target_from : Option (Option ℕ)
  pub target_to : Option (Option ℕ)
  pub target_ranges : List TargetRange

-- The columns of the primary key.
pub record RangeKey : Type 0 where
  pub market_env : MarketEnv
  pub symbol : Text
  pub interval_type : CatchupInterval
  pub chart_market : CatchupMarket
  pub range_from : ℕ
  pub range_to : ℕ

pub record EmptyRange : Type 0 where
  pub key : RangeKey
  pub reason : EmptyReason
  pub recorded_at : ℕ
  pub ttl_until : ℕ

abbrev pub priority : EmptyReason → ℕ
priority transient = 1
priority no_data = 2
priority holiday = 3

abbrev pub ttl_ms_for : EmptyReason → ℕ
ttl_ms_for holiday = 86400000
ttl_ms_for no_data = 1800000
ttl_ms_for transient = 600000

abbrev market_code : CatchupMarket → ℕ
market_code krw_market = 0
market_code al_market = 1
market_code nxt_market = 2
market_code unknown_market = 3

abbrev interval_code : CatchupInterval → ℕ
interval_code minute_interval = 0
interval_code day_interval = 1

unfoldable pub range_key_eq : RangeKey → RangeKey → Bool
range_key_eq a b =
    env_eq a.market_env b.market_env
    && text_eq a.symbol b.symbol
    && (interval_code a.interval_type == interval_code b.interval_type)
    && (market_code a.chart_market == market_code b.chart_market)
    && (a.range_from == b.range_from)
    && (a.range_to == b.range_to)

abbrev pub has_range_key : RangeKey → EmptyRange → Bool
has_range_key key r = range_key_eq r.key key

abbrev default_market : MarketEnv → CatchupMarket
default_market production = al_market
default_market mock = krw_market

abbrev pub range_key_of : CatchupRequest → ℕ → ℕ → RangeKey
range_key_of request from to = record {
  market_env = request.market_env;
  symbol = request.symbol;
  interval_type = request.interval_type;
  chart_market = coalesce request.chart_market (default_market request.market_env);
  range_from = from;
  range_to = to;
}

-- `ON CONFLICT … DO UPDATE`: a stronger reason replaces the one that is there, and the range is never marked
-- for less long.
abbrev pub strengthened : EmptyReason → ℕ → ℕ → EmptyRange → EmptyRange
strengthened reason recorded_at ttl_until r = record {
  key = r.key;
  reason = if ltb (priority r.reason) (priority reason) then reason else r.reason;
  recorded_at = recorded_at;
  ttl_until = max r.ttl_until ttl_until;
}

-- The statement, on rows with the key and without.
unfoldable pub upsert_range : RangeKey → EmptyReason → ℕ → ℕ → List EmptyRange → List EmptyRange
unfolding update_where
upsert_range key reason recorded_at ttl_until rows =
    if exists (has_range_key key) rows
    then update_where (has_range_key key) (strengthened reason recorded_at ttl_until) rows
    else rows
      ++ record { key = key; reason = reason; recorded_at = recorded_at; ttl_until = ttl_until }
        ∷ []

-- What a call reads: the worker's clock and the database's, whether `ensureTable` succeeds, and whether
-- the database takes the statement.
pub record EmptyReads : Type 0 where
  pub now : ℕ
  pub database_now : ℕ
  pub is_ensured : Bool
  pub is_database_up : Bool

-- The statement fails on a date that is none, and on a range that the check of the table refuses; its error is
-- only logged.
abbrev pub mark_range :
    EmptyReads
    → CatchupRequest
    → Option ℕ
    → Option ℕ
    → EmptyReason
    → List EmptyRange
    → List EmptyRange
mark_range reads request none to reason rows = rows
mark_range reads request (some from) none reason rows = rows
mark_range reads request (some from) (some to) reason rows =
    if reads.is_database_up && ltb from to
    then upsert_range (range_key_of request from to) reason reads.database_now
        (reads.now + ttl_ms_for reason) rows
    else rows

-- `none` is the error of `ensureTable`, which is not caught.
unfoldable pub record_empty_range :
    EmptyReads
    → CatchupRequest
    → Option ℕ
    → Option ℕ
    → EmptyReason
    → List EmptyRange
    → Option (List EmptyRange)
unfolding upsert_range
record_empty_range reads request from to reason rows =
    if reads.is_ensured then some (mark_range reads request from to reason rows) else none

unfoldable pub record_empty :
    EmptyReads → CatchupRequest → EmptyReason → List EmptyRange → Option (List EmptyRange)
unfolding record_empty_range
record_empty reads request reason rows =
    record_empty_range reads request (coalesce request.target_from request.from_date)
      (coalesce request.target_to request.to_date) reason rows
