-- ===== src/Candle/Counting.antt =====
-- The tick and volume counts of candle.builder.ts: `ingest` over a stream of ticks.
use trading_worker.Base.{
  ℕ, ◌+◌, ◌≡◌, refl, arith, List, [], ◌∷◌, Option, some, none, ◌==◌, Returns, Bool-cases, inl, inr,
}
use trading_worker.Base.Int.{ℤ, pos, leb_ℤ}
use trading_worker.Base.Text.{Text}
use trading_worker.Base.TextMap.{lookup, total, part, total-assign}
use trading_worker.Candle.{
  Candle, MarketTick, CandleBuilder, CandleIngestResult, accepted, rejected, TickRejection,
  stale_tick, invalid_price, invalid_volume, missing_required_field, parse_warning, SourceTs,
  absent, invalid, at, floor_to_kst_minute, magnitude, open_candle, update_candle, reject, key_of,
  next_candle, accept, is_stale, ingest_at, ingest_dated, ingest_numbers, ingest_fields,
  is_blocking, ingest, closed_by,
}

-- A measure of the candles closed.
pub sum_of : (Candle → ℕ) → List Candle → ℕ
sum_of f [] = 0
sum_of f (c ∷ cs) = f c + sum_of f cs

-- What an accepted tick brings.
abbrev pub taken : CandleIngestResult → ℕ → ℕ
taken (accepted closed current) n = n
taken (rejected reason) n = 0

-- The ticks, and the volume, of the candles held and closed after a tick: those held before, and those of the
-- tick if it is accepted.
abbrev pub Counts : ℕ → CandleBuilder → CandleIngestResult × CandleBuilder → Type 0
Counts volume b x =
    (total (λ c. c.tick_count) x.1.current + sum_of (λ c. c.tick_count) (closed_by x.0)
      ≡ total (λ c. c.tick_count) b.current + taken x.0 1)
    × (total (λ c. c.volume) x.1.current + sum_of (λ c. c.volume) (closed_by x.0)
        ≡ total (λ c. c.volume) b.current + taken x.0 volume)

reject-Counts :
    (volume : ℕ) (reason : TickRejection) (b : CandleBuilder) → Counts volume b (reject reason b)
unfolding reject sum_of
reject-Counts volume reason b = (omega arith, omega arith)

-- A measure that a new candle starts at `n` and an update raises by `n`.
module _ (f : Candle → ℕ) (n : ℕ) where
  abbrev Raises : Option Candle → Option Candle × Candle → Type 0
  Raises existing (closed, next) = part f closed + f next ≡ part f existing + n

  accept-sum :
      (key : Text) (ts : ℕ) (x : Option Candle × Candle) (b : CandleBuilder)
      → Raises (lookup key b.current) x
      → total f (accept key ts x b).1.current + sum_of f (closed_by (accept key ts x b).0)
        ≡ total f b.current + n
  unfolding accept sum_of
  accept-sum key ts (none, next) b h = omega (arith, total-assign f key next b.current, h)
  accept-sum key ts (some c, next) b h = omega (arith, total-assign f key next b.current, h)

accept-taken :
    (key : Text) (ts : ℕ) (x : Option Candle × Candle) (b : CandleBuilder) (n : ℕ)
    → taken (accept key ts x b).0 n ≡ n
unfolding accept
accept-taken key ts (closed, next) b n = refl

module _ (tick : MarketTick) (price volume ts : ℕ) where
  next_candle-ticks :
      (existing : Option Candle)
      → Raises (λ c. c.tick_count) 1 existing (next_candle tick price volume ts existing)
  unfolding next_candle open_candle update_candle
  next_candle-ticks none = omega arith
  next_candle-ticks (some c) = elim (Bool-cases (c.bucket_start == floor_to_kst_minute ts)) [
    | inl e ↦ rw e (omega arith)
    | inr e ↦ rw e refl
  ]

  next_candle-volume :
      (existing : Option Candle)
      → Raises (λ c. c.volume) volume existing (next_candle tick price volume ts existing)
  unfolding next_candle open_candle update_candle
  next_candle-volume none = omega arith
  next_candle-volume (some c) = elim (Bool-cases (c.bucket_start == floor_to_kst_minute ts)) [
    | inl e ↦ rw e (omega arith)
    | inr e ↦ rw e refl
  ]

  ingest_at-Counts : (b : CandleBuilder) → Counts volume b (ingest_at tick price volume ts b)
  unfolding ingest_at
  ingest_at-Counts b =
      let key = key_of tick.market_env tick.symbol in
      let x = next_candle tick price volume ts (lookup key b.current) in
      elim (Bool-cases (is_stale ts (lookup key b.last_accepted_source_ts_ms))) [
        | inl e ↦ rw e (reject-Counts volume stale_tick b)
        | inr e ↦ rw e (
          rw (accept-taken key ts x b 1) (
              accept-sum (λ c. c.tick_count) 1 key ts x b
                (next_candle-ticks (lookup key b.current))),
          rw (accept-taken key ts x b volume) (
              accept-sum (λ c. c.volume) volume key ts x b
                (next_candle-volume (lookup key b.current))),
        )
      ]

-- The volume that a tick reports, whatever its sign.
abbrev pub volume_of : MarketTick → ℕ
volume_of tick = part magnitude tick.trade_volume

module _ (tick : MarketTick) (b : CandleBuilder) where
  ingest_dated-Counts :
      (price volume : ℕ) (ts : Option ℕ)
      → Returns (Counts volume b) (ingest_dated tick price volume ts b)
  unfolding ingest_dated
  ingest_dated-Counts price volume none = tt
  ingest_dated-Counts price volume (some ts) = ingest_at-Counts tick price volume ts b

  ingest_numbers-Counts :
      (price volume : ℤ) (ts : Option ℕ)
      → Returns (Counts (magnitude volume) b) (ingest_numbers tick price volume ts b)
  unfolding ingest_numbers
  ingest_numbers-Counts price volume ts = elim (Bool-cases (leb_ℤ price (pos 0))) [
    | inl e ↦ rw e (reject-Counts (magnitude volume) invalid_price b)
    | inr e ↦ elim (Bool-cases (magnitude volume == 0)) [
      | inl f ↦ rw (e, f) (reject-Counts (magnitude volume) invalid_volume b)
      | inr f ↦ rw (e, f) (ingest_dated-Counts (magnitude price) (magnitude volume) ts)
    ]
  ]

  ingest_fields-Counts :
      (price volume : Option ℤ) (ts : SourceTs)
      → Returns (Counts (part magnitude volume) b) (ingest_fields tick price volume ts b)
  unfolding ingest_fields
  ingest_fields-Counts none volume ts =
      reject-Counts (part magnitude volume) missing_required_field b
  ingest_fields-Counts (some price) none ts = reject-Counts 0 missing_required_field b
  ingest_fields-Counts (some price) (some volume) absent =
      reject-Counts (magnitude volume) missing_required_field b
  ingest_fields-Counts (some price) (some volume) invalid = ingest_numbers-Counts price volume none
  ingest_fields-Counts (some price) (some volume) (at ts) =
      ingest_numbers-Counts price volume (some ts)

  -- Whenever a tick is taken in with no error: the candles held and closed count the ticks and the volume that
  -- the candles held before counted, and one tick and its volume, whatever its sign, if it was accepted.
  pub ingest-Counts : Returns (Counts (volume_of tick) b) (ingest tick b)
  unfolding ingest
  ingest-Counts = elim (Bool-cases (is_blocking tick.parse_warnings)) [
    | inl e ↦ rw e (reject-Counts (volume_of tick) parse_warning b)
    | inr e ↦ rw e (ingest_fields-Counts tick.price tick.trade_volume tick.source_ts)
  ]
