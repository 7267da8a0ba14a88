-- ===== src/Candle/Minute.antt =====
-- The lemmas on one minute of candle.builder.ts: a candle opened or updated by a tick.
use trading_worker.Base.{
  ℕ, ◌+◌, ◌%◌, ◌≤◌, ◌<◌, ◌≡◌, refl, arith, List, [], ◌∷◌, Option, some, none, ◌==◌, ==_iff, All,
  Bool-cases, inl, inr,
}
use trading_worker.Base.Text.{Text}
use trading_worker.Base.TextMap.{lookup}
use trading_worker.Candle.{
  Candle, MarketTick, CandleBuilder, one_minute_ms, floor_to_kst_minute, open_candle, update_candle,
  next_candle,
}

-- The prices of a candle stand in their order, its minute is one minute of the clock, its first and last
-- ticks lie in that minute in their order, and it counts a tick and a volume at least.
pub record IsWellformed (c : Candle) : Type 0 where
  pub low_open : c.low ≤ c.open_price
  pub low_close : c.low ≤ c.close
  pub open_high : c.open_price ≤ c.high
  pub close_high : c.close ≤ c.high
  pub aligned : c.bucket_start % one_minute_ms ≡ 0
  pub one_minute : c.bucket_end ≡ c.bucket_start + one_minute_ms
  pub starts : c.bucket_start ≤ c.first_source_ts
  pub in_order : c.first_source_ts ≤ c.last_source_ts
  pub ends : c.last_source_ts < c.bucket_end
  pub counted : 1 ≤ c.tick_count
  pub traded : 1 ≤ c.volume

-- Each candle held is well formed, and its last tick is the last accepted under its key.
abbrev pub IsSound : CandleBuilder → Type 0
IsSound b =
    (key : Text) (c : Candle)
    → lookup key b.current ≡ some c
    → IsWellformed c × (lookup key b.last_accepted_source_ts_ms ≡ some c.last_source_ts)

floor_bounds :
    (ts : ℕ)
    → (floor_to_kst_minute ts ≤ ts)
      × (ts < floor_to_kst_minute ts + one_minute_ms)
      × (floor_to_kst_minute ts % one_minute_ms ≡ 0)
unfolding floor_to_kst_minute
floor_bounds ts = (omega arith, omega arith, omega arith)

open_candle-IsWellformed :
    (tick : MarketTick) (price volume ts : ℕ)
    → 1 ≤ volume
    → IsWellformed (open_candle tick price volume ts (floor_to_kst_minute ts))
unfolding open_candle
open_candle-IsWellformed tick price volume ts v =
    let (below, above, aligned) = floor_bounds ts in
    record {
      low_open = omega arith;
      low_close = omega arith;
      open_high = omega arith;
      close_high = omega arith;
      aligned = aligned;
      one_minute = omega arith;
      starts = below;
      in_order = omega arith;
      ends = omega arith;
      counted = omega arith;
      traded = v;
    }

update_candle-IsWellformed :
    (c : Candle) (tick : MarketTick) (price volume ts : ℕ)
    → IsWellformed c
    → c.bucket_start ≡ floor_to_kst_minute ts
    → c.last_source_ts ≤ ts
    → IsWellformed (update_candle c tick price volume ts)
unfolding update_candle
update_candle-IsWellformed c tick price volume ts w e h =
    let (below, above, aligned) = floor_bounds ts in
    let low_open = w.low_open in
    let low_close = w.low_close in
    let open_high = w.open_high in
    let close_high = w.close_high in
    let one_minute = w.one_minute in
    let starts = w.starts in
    let in_order = w.in_order in
    let counted = w.counted in
    let traded = w.traded in
    record {
      low_open = omega arith;
      low_close = omega arith;
      open_high = omega arith;
      close_high = omega arith;
      aligned = w.aligned;
      one_minute = w.one_minute;
      starts = w.starts;
      in_order = omega arith;
      ends = omega arith;
      counted = omega arith;
      traded = omega arith;
    }

abbrev pub candles_of : Option Candle → List Candle
candles_of none = []
candles_of (some c) = c ∷ []

-- What the builder makes of the candle under the key, at an instant that is not before its last tick.
module _ (tick : MarketTick) (price volume ts : ℕ) (v : 1 ≤ volume) where
  abbrev pub Ready : Option Candle → Type 0
  Ready none = Unit
  Ready (some c) = IsWellformed c × (c.last_source_ts ≤ ts)

  abbrev pub Made : Option Candle × Candle → Type 0
  Made (closed, next) =
      All IsWellformed (candles_of closed) × IsWellformed next × (next.last_source_ts ≡ ts)

  opened :
      (start : ℕ)
      → (open_candle tick price volume ts (floor_to_kst_minute start)).last_source_ts ≡ ts
  unfolding open_candle
  opened start = refl

  updated : (c : Candle) → (update_candle c tick price volume ts).last_source_ts ≡ ts
  unfolding update_candle
  updated c = refl

  pub next_candle-Made :
      (existing : Option Candle) → Ready existing → Made (next_candle tick price volume ts existing)
  unfolding next_candle
  next_candle-Made none h = (tt, open_candle-IsWellformed tick price volume ts v, opened ts)
  next_candle-Made (some c) (w, h) = elim (Bool-cases (c.bucket_start == floor_to_kst_minute ts)) [
    | inl e ↦
        rw e
          (tt, update_candle-IsWellformed c tick price volume ts w ((==_iff _ _).0 e) h, updated c)
    | inr e ↦ rw e ((w, tt), open_candle-IsWellformed tick price volume ts v, opened ts)
  ]
