-- ===== src/Candle/Wellformed.antt =====
-- The candles of candle.builder.ts, the held and the closed ones, over a stream of ticks.
use trading_worker.Base.{
  ℕ, ◌≤◌, ◌≡◌, ◌∙◌, sym, refl, ap, subst, arith, true, false, List, [], ◌∷◌, Option, some, none,
  ltb, ◌==◌, All, Returns, Bool-cases, inl, inr,
}
use mathlib.Core.Option.{some-injective}
use trading_worker.Base.Int.{ℤ, pos, leb_ℤ}
use trading_worker.Base.Text.{Text, text_eq}
use trading_worker.Base.TextMap.{lookup, assign, lookup-assign}
use trading_worker.Sql.Rows.{All-concat}
use trading_worker.Candle.{
  Candle, MarketTick, CandleBuilder, CandleIngestResult, TickRejection, stale_tick, invalid_price,
  invalid_volume, missing_required_field, parse_warning, SourceTs, absent, invalid, at, magnitude,
  reject, key_of, accept, is_stale, ingest_at, ingest_dated, ingest_numbers, ingest_fields,
  is_blocking, ingest, closed_by, after_tick, ingest_all,
}
use trading_worker.Candle.Minute.{IsWellformed, IsSound, Ready, Made, next_candle-Made}

lookup_here {ℓ} :
    {V : Type ℓ} (k j : Text) (v : V) (m : List (Text × V))
    → text_eq k j ≡ true
    → lookup j (assign k v m) ≡ some v
lookup_here k j v m e = lookup-assign k j v m ∙ rw e refl

lookup_other {ℓ} :
    {V : Type ℓ} (k j : Text) (v : V) (m : List (Text × V))
    → text_eq k j ≡ false
    → lookup j (assign k v m) ≡ lookup j m
lookup_other k j v m e = lookup-assign k j v m ∙ rw e refl

-- A builder after an accepted tick.
accept-IsSound :
    (key : Text) (ts : ℕ) (x : Option Candle × Candle) (b : CandleBuilder)
    → IsSound b
    → IsWellformed x.1
    → x.1.last_source_ts ≡ ts
    → IsSound (accept key ts x b).1
unfolding accept
accept-IsSound key ts (closed, next) b s w e = λ j c found. elim (Bool-cases (text_eq key j)) [
  | inl same ↦
      let here : next ≡ c =
        some-injective _ _ (sym (lookup_here key j next b.current same) ∙ found) in
      (
        subst IsWellformed here w,
        lookup_here key j ts b.last_accepted_source_ts_ms same
            ∙ ap some (sym e ∙ ap (λ d. d.last_source_ts) here),
      )
  | inr other ↦
      let (good, last) = s j c (sym (lookup_other key j next b.current other) ∙ found) in
      (good, lookup_other key j ts b.last_accepted_source_ts_ms other ∙ last)
]

-- What a tick may leave: a sound builder, and well-formed candles closed.
abbrev pub Good : CandleIngestResult × CandleBuilder → Type 0
Good x = IsSound x.1 × All IsWellformed (closed_by x.0)

reject-Good : (reason : TickRejection) (b : CandleBuilder) → IsSound b → Good (reject reason b)
unfolding reject
reject-Good reason b s = (s, tt)

accept-Good :
    (tick : MarketTick) (price volume ts : ℕ) (v : 1 ≤ volume) (key : Text)
    (x : Option Candle × Candle) (b : CandleBuilder)
    → IsSound b
    → Made tick price volume ts v x
    → Good (accept key ts x b)
unfolding accept
accept-Good tick price volume ts v key (none, next) b s (closed, good, last) =
    (accept-IsSound key ts (none, next) b s good last, tt)
accept-Good tick price volume ts v key (some c, next) b s (closed, good, last) =
    (accept-IsSound key ts (some c, next) b s good last, closed)

module _ (tick : MarketTick) (b : CandleBuilder) (s : IsSound b) where
  found_ready :
      (price volume ts : ℕ) (v : 1 ≤ volume) (key : Text)
      → is_stale ts (lookup key b.last_accepted_source_ts_ms) ≡ false
      → (existing : Option Candle) → lookup key b.current ≡ existing
      → Ready tick price volume ts v existing
  found_ready price volume ts v key fresh none e = tt
  found_ready price volume ts v key fresh (some c) e =
      let (good, last) = s key c e in
      (good, not_before ts c.last_source_ts (subst (λ o. is_stale ts o ≡ false) last fresh))
    where
      not_before : (ts last : ℕ) → ltb ts last ≡ false → last ≤ ts
      not_before ts last h = ground arith

  ingest_at-Good : (price volume ts : ℕ) → 1 ≤ volume → Good (ingest_at tick price volume ts b)
  unfolding ingest_at
  ingest_at-Good price volume ts v =
      let key = key_of tick.market_env tick.symbol in
      elim (Bool-cases (is_stale ts (lookup key b.last_accepted_source_ts_ms))) [
        | inl e ↦ rw e (reject-Good stale_tick b s)
        | inr e ↦ rw e (
            accept-Good tick price volume ts v key _ b s (
              next_candle-Made tick price volume ts v (lookup key b.current)
                (found_ready price volume ts v key e (lookup key b.current) refl)))
      ]

  ingest_dated-Good :
      (price volume : ℕ) (ts : Option ℕ)
      → 1 ≤ volume
      → Returns Good (ingest_dated tick price volume ts b)
  unfolding ingest_dated
  ingest_dated-Good price volume none v = tt
  ingest_dated-Good price volume (some ts) v = ingest_at-Good price volume ts v

  ingest_numbers-Good :
      (price volume : ℤ) (ts : Option ℕ) → Returns Good (ingest_numbers tick price volume ts b)
  unfolding ingest_numbers
  ingest_numbers-Good price volume ts = elim (Bool-cases (leb_ℤ price (pos 0))) [
    | inl e ↦ rw e (reject-Good invalid_price b s)
    | inr e ↦ elim (Bool-cases (magnitude volume == 0)) [
      | inl f ↦ rw (e, f) (reject-Good invalid_volume b s)
      | inr f ↦
          rw (e, f)
            (ingest_dated-Good (magnitude price) (magnitude volume) ts
              (not_zero (magnitude volume) f))
    ]
  ]
    where
      not_zero : (n : ℕ) → (n == 0) ≡ false → 1 ≤ n
      not_zero n h = ground arith

  ingest_fields-Good :
      (price volume : Option ℤ) (ts : SourceTs)
      → Returns Good (ingest_fields tick price volume ts b)
  unfolding ingest_fields
  ingest_fields-Good none volume ts = reject-Good missing_required_field b s
  ingest_fields-Good (some price) none ts = reject-Good missing_required_field b s
  ingest_fields-Good (some price) (some volume) absent = reject-Good missing_required_field b s
  ingest_fields-Good (some price) (some volume) invalid = ingest_numbers-Good price volume none
  ingest_fields-Good (some price) (some volume) (at ts) = ingest_numbers-Good price volume (some ts)

  ingest-Good : Returns Good (ingest tick b)
  unfolding ingest
  ingest-Good = elim (Bool-cases (is_blocking tick.parse_warnings)) [
    | inl e ↦ rw e (reject-Good parse_warning b s)
    | inr e ↦ rw e (ingest_fields-Good tick.price tick.trade_volume tick.source_ts)
  ]

after_tick-Good :
    (m : Option (CandleIngestResult × CandleBuilder)) (b : CandleBuilder)
    → IsSound b
    → Returns Good m
    → All IsWellformed (after_tick m b).0 × IsSound (after_tick m b).1
after_tick-Good none b s h = (tt, s)
after_tick-Good (some (r, next)) b s h = (h.1, h.0)

-- From a builder whose candles are well formed, each with its last tick the last accepted under its key, such
-- as the empty one: whatever ticks come, in whatever order, every candle closed is well formed, and so is
-- every candle then held.
pub ingest_all-IsSound :
    (ticks : List MarketTick) (b : CandleBuilder)
    → IsSound b
    → All IsWellformed (ingest_all ticks b).0 × IsSound (ingest_all ticks b).1
unfolding ingest_all
ingest_all-IsSound [] b s = (tt, s)
ingest_all-IsSound (tick ∷ ticks) b s =
    let (closed, next) = after_tick-Good (ingest tick b) b s (ingest-Good tick b s) in
    let (more, last) = ingest_all-IsSound ticks (after_tick (ingest tick b) b).1 next in
    (All-concat IsWellformed _ _ closed more, last)
