-- ===== src/Collector/Catchup/Rows.antt =====
-- Which candles a catch-up persists, where they start, and how it counts them.
use trading_worker.Base.{
  ◌≤◌, All, ℕ, zero, suc, ◌+◌, ◌/◌, ◌%◌, ◌<◌, ◌≡◌, refl, arith, Bool, true, false, ◌&&◌, List, [],
  ◌∷◌, some, none, ltb, leb, length, inl, inr, ◌⊎◌, filter_by,
}
use trading_worker.Collector.EmptyRanges.{
  CatchupInterval, minute_interval, day_interval, CatchupRequest,
}
use trading_worker.Collector.Catchup.{
  has_rows_in, is_empty_target, Bucket, is_persistable_catchup_row,
  is_krx_continuous_session_bucket, UpsertAnswer, wrote, skipped, throws, Upserted, count_answer,
  upsert_rows,
}

-- The candles that may be persisted, in milliseconds: of days all, of minutes those that start from 09:00 to
-- before 15:20 in Korea, nine hours ahead.
abbrev pub may_persist : CatchupInterval → Bucket → Bool
may_persist day_interval row = true
may_persist minute_interval none = false
may_persist minute_interval (some start) =
    let of_day = (start + 32400000) % 86400000 in leb 32400000 of_day && ltb of_day 55200000

same_minute :
    (t : ℕ)
    → (let minutes = t / 60000 % 1440 in leb 540 minutes && ltb minutes 920)
      ≡ (leb 32400000 (t % 86400000) && ltb (t % 86400000) 55200000)
same_minute t = ground arith

-- What the code tests in minutes.
pub is_persistable-may_persist :
    (request : CatchupRequest) (row : Bucket)
    → is_persistable_catchup_row request row ≡ may_persist request.interval_type row
unfolding is_krx_continuous_session_bucket
is_persistable-may_persist request row = of_interval request.interval_type row
  where
    of_interval :
        (i : CatchupInterval) (row : Bucket)
        → is_persistable_catchup_row (record request { interval_type = i }) row ≡ may_persist i row
    of_interval day_interval row = refl
    of_interval minute_interval none = refl
    of_interval minute_interval (some start) = same_minute (start + 32400000)

filter_by-same :
    (p q : Bucket → Bool)
    → ((row : Bucket) → p row ≡ q row)
    → (rows : List Bucket) → filter_by p rows ≡ filter_by q rows
unfolding filter_by
filter_by-same p q same [] = refl
filter_by-same p q same (row ∷ rows) = rw (same row, filter_by-same p q same rows) refl

pub persistable_rows :
    (request : CatchupRequest) (rows : List Bucket)
    → filter_by (is_persistable_catchup_row request) rows
      ≡ filter_by (may_persist request.interval_type) rows
persistable_rows request rows =
    filter_by-same (is_persistable_catchup_row request) (may_persist request.interval_type)
      (is_persistable-may_persist request) rows

-- The candle does not start in the range.
abbrev pub IsOutside : ℕ → ℕ → Bucket → Type 0
IsOutside from to none = Unit
IsOutside from to (some start) = (start < from) ⊎ (to ≤ start)

All_if_none :
    (from to : ℕ) (rows : List Bucket)
    → has_rows_in from to rows ≡ false
    → All (IsOutside from to) rows
All_if_none from to [] h = tt
All_if_none from to (none ∷ rows) h = (tt, All_if_none from to rows h)
All_if_none from to (some start ∷ rows) h = (ground arith, All_if_none from to rows (ground arith))

none_if_outside :
    (from to : ℕ) (rows : List Bucket)
    → All (IsOutside from to) rows
    → has_rows_in from to rows ≡ false
none_if_outside from to [] h = refl
none_if_outside from to (none ∷ rows) h = none_if_outside from to rows h.1
none_if_outside from to (some start ∷ rows) (h, others) =
    ground (arith, none_if_outside from to rows others)

pub empty_if_outside :
    (from to : ℕ) (rows : List Bucket)
    → from < to
    → All (IsOutside from to) rows
    → is_empty_target from to rows ≡ true
empty_if_outside from to rows l h = ground (arith, none_if_outside from to rows h)

pub All_if_empty :
    (from to : ℕ) (rows : List Bucket)
    → is_empty_target from to rows ≡ true
    → All (IsOutside from to) rows
All_if_empty from to rows h = All_if_none from to rows (ground arith)

-- The write does not throw.
abbrev pub IsTaken : UpsertAnswer → Type 0
IsTaken wrote = Unit
IsTaken skipped = Unit
IsTaken throws = ⊥

abbrev one_if_wrote : UpsertAnswer → ℕ
one_if_wrote wrote = 1
one_if_wrote skipped = 0
one_if_wrote throws = 0

-- How many of the answers, `n` of them from a place on, say that the row was written.
abbrev pub wrote_among : (ℕ → UpsertAnswer) → ℕ → ℕ → ℕ
wrote_among answers i zero = 0
wrote_among answers i (suc n) = one_if_wrote (answers i) + wrote_among answers (suc i) n

-- The `n` writes from a place on do not throw.
abbrev pub AllTaken : (ℕ → UpsertAnswer) → ℕ → ℕ → Type 0
AllTaken answers i zero = Unit
AllTaken answers i (suc n) = IsTaken (answers i) × AllTaken answers (suc i) n

-- The write after these throws.
abbrev pub ThrowsAfter : (ℕ → UpsertAnswer) → ℕ → ℕ → Type 0
ThrowsAfter answers i zero = answers i ≡ throws
ThrowsAfter answers i (suc n) = ThrowsAfter answers (suc i) n

abbrev pub Counts : (ℕ → UpsertAnswer) → ℕ → ℕ → ℕ → ℕ → Type 0
Counts answers i n written skips = (written ≡ wrote_among answers i n) × (written + skips ≡ n)

-- All rows are written or skipped, or a write throws, which ends the loop.
abbrev pub Upserts : (ℕ → UpsertAnswer) → ℕ → ℕ → Upserted → Type 0
Upserts answers i rows u =
    ((u.is_complete ≡ true)
      × AllTaken answers i rows
      × Counts answers i rows u.written u.skipped_rows)
    ⊎ ((n : ℕ) × (n < rows)
        × (u.is_complete ≡ false)
        × AllTaken answers i n
        × ThrowsAfter answers i n
        × Counts answers i n u.written u.skipped_rows)

one_more :
    (answers : ℕ → UpsertAnswer) (i rows : ℕ) (u : Upserted) (answer : UpsertAnswer)
    → answers i ≡ answer
    → Upserts answers (suc i) rows u
    → Upserts answers i (suc rows) (count_answer answer u)
one_more answers i rows u wrote e (inl (c, t, (w, s))) =
    inl (c, (rw e tt, t), (rw e (omega (arith, w)), omega (arith, s)))
one_more answers i rows u wrote e (inr (n, l, c, t, h, (w, s))) =
    inr (suc n, omega (arith, l), c, (rw e tt, t), h, (rw e (omega (arith, w)), omega (arith, s)))
one_more answers i rows u skipped e (inl (c, t, (w, s))) =
    inl (c, (rw e tt, t), (rw e (omega (arith, w)), omega (arith, s)))
one_more answers i rows u skipped e (inr (n, l, c, t, h, (w, s))) =
    inr (suc n, omega (arith, l), c, (rw e tt, t), h, (rw e (omega (arith, w)), omega (arith, s)))
one_more answers i rows u throws e h = inr (0, omega arith, refl, tt, e, (refl, refl))

pub upsert_rows-Upserts :
    (answers : ℕ → UpsertAnswer) (i : ℕ) (rows : List Bucket)
    → Upserts answers i (length rows) (upsert_rows answers i rows)
unfolding upsert_rows
upsert_rows-Upserts answers i [] = inl (refl, tt, (refl, refl))
upsert_rows-Upserts answers i (row ∷ rows) =
    one_more answers i (length rows) (upsert_rows answers (suc i) rows) (answers i) refl
      (upsert_rows-Upserts answers (suc i) rows)
