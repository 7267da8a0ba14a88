-- ===== src/Collector/Catchup/Targets.antt =====
-- What a run of the catch-up leaves behind: which rows are counted, which targets are marked, and which ranges
-- are not touched.
use trading_worker.Base.{
  ℕ, ◌+◌, ◌<◌, ◌≡◌, refl, ap, ◌∙◌, arith, Bool, true, false, ◌&&◌, List, [], ◌∷◌, Option, some,
  none, ltb, length, All, Bool-cases, inl, inr, ◌⊎◌, filter_by, subst,
}
use trading_worker.Base.Text.{coalesce}
use trading_worker.Sql.{find_first}
use trading_worker.Collector.EmptyRanges.{
  transient, priority, ttl_ms_for, TargetRange, CatchupRequest, RangeKey, EmptyRange, EmptyReads,
  has_range_key, range_key_of, record_empty_range, mark_range,
}
use trading_worker.Collector.EmptyRanges.Keeping.{IsMarked, mark_range-IsMarked, upsert_range-marks}
use trading_worker.Collector.EmptyRanges.Untouched.{mark_range_untouched}
use trading_worker.Collector.Catchup.{
  Bucket, UpsertAnswer, targets_of, targets_or, single_target, is_empty_target, record_target,
  record_targets, CatchupResult, run, and_then,
}
use trading_worker.Collector.Catchup.Rows.{
  may_persist, persistable_rows, IsOutside, empty_if_outside, All_if_empty, AllTaken, ThrowsAfter,
  Counts, upsert_rows-Upserts,
}

in_order : (from to : ℕ) (b : Bool) → ltb from to && b ≡ true → ltb from to ≡ true
in_order from to b h = ground arith

-- Marks that are there stay.
abbrev Keeps : List EmptyRange → List EmptyRange → Type 0
Keeps ranges after =
    (key : RangeKey) (level ttl : ℕ) → IsMarked key level ttl ranges → IsMarked key level ttl after

module _ (rows : List Bucket) where
  -- The row of a range in which a candle starts is the same as before.
  abbrev pub Spares : List EmptyRange → List EmptyRange → Type 0
  Spares ranges after =
      (key : RangeKey)
      → ¬ All (IsOutside key.range_from key.range_to) rows
      → find_first (has_range_key key) after ≡ find_first (has_range_key key) ranges

  module _ (reads : EmptyReads) (request : CatchupRequest) where
    -- A target whose dates are in order and in which no candle starts is marked.
    abbrev pub AccountedFor : Option ℕ → Option ℕ → List EmptyRange → Type 0
    AccountedFor none to ranges = Unit
    AccountedFor (some from) none ranges = Unit
    AccountedFor (some from) (some to) ranges =
        from < to
        → All (IsOutside from to) rows
        → IsMarked (range_key_of request from to) (priority transient)
            (reads.now + ttl_ms_for transient) ranges

    abbrev pub IsAccounted : List EmptyRange → TargetRange → Type 0
    IsAccounted ranges t = AccountedFor t.from_date t.to_date ranges

    keep_accounted :
        (from to : Option ℕ) (ranges after : List EmptyRange)
        → Keeps ranges after
        → AccountedFor from to ranges
        → AccountedFor from to after
    keep_accounted none to ranges after k a = tt
    keep_accounted (some from) none ranges after k a = tt
    keep_accounted (some from) (some to) ranges after k a = λ l h. k _ _ _ (a l h)

    module _ (ensured : reads.is_ensured ≡ true) (up : reads.is_database_up ≡ true) where
      abbrev Step : Option ℕ → Option ℕ → List EmptyRange → Type 0
      Step from to ranges =
          (next : List EmptyRange) × (record_target reads request rows from to ranges ≡ some next)
          × Keeps ranges next
          × Spares ranges next
          × AccountedFor from to next

      marked :
          (from to : ℕ) (ranges : List EmptyRange)
          → is_empty_target from to rows ≡ true
          → IsMarked
              (range_key_of request from to)
              (priority transient)
              (reads.now + ttl_ms_for transient)
              (mark_range reads request (some from) (some to) transient ranges)
      marked from to ranges e =
          rw (up, in_order from to _ e)
            (upsert_range-marks (range_key_of request from to) transient reads.database_now
              (reads.now + ttl_ms_for transient) ranges)

      spared :
          (from to : ℕ) (ranges : List EmptyRange)
          → is_empty_target from to rows ≡ true
          → Spares ranges (mark_range reads request (some from) (some to) transient ranges)
      spared from to ranges e key inside =
          mark_range_untouched key reads request from to transient
            (λ f t. inside (
              subst (λ a. All (IsOutside a key.range_to) rows) f
                (subst (λ b. All (IsOutside from b) rows) t (All_if_empty from to rows e))))
            ranges

      step : (from to : Option ℕ) (ranges : List EmptyRange) → Step from to ranges
      unfolding record_empty_range
      step none to ranges = (ranges, refl, (λ _ _ _ m. m), (λ _ _. refl), tt)
      step (some from) none ranges = (ranges, refl, (λ _ _ _ m. m), (λ _ _. refl), tt)
      step (some from) (some to) ranges = elim (Bool-cases (is_empty_target from to rows)) [
        | inl e ↦ (
          mark_range reads request (some from) (some to) transient ranges,
          rw (e, ensured) refl,
          (λ key level ttl m.
              mark_range-IsMarked key level ttl reads request (some from) (some to) transient ranges
                m),
          spared from to ranges e,
          (λ _ _. marked from to ranges e),
        )
        | inr e ↦ (
          ranges,
          rw e refl,
          (λ _ _ _ m. m),
          (λ _ _. refl),
          (λ l h. absurd (cc (e, empty_if_outside from to rows l h))),
        )
      ]

      abbrev AllAccounted : List TargetRange → List EmptyRange → Type 0
      AllAccounted targets ranges =
          (after : List EmptyRange) × (record_targets reads request rows targets ranges
            ≡ some after)
          × Keeps ranges after
          × Spares ranges after
          × All (IsAccounted after) targets

      pub record_targets-Accounted :
          (targets : List TargetRange) (ranges : List EmptyRange) → AllAccounted targets ranges
      unfolding record_targets
      record_targets-Accounted [] ranges = (ranges, refl, (λ _ _ _ m. m), (λ _ _. refl), tt)
      record_targets-Accounted (t ∷ targets) ranges =
          let (next, found, keeps, spares, accounted) = step t.from_date t.to_date ranges in
          let (after, rest, later, left, others) = record_targets-Accounted targets next in
          (
            after,
            ap (λ r. and_then r (record_targets reads request rows targets)) found ∙ rest,
            (λ key level ttl m. later key level ttl (keeps key level ttl m)),
            (λ key inside. left key inside ∙ spares key inside),
            (keep_accounted t.from_date t.to_date next after later accounted, others),
          )

    -- The targets of a request: its target ranges, or without any the one from its target dates, in place of
    -- which a date that is not given is the request's own.
    abbrev pub AllWanted : List TargetRange → List EmptyRange → Type 0
    AllWanted [] after =
        AccountedFor (coalesce request.target_from request.from_date)
          (coalesce request.target_to request.to_date) after
    AllWanted (t ∷ targets) after = All (IsAccounted after) (t ∷ targets)

    targets_or-AllWanted :
        (targets : List TargetRange) (after : List EmptyRange)
        → All (IsAccounted after) (targets_or targets (single_target request))
        → AllWanted targets after
    targets_or-AllWanted [] after h = h.0
    targets_or-AllWanted (t ∷ targets) after h = h

-- What a run over the candles that may be persisted has done, by how it ended.
module _ (reads : EmptyReads) (request : CatchupRequest) (rows : List Bucket)
    (answers : ℕ → UpsertAnswer) (ranges : List EmptyRange) where
  abbrev pub IsWhole : CatchupResult → List EmptyRange → Type 0
  IsWhole result after =
      AllTaken answers 0 (length rows)
      × (result.has_error ≡ false)
      × Counts answers 0 (length rows) result.candles_written result.candles_skipped
      × AllWanted rows reads request request.target_ranges after
      × Spares rows ranges after

  abbrev pub IsBrokenOff : CatchupResult → List EmptyRange → Type 0
  IsBrokenOff result after =
      (n : ℕ) × (n < length rows)
      × AllTaken answers 0 n
      × ThrowsAfter answers 0 n
      × (result.has_error ≡ true)
      × Counts answers 0 n result.candles_written result.candles_skipped
      × (after ≡ ranges)

  abbrev pub RunEnds : CatchupResult × List EmptyRange → Type 0
  RunEnds (result, after) = IsWhole result after ⊎ IsBrokenOff result after

-- A run that fetches candles, with the table of empty ranges there and its database up, ends in one of two
-- ways. If no write of the candles that may be persisted throws, there is no error, as many are counted as
-- written as were, the others as skipped, each target range, or without any the one
-- between the request's target dates or else its own, that has its dates in order and in which none of
-- these candles starts is marked as empty, for ten minutes at least, and the row of a range in which one of
-- them starts stays as it was. If a write throws, there is an error, the writes before it are counted so,
-- and no range is marked. Candles that may be persisted are those of days, and of minutes those that start
-- from 09:00 to before 15:20 in Korea.
pub run-Accounted :
    (reads : EmptyReads) (request : CatchupRequest) (rows : List Bucket)
    (answers : ℕ → UpsertAnswer) (ranges : List EmptyRange)
    → reads.is_ensured ≡ true
    → reads.is_database_up ≡ true
    → RunEnds reads request
        (filter_by (may_persist request.interval_type) rows)
        answers
        ranges
        (run reads request (some rows) answers ranges)
unfolding run
run-Accounted reads request rows answers ranges ensured up =
    let persistable = filter_by (may_persist request.interval_type) rows in
    let (after, found, keeps, spares, accounted) =
      record_targets-Accounted persistable reads request ensured up (targets_of request) ranges in
    rw (persistable_rows request rows) (elim (upsert_rows-Upserts answers 0 persistable) [
      | inl (complete, taken, counts) ↦
          rw (complete, found)
            (inl (
              taken,
              refl,
              counts,
              targets_or-AllWanted persistable reads request request.target_ranges after accounted,
              spares,
            ))
      | inr (n, less, broken, taken, thrown, counts) ↦
          rw broken (inr (n, less, taken, thrown, refl, counts, refl))
    ])
