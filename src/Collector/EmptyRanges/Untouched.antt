-- ===== src/Collector/EmptyRanges/Untouched.antt =====
-- Marking one range leaves the rows of the others.
use trading_worker.Base.{
  ℕ, ◌+◌, ◌≡◌, refl, arith, true, false, ◌&&◌, List, [], ◌∷◌, ◌++◌, some, ltb, exists, Bool-cases,
  inl, inr,
}
use trading_worker.Sql.{find_first, update_where}
use trading_worker.Collector.EmptyRanges.{
  EmptyReason, CatchupRequest, RangeKey, EmptyRange, EmptyReads, ttl_ms_for, range_key_eq,
  has_range_key, range_key_of, strengthened, upsert_range, mark_range,
}

-- Two keys of the same row have the same dates.
same_dates :
    (r k key : RangeKey)
    → range_key_eq r k ≡ true
    → range_key_eq r key ≡ true
    → (k.range_from ≡ key.range_from) × (k.range_to ≡ key.range_to)
unfolding range_key_eq
same_dates r k key h g = (ground arith, ground arith)

module _ (key k : RangeKey)
    (apart : k.range_from ≡ key.range_from → k.range_to ≡ key.range_to → ⊥) where
  miss : (r : EmptyRange) → has_range_key k r ≡ true → has_range_key key r ≡ false
  miss r h = elim (Bool-cases (has_range_key key r)) [
    | inl e ↦ let (from, to) = same_dates r.key k key h e in absurd (apart from to)
    | inr e ↦ e
  ]

  find_first_update_missed :
      (f : EmptyRange → EmptyRange)
      → ((r : EmptyRange) → (f r).key ≡ r.key)
      → (rows : List EmptyRange)
      → find_first (has_range_key key) (update_where (has_range_key k) f rows)
        ≡ find_first (has_range_key key) rows
  unfolding update_where find_first
  find_first_update_missed f same [] = refl
  find_first_update_missed f same (r ∷ rows) = elim (Bool-cases (has_range_key k r)) [
    | inl e ↦ rw (e, same r, miss r e) (find_first_update_missed f same rows)
    | inr e ↦ rw (e, find_first_update_missed f same rows) refl
  ]

  find_first_added_missed :
      (new : EmptyRange)
      → has_range_key key new ≡ false
      → (rows : List EmptyRange)
      → find_first (has_range_key key) (rows ++ new ∷ []) ≡ find_first (has_range_key key) rows
  unfolding find_first
  find_first_added_missed new e [] = rw e refl
  find_first_added_missed new e (r ∷ rows) = rw (find_first_added_missed new e rows) refl

  not_itself : range_key_eq k key ≡ true → ⊥
  unfolding range_key_eq
  not_itself h = apart (ground arith) (ground arith)

  self_missed : range_key_eq k key ≡ false
  self_missed = elim (Bool-cases (range_key_eq k key)) [ inl e ↦ absurd (not_itself e) | inr e ↦ e ]

  upsert_range_untouched :
      (reason : EmptyReason) (at until : ℕ) (rows : List EmptyRange)
      → find_first (has_range_key key) (upsert_range k reason at until rows)
        ≡ find_first (has_range_key key) rows
  unfolding upsert_range
  upsert_range_untouched reason at until rows = elim (Bool-cases (exists (has_range_key k) rows)) [
    | inl e ↦ rw e (find_first_update_missed (strengthened reason at until) (λ r. refl) rows)
    | inr e ↦ rw e (find_first_added_missed _ self_missed rows)
  ]

pub mark_range_untouched :
    (key : RangeKey) (reads : EmptyReads) (request : CatchupRequest) (from to : ℕ)
    (reason : EmptyReason)
    → (from ≡ key.range_from → to ≡ key.range_to → ⊥)
    → (rows : List EmptyRange)
    → find_first (has_range_key key) (mark_range reads request (some from) (some to) reason rows)
      ≡ find_first (has_range_key key) rows
mark_range_untouched key reads request from to reason apart rows =
    elim (Bool-cases (reads.is_database_up && ltb from to)) [
      | inl e ↦ rw e (
          upsert_range_untouched key (range_key_of request from to) apart reason reads.database_now
            (reads.now + ttl_ms_for reason) rows)
      | inr e ↦ rw e refl
    ]
