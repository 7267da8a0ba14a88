-- ===== src/Collector/EmptyRanges/Keeping.antt =====
-- What a mark of an empty range is worth after later marks.
use trading_worker.Base.{
  ℕ, ◌+◌, ◌≤◌, max, ◌≡◌, refl, ap, ◌∙◌, arith, true, ◌&&◌, List, [], ◌∷◌, Option, some, none, ltb,
  if◌then◌else◌, exists, Bool-cases, inl, inr,
}
use trading_worker.Base.Text.{text_eq_self}
use mathlib.Core.Option
use trading_worker.Sql.{find_first}
use trading_worker.Sql.Rows.{
  find_first_after_update, find_first-append, find_first-update_where, find_first_new,
  find_first_of_exists,
}
use trading_worker.Collector.EmptyRanges.{
  EmptyReason, CatchupRequest, RangeKey, EmptyRange, EmptyReads, priority, ttl_ms_for, range_key_eq,
  has_range_key, range_key_of, strengthened, upsert_range, mark_range, record_empty_range,
}

-- A call of `recordEmptyRange`; one that fails leaves the rows as they are.
pub record EmptyCall : Type 0 where
  pub reads : EmptyReads
  pub request : CatchupRequest
  pub from_date : Option ℕ
  pub to_date : Option ℕ
  pub reason : EmptyReason

abbrev pub call_of : EmptyReads → CatchupRequest → Option ℕ → Option ℕ → EmptyReason → EmptyCall
call_of reads request from to reason = record {
  reads = reads;
  request = request;
  from_date = from;
  to_date = to;
  reason = reason;
}

abbrev unless_thrown : List EmptyRange → Option (List EmptyRange) → List EmptyRange
unless_thrown rows none = rows
unless_thrown rows (some after) = after

unfoldable pub record_calls : List EmptyCall → List EmptyRange → List EmptyRange
unfolding record_empty_range
record_calls [] rows = rows
record_calls (c ∷ calls) rows =
    record_calls calls (
      unless_thrown rows (record_empty_range c.reads c.request c.from_date c.to_date c.reason rows))

-- The stronger of the reason that is there and the new one.
priority-strengthened :
    (reason : EmptyReason) (at until : ℕ) (r : EmptyRange)
    → priority ((strengthened reason at until r).reason) ≡ max (priority r.reason) (priority reason)
priority-strengthened reason at until r =
    elim (Bool-cases (ltb (priority r.reason) (priority reason))) [
      | inl e ↦ rw e (ground arith)
      | inr e ↦ rw e (ground arith)
    ]

range_key_eq_self : (key : RangeKey) → range_key_eq key key ≡ true
unfolding range_key_eq
range_key_eq_self key = ground (arith, text_eq_self key.symbol)

module _ (key : RangeKey) (level ttl : ℕ) where
  -- The range is marked, with a reason of that priority at least and up to that instant at least.
  pub record IsMarked (rows : List EmptyRange) : Type 0 where
    pub row : EmptyRange
    pub found : find_first (has_range_key key) rows ≡ some row
    pub strong : level ≤ priority row.reason
    pub lasting : ttl ≤ row.ttl_until

  upsert_range-IsMarked :
      (k : RangeKey) (reason : EmptyReason) (at until : ℕ) (rows : List EmptyRange)
      → IsMarked rows
      → IsMarked (upsert_range k reason at until rows)
  unfolding upsert_range
  upsert_range-IsMarked k reason at until rows m =
      elim (Bool-cases (exists (has_range_key k) rows)) [
        | inl e ↦ rw e (record {
          row = if has_range_key k m.row then strengthened reason at until m.row else m.row;
          found =
              find_first_after_update (has_range_key key) (has_range_key k)
                (strengthened reason at until) (λ r. refl) rows m.row m.found;
          strong = stronger;
          lasting = ground arith;
        })
        | inr e ↦ rw e (record {
          row = m.row;
          found = find_first-append (has_range_key key) rows _ m.row m.found;
          strong = m.strong;
          lasting = m.lasting;
        })
      ]
    where
      stronger :
          level
          ≤ priority
              ((if has_range_key k m.row then strengthened reason at until m.row else m.row).reason)
      stronger = elim (Bool-cases (has_range_key k m.row)) [
        | inl e ↦ rw e (omega (arith, priority-strengthened reason at until m.row, m.strong))
        | inr e ↦ rw e m.strong
      ]

  pub mark_range-IsMarked :
      (reads : EmptyReads) (request : CatchupRequest) (from to : Option ℕ) (reason : EmptyReason)
      (rows : List EmptyRange)
      → IsMarked rows
      → IsMarked (mark_range reads request from to reason rows)
  mark_range-IsMarked reads request none to reason rows m = m
  mark_range-IsMarked reads request (some from) none reason rows m = m
  mark_range-IsMarked reads request (some from) (some to) reason rows m =
      elim (Bool-cases (reads.is_database_up && ltb from to)) [
        | inl e ↦ rw e (
            upsert_range-IsMarked (range_key_of request from to) reason reads.database_now
              (reads.now + ttl_ms_for reason) rows m)
        | inr e ↦ rw e m
      ]

  record_calls-IsMarked :
      (calls : List EmptyCall) (rows : List EmptyRange)
      → IsMarked rows
      → IsMarked (record_calls calls rows)
  unfolding record_calls record_empty_range
  record_calls-IsMarked [] rows m = m
  record_calls-IsMarked (c ∷ calls) rows m = elim (Bool-cases c.reads.is_ensured) [
    | inl e ↦ rw e (
        record_calls-IsMarked calls _
          (mark_range-IsMarked c.reads c.request c.from_date c.to_date c.reason rows m))
    | inr e ↦ rw e (record_calls-IsMarked calls rows m)
  ]

-- The row that the statement leaves.
pub upsert_range-marks :
    (key : RangeKey) (reason : EmptyReason) (at until : ℕ) (rows : List EmptyRange)
    → IsMarked key (priority reason) until (upsert_range key reason at until rows)
unfolding upsert_range
upsert_range-marks key reason at until rows = elim (Bool-cases (exists (has_range_key key) rows)) [
  | inl e ↦
      let (row, found) = find_first_of_exists (has_range_key key) rows e in
      rw e (record {
        row = strengthened reason at until row;
        found =
            find_first-update_where (has_range_key key) (strengthened reason at until) (λ r. refl)
              rows
            ∙ ap (Option.map (strengthened reason at until)) found;
        strong = omega (arith, priority-strengthened reason at until row);
        lasting = ground arith;
      })
  | inr e ↦ rw e (record {
    row = record { key = key; reason = reason; recorded_at = at; ttl_until = until };
    found = find_first_new (has_range_key key) rows _ e (range_key_eq_self key);
    strong = omega arith;
    lasting = omega arith;
  })
]

-- A range that is recorded as empty, with its two dates in order, the table there and the database up, stays
-- marked through every later call, for this range or for others, failing or not: its reason has at least the
-- priority of the one recorded (holiday before no_data before transient), and it is marked until the end of
-- the time to live of that reason at least.
pub record_empty_range-Lasts :
    (reads : EmptyReads) (request : CatchupRequest) (from to : ℕ) (reason : EmptyReason)
    (calls : List EmptyCall) (rows : List EmptyRange)
    → reads.is_ensured ≡ true
    → reads.is_database_up && ltb from to ≡ true
    → IsMarked
        (range_key_of request from to)
        (priority reason)
        (reads.now + ttl_ms_for reason)
        (record_calls (call_of reads request (some from) (some to) reason ∷ calls) rows)
unfolding record_calls record_empty_range
record_empty_range-Lasts reads request from to reason calls rows ensured valid =
    rw (ensured, valid)
      (record_calls-IsMarked (range_key_of request from to) (priority reason)
        (reads.now + ttl_ms_for reason) calls _
        (upsert_range-marks (range_key_of request from to) reason reads.database_now
          (reads.now + ttl_ms_for reason) rows))
