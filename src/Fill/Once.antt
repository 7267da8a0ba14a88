-- ===== src/Fill/Once.antt =====
-- The stream that delivers a fill again, and the unique key on the fills.
use trading_worker.Base.{
  ℕ, ◌≡◌, inl, inr, refl, sym, ap, ◌∙◌, arith, Bool, true, false, List, [], ◌∷◌, ◌++◌, Option, some,
  ◌||◌, Returns, Returns-some, Returns-imp,
}
use mathlib.Core.Option.{some-injective}
use mathlib.Core.Bool.{false≢true}
use trading_worker.Base.Text.{Text, text_eq, text_eq_iff, text_eq_self}
use trading_worker.Event.{OrderFilledPayload}
use trading_worker.Order.{Order}
use trading_worker.Fill.{FillAggregate}
use trading_worker.Fill.Db.{Db, FillRow}
use trading_worker.Fill.Write.{has_fill, fill_row}
use trading_worker.Fill.Ingest.{IngestResult, ingest_execution_fill}
use trading_worker.Fill.Outcome.{Untouched, Booked, Outcome, ingest-Outcome}

-- The row of a fill carries its id.
fill_row-external_fill_id :
    (n : ℕ) (o : Order) (p : OrderFilledPayload) (id : Text) (a : FillAggregate) {row : FillRow}
    → fill_row n o p id a ≡ some row
    → row.external_fill_id ≡ id
unfolding fill_row
fill_row-external_fill_id n o p id a h = ground arith

has_fill-append :
    (id : Text) (rows : List FillRow) (row : FillRow)
    → has_fill id (rows ++ row ∷ []) ≡ (has_fill id rows || text_eq row.external_fill_id id)
has_fill-append id [] row = ground arith
has_fill-append id (r ∷ rows) row = ground (arith, has_fill-append id rows row)

-- No two rows of `fills` have one external fill id.
unfoldable pub UniqueFills : List FillRow → Type 0
UniqueFills [] = Unit
UniqueFills (r ∷ rows) = (has_fill r.external_fill_id rows ≡ false) × UniqueFills rows

UniqueFills-append :
    (rows : List FillRow) (row : FillRow)
    → UniqueFills rows
    → has_fill row.external_fill_id rows ≡ false
    → UniqueFills (rows ++ row ∷ [])
unfolding UniqueFills
UniqueFills-append [] row u h = (refl, tt)
UniqueFills-append (r ∷ rows) row u h = ground (
  arith,
  has_fill-append r.external_fill_id rows row,
  UniqueFills-append rows row u.1,
  text_eq_iff row.external_fill_id r.external_fill_id,
  text_eq_iff r.external_fill_id row.external_fill_id,
)

module _ (null_where : Option ℕ → Bool) (now : ℕ) (p : OrderFilledPayload) (store : Bool) where
  -- Unique external fill ids stay unique, whatever the call does.
  pub ingest-UniqueFills :
      (db : Db)
      → UniqueFills db.fills
      → Returns (λ x. UniqueFills x.1.fills) (ingest_execution_fill null_where now p store db)
  ingest-UniqueFills db u =
      Returns-imp (Outcome null_where now p db) (λ x. UniqueFills x.1.fills) _ step
        (ingest-Outcome null_where now p store db)
    where
      step : (x : IngestResult × Db) → Outcome null_where now p db x → UniqueFills x.1.fills
      step x (inl (_, same)) = rw same.fills u
      step x (inr (_, b)) =
          let named = fill_row-external_fill_id _ _ _ _ _ b.row_lem in
          rw b.fills
            (UniqueFills-append db.fills b.row u (ap (λ id. has_fill id db.fills) named ∙ b.fresh))

  Booked-has_fill :
      {db db' : Db} {r : IngestResult}
      → Booked null_where now p db r db'
      → has_fill r.external_fill_id db'.fills ≡ true
  Booked-has_fill {db} {db'} {r} b =
      let named = fill_row-external_fill_id _ _ _ _ _ b.row_lem in
      rw (b.fills, has_fill-append r.external_fill_id db.fills b.row, b.fresh, named)
        (text_eq_self r.external_fill_id)

  again :
      {db db' : Db} {r : IngestResult}
      → Booked null_where now p db r db'
      → (later : ℕ) (x : IngestResult × Db) → Outcome null_where later p db' x
      → (x.0.inserted ≡ false) × Untouched db' x.1
  again b later x (inl same) = same
  again b later x (inr (_, c)) =
      let same_id = some-injective _ _ (sym b.id_lem ∙ c.id_lem) in
      absurd (false≢true (sym c.fresh ∙ rw (← same_id) (Booked-has_fill b)))

  -- After a call that inserted the fill, a second delivery of the same payload inserts nothing and
  -- leaves orders, fills, outbox and positions as the first one left them.
  pub ingest_twice :
      (later : ℕ) (store' : Bool) (db : Db) {r : IngestResult} {db' : Db}
      → ingest_execution_fill null_where now p store db ≡ some (r, db')
      → r.inserted ≡ true
      → Returns
          (λ x. (x.0.inserted ≡ false) × Untouched db' x.1)
          (ingest_execution_fill null_where later p store' db')
  ingest_twice later store' db {r} {db'} first inserted = elim first_outcome [
    | inl (e, _) ↦ absurd (false≢true (sym e ∙ inserted))
    | inr (_, b) ↦
        Returns-imp (Outcome null_where later p db') _ _ (again b later)
          (ingest-Outcome null_where later p store' db')
  ]
    where
      first_outcome : Outcome null_where now p db (r, db')
      first_outcome =
          Returns-some (Outcome null_where now p db) _ _ first
            (ingest-Outcome null_where now p store db)
