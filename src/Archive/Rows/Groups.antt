-- ===== src/Archive/Rows/Groups.antt =====
-- The groups of `deriveHourlyRows` and `deriveDailyRows` of chart-archive-writer.service.ts.
use trading_worker.Base.{
  ℕ, ◌+◌, ◌≤◌, ◌≡◌, refl, sym, arith, Bool, false, List, [], ◌∷◌, ◌++◌, ◌==◌, ==_iff, All,
  Bool-cases, inl, inr,
}
use trading_worker.Sql.Rows.{All-append}
use trading_worker.Sql.Distinct.{Distinct}
use trading_worker.Sql.Sorted.{sum_by, sum_by-append}
use trading_worker.Archive.Rows.{ArchivedCandleRow, add_to_group, group_rows, total_volume}

-- The prices of a row stand in their order.
pub record IsOrdered (r : ArchivedCandleRow) : Type 0 where
  pub low_open : r.low ≤ r.open_price
  pub low_close : r.low ≤ r.close
  pub open_high : r.open_price ≤ r.high
  pub close_high : r.close ≤ r.high

abbrev pub Group : Type 0
Group = ℕ × List ArchivedCandleRow

abbrev pub group_volume : List Group → ℕ
group_volume groups = sum_by (λ g. total_volume g.1) groups

abbrev pub Filled : List ArchivedCandleRow → Type 0
Filled [] = ⊥
Filled (r ∷ rows) = Unit

abbrev pub same_key : Group → Group → Bool
same_key g h = g.0 == h.0

group_volume-add_to_group :
    (key : ℕ) (row : ArchivedCandleRow) (groups : List Group)
    → group_volume (add_to_group key row groups) ≡ row.volume + group_volume groups
unfolding add_to_group
group_volume-add_to_group key row [] = omega arith
group_volume-add_to_group key row ((k, rows) ∷ groups) = elim (Bool-cases (k == key)) [
  | inl e ↦
      rw e (omega (arith, sum_by-append (λ (r : ArchivedCandleRow). r.volume) rows (row ∷ [])))
  | inr e ↦ rw e (omega (arith, group_volume-add_to_group key row groups))
]

pub group_volume-group_rows :
    (key_of : ℕ → ℕ) (rows : List ArchivedCandleRow) (groups : List Group)
    → group_volume (group_rows key_of rows groups) ≡ total_volume rows + group_volume groups
unfolding group_rows
group_volume-group_rows key_of [] groups = omega arith
group_volume-group_rows key_of (r ∷ rows) groups = omega (
  arith,
  group_volume-group_rows key_of rows (add_to_group (key_of r.bucket_start) r groups),
  group_volume-add_to_group (key_of r.bucket_start) r groups,
)

Filled-append :
    (rows : List ArchivedCandleRow) (row : ArchivedCandleRow) → Filled (rows ++ row ∷ [])
Filled-append [] row = tt
Filled-append (r ∷ rows) row = tt

All-add_to_group :
    (k key : ℕ) (row : ArchivedCandleRow) (groups : List Group)
    → (k == key) ≡ false
    → All (λ g. (k == g.0) ≡ false) groups
    → All (λ g. (k == g.0) ≡ false) (add_to_group key row groups)
unfolding add_to_group
All-add_to_group k key row [] e h = (e, tt)
All-add_to_group k key row ((j, rows) ∷ groups) e h = elim (Bool-cases (j == key)) [
  | inl f ↦ rw f h
  | inr f ↦ rw f (h.0, All-add_to_group k key row groups e h.1)
]

add_to_group-Distinct :
    (key : ℕ) (row : ArchivedCandleRow) (groups : List Group)
    → Distinct same_key groups
    → Distinct same_key (add_to_group key row groups)
unfolding add_to_group
add_to_group-Distinct key row [] d = (tt, tt)
add_to_group-Distinct key row ((k, rows) ∷ groups) d = elim (Bool-cases (k == key)) [
  | inl e ↦ rw e d
  | inr e ↦ rw e (All-add_to_group k key row groups e d.0, add_to_group-Distinct key row groups d.1)
]

-- A group holds rows of its key, one at least, with their prices in order.
module _ (key_of : ℕ → ℕ) where
  abbrev pub Member : ℕ → ArchivedCandleRow → Type 0
  Member key r = (key_of r.bucket_start ≡ key) × IsOrdered r

  abbrev pub IsGroup : Group → Type 0
  IsGroup g = Filled g.1 × All (Member g.0) g.1

  add_to_group-IsGroup :
      (row : ArchivedCandleRow) (groups : List Group)
      → IsOrdered row
      → All IsGroup groups
      → All IsGroup (add_to_group (key_of row.bucket_start) row groups)
  unfolding add_to_group
  add_to_group-IsGroup row [] o h = ((tt, ((refl, o), tt)), tt)
  add_to_group-IsGroup row ((k, rows) ∷ groups) o h =
      elim (Bool-cases (k == key_of row.bucket_start)) [
        | inl e ↦ rw e (
          (
            Filled-append rows row,
            All-append (Member k) rows row h.0.1 (sym ((==_iff _ _).0 e), o),
          ),
          h.1,
        )
        | inr e ↦ rw e (h.0, add_to_group-IsGroup row groups o h.1)
      ]

  pub group_rows-IsGroup :
      (rows : List ArchivedCandleRow) (groups : List Group)
      → All IsOrdered rows
      → All IsGroup groups
      → All IsGroup (group_rows key_of rows groups)
  unfolding group_rows
  group_rows-IsGroup [] groups o h = h
  group_rows-IsGroup (r ∷ rows) groups o h =
      group_rows-IsGroup rows (add_to_group (key_of r.bucket_start) r groups) o.1
        (add_to_group-IsGroup r groups o.0 h)

  pub group_rows-Distinct :
      (rows : List ArchivedCandleRow) (groups : List Group)
      → Distinct same_key groups
      → Distinct same_key (group_rows key_of rows groups)
  unfolding group_rows
  group_rows-Distinct [] groups d = d
  group_rows-Distinct (r ∷ rows) groups d =
      group_rows-Distinct rows (add_to_group (key_of r.bucket_start) r groups)
        (add_to_group-Distinct (key_of r.bucket_start) r groups d)
