-- ===== src/Sql.antt =====
-- What the repositories ask of PostgreSQL through TypeORM: selects and updates on a table as a list of rows.
pub mod Rows
pub mod Distinct
pub mod Sorted
use trading_worker.Base.{
  ℕ, Bool, true, false, List, [], ◌∷◌, Option, none, some, ◌==◌, if◌then◌else◌,
}

-- SQL equality of nullable ids: NULL equals nothing, not even NULL.
abbrev pub id_eq : Option ℕ → Option ℕ → Bool
id_eq none b = false
id_eq (some a) none = false
id_eq (some a) (some b) = a == b

abbrev pub is_null {ℓ} : {A : Type ℓ} → Option A → Bool
is_null none = true
is_null (some a) = false

-- `SELECT … LIMIT 1`.
unfoldable pub find_first {ℓ} : {A : Type ℓ} → (A → Bool) → List A → Option A
find_first p [] = none
find_first p (x ∷ xs) = if p x then some x else find_first p xs

-- `UPDATE … WHERE`.
unfoldable pub update_where {ℓ} : {A : Type ℓ} → (A → Bool) → (A → A) → List A → List A
update_where p f [] = []
update_where p f (x ∷ xs) = (if p x then f x else x) ∷ update_where p f xs

-- What `query` gives for `UPDATE … RETURNING` and `DELETE … RETURNING`: the rows, which is how the code casts
-- it, or a pair of the rows and their number. The driver decides, so it is a parameter.
pub data Returning : Type 0 where
  rows_only rows_and_count : Returning

-- `rows.length`
abbrev pub returned_length : Returning → ℕ → ℕ
returned_length rows_only n = n
returned_length rows_and_count n = 2

-- `rows[0]` with a column of it: the list that stands first in the pair has none.
abbrev pub returned_first {ℓ} : {A : Type ℓ} → Returning → Option A → Option A
returned_first rows_only row = row
returned_first rows_and_count row = none
