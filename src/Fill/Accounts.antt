-- ===== src/Fill/Accounts.antt =====
-- What the fills of an order add up to, and the tables of orders that an update leaves.
use mathlib.Core.Option.{some-injective}
use trading_worker.Base.{
  ℕ, ◌+◌, ◌<◌, ◌≡◌, ◌⊎◌, inl, inr, refl, sym, ap, ◌∙◌, arith, Bool, true, false, List, [], ◌∷◌,
  ◌++◌, Option, some, none, ◌||◌, ◌==◌, >>=-eq-some, All, if◌then◌else◌, Bool-cases, subst, ltb,
}
use trading_worker.Base.Int.{ℤ, pos, negsuc, leb_ℤ, ltb_ℤ}
use trading_worker.Base.Text.{Text}
use trading_worker.Scaled.{text, decimal_to_scaled}
use trading_worker.Event.{OrderFilledPayload}
use trading_worker.Order.{Order, UniqueIds}
use trading_worker.Fill.{FillAggregate, build_fill_aggregate}
use trading_worker.Sql.{update_where}
use trading_worker.Fill.Db.{FillRow}
use trading_worker.Fill.Find.{newer, latest, find_order_by, find_order_for_fill}
use trading_worker.Fill.Quantity.{Reads, PayloadReads}

abbrev pub natural : Option ℤ → ℕ
natural none = 0
natural (some (pos n)) = n
natural (some (negsuc n)) = 0

-- The quantity of a fill, at 8 places.
abbrev pub row_qty : FillRow → ℕ
row_qty r = natural (decimal_to_scaled (text r.quantity) 8)

-- What the fills of an order add up to.
unfoldable pub fill_sum : ℕ → List FillRow → ℕ
fill_sum id [] = 0
fill_sum id (r ∷ rows) = (if r.order_id == id then row_qty r else 0) + fill_sum id rows

pub fill_sum-append :
    (id : ℕ) (rows : List FillRow) (row : FillRow)
    → fill_sum id (rows ++ row ∷ [])
      ≡ fill_sum id rows + (if row.order_id == id then row_qty row else 0)
unfolding fill_sum
fill_sum-append id [] row = omega arith
fill_sum-append id (r ∷ rows) row = omega (arith, fill_sum-append id rows row)

-- An order is accounted for when its filled quantity is the sum of its fills, and no more than what
-- was ordered.
abbrev pub IsAccounted : List FillRow → Order → Type 0
IsAccounted rows o = (ordered : ℕ) × (paid : ℕ) × Reads o ordered (fill_sum o.id rows) paid

-- Where a list has an order.
abbrev pub At : Order → List Order → Type 0
At o [] = ⊥
At o (x ∷ xs) = (x ≡ o) ⊎ At o xs

newer-cases :
    (x : Order) (rest : Option Order) {o : Order}
    → newer x rest ≡ some o
    → (x ≡ o) ⊎ (rest ≡ some o)
unfolding newer
newer-cases x none e = inl (some-injective _ _ e)
newer-cases x (some r) e = elim (Bool-cases (ltb x.id r.id)) [
  | inl b ↦ inr (rw b at e)
  | inr b ↦ inl (some-injective _ _ (rw b at e))
]

pub latest-At : (p : Order → Bool) (os : List Order) {o : Order} → latest p os ≡ some o → At o os
unfolding latest
latest-At p [] e = cc
latest-At p (x ∷ xs) e = elim (Bool-cases (p x)) [
  | inl hit ↦ elim (newer-cases x (latest p xs) (rw hit at e)) [
    | inl here ↦ inl here
    | inr later ↦ inr (latest-At p xs later)
  ]
  | inr miss ↦ inr (latest-At p xs (rw miss at e))
]

find_order_by-At :
    (account vendor client : Text) (os : List Order) {o : Order}
    → find_order_by account vendor client os ≡ some o
    → At o os
unfolding find_order_by
find_order_by-At account [] [] os e = cc
find_order_by-At account [] (c ∷ client) os e = latest-At _ os e
find_order_by-At account (v ∷ vendor) client os e = latest-At _ os e

pub find_order_for_fill-At :
    (p : OrderFilledPayload) (os : List Order) {o : Order}
    → find_order_for_fill p os ≡ some o
    → At o os
unfolding find_order_for_fill
find_order_for_fill-At p os e = find_order_by-At _ _ _ os e

pub All-At {ℓ} : (P : Order → Type ℓ) (os : List Order) {o : Order} → All P os → At o os → P o
All-At P [] h at = absurd at
All-At P (x ∷ xs) h (inl e) = subst P e h.0
All-At P (x ∷ xs) h (inr at) = All-At P xs h.1 at

-- An update of the one row with an id: a property of all rows follows from the row's and from what
-- is kept at the other ids.
module _ (P Q : Order → Type 0) (f : Order → Order) (id : ℕ)
    (kept : (o : Order) → (o.id == id) ≡ false → P o → Q o) where
  update_where-All_ne :
      (os : List Order)
      → All (λ x. (x.id == id) ≡ false) os
      → All P os
      → All Q (update_where (λ o. o.id == id) f os)
  unfolding update_where
  update_where-All_ne [] ne h = tt
  update_where-All_ne (x ∷ xs) ne h = rw ne.0 (kept x ne.0 h.0, update_where-All_ne xs ne.1 h.1)

  pub update_where-All :
      (os : List Order) {o : Order}
      → UniqueIds os
      → At o os
      → o.id ≡ id
      → All P os
      → Q (f o)
      → All Q (update_where (λ o. o.id == id) f os)
  unfolding update_where
  update_where-All [] u at e h q = absurd at
  update_where-All (x ∷ xs) {o} u (inl e) named h q =
      let hit : (x.id == id) ≡ true = ground (arith, ap (λ (y : Order). y.id) e) in
      let others =
        subst (λ i. All (λ y. (y.id == i) ≡ false) xs) (ap (λ (y : Order). y.id) e ∙ named) u.0 in
      rw hit (subst (λ y. Q (f y)) (sym e) q, update_where-All_ne xs others h.1)
  update_where-All (x ∷ xs) {o} u (inr at) named h q =
      let miss : (x.id == id) ≡ false =
        ground (arith, All-At (λ y. (y.id == x.id) ≡ false) xs u.0 at) in
      rw miss (kept x miss h.0, update_where-All xs u.1 at named h.1 q)

positive_numbers :
    (q c : ℤ)
    → (leb_ℤ q (pos 0) || ltb_ℤ c (pos 0)) ≡ false
    → (n : ℕ) × (m : ℕ) × (q ≡ pos n) × (c ≡ pos m) × (0 < n)
positive_numbers (pos n) (pos m) h = (n, m, refl, refl, ground arith)
positive_numbers (pos n) (negsuc m) h = absurd (ground arith)
positive_numbers (negsuc n) c h = absurd (ground arith)

not_invalid {ℓ} :
    {A : Type ℓ} (invalid : Bool) (rest : Option (Option A)) {a : A}
    → (if invalid then some none else rest) ≡ some (some a)
    → invalid ≡ false
not_invalid true rest h = cc
not_invalid false rest h = refl

-- A fill from which an aggregate is made has a quantity and a price that are in order.
pub computed-PayloadReads :
    (o : Order) (p : OrderFilledPayload) {a : FillAggregate}
    → build_fill_aggregate o p ≡ some (some a)
    → (qty : ℕ) × (price : ℕ) × PayloadReads p qty price
unfolding build_fill_aggregate
computed-PayloadReads o p {a} h =
    let (q, read_q, h') = >>=-eq-some (decimal_to_scaled (text p.filled_qty) 8) _ h in
    let (c, read_c, h'') = >>=-eq-some (decimal_to_scaled (text p.filled_price) 6) _ h' in
    let (n, m, eq_q, eq_c, positive) = positive_numbers q c (not_invalid _ _ h'') in
    (
      n,
      m,
      record {
        qty_reads = read_q ∙ ap some eq_q;
        price_reads = read_c ∙ ap some eq_c;
        positive = positive;
      },
    )
