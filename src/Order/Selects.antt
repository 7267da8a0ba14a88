-- ===== src/Order/Selects.antt =====
-- What `findStaleOrders` and a claim hand out.
use trading_worker.Base.{
  ℕ, zero, suc, ◌≤◌, ◌<◌, ◌≡◌, refl, arith, Bool, true, false, ◌&&◌, List, [], ◌∷◌, ltb, leb,
  ltb→lt, exists, ◌==◌, not, ◌||◌, length, All,
}
use trading_worker.Sql.Rows.{
  length-take, length-map, All-imp, All-take, All-sort_by, All-filter_by, All-always,
}
use trading_worker.Order.{Order, OrderStatus, status_in, status_eq}
use trading_worker.Order.Claims.{claim_picked-Given}
use trading_worker.Order.Store.{find_stale_orders, claim_batch, claim_picked, pick_orders, claimed}

abbrev pub IsStale : List OrderStatus → ℕ → Order → Type 0
IsStale statuses older_than o = (status_in o.status statuses ≡ true) × (o.updated_at < older_than)

stale_test : (a : Bool) (m n : ℕ) → (a && ltb m n) ≡ true → (a ≡ true) × (m < n)
stale_test true m n h = (refl, ltb→lt m n h)
stale_test false m n h = cc

-- Every order found is in one of the statuses and was last written before the instant, and there are at most
-- as many as the limit.
pub find_stale_orders-IsStale :
    (statuses : List OrderStatus) (older_than limit : ℕ) (orders : List Order)
    → All (IsStale statuses older_than) (find_stale_orders statuses older_than limit orders)
      × (length (find_stale_orders statuses older_than limit orders) ≤ limit)
unfolding find_stale_orders
find_stale_orders-IsStale [] older_than limit orders = (tt, omega arith)
find_stale_orders-IsStale (s ∷ statuses) older_than limit orders =
    let P = IsStale (s ∷ statuses) older_than in
    (
      All-take P limit _ (
          All-sort_by P (λ a b. leb a.updated_at b.updated_at) _
            (All-filter_by {0, 0, 0} (λ _. Unit) P
              (λ o. status_in o.status (s ∷ statuses) && ltb o.updated_at older_than)
              (λ o e _. stale_test (status_in o.status (s ∷ statuses)) o.updated_at older_than e)
              orders (All-always (λ _. Unit) (λ _. tt) orders))),
      length-take limit _,
    )

length-claim_picked :
    (now : ℕ) (to : OrderStatus) (picked orders : List Order)
    → length (claim_picked now to picked orders).0 ≡ length picked
unfolding claim_picked
length-claim_picked now to [] orders = refl
length-claim_picked now to (o ∷ picked) orders = length-map (claimed to) (o ∷ picked)

length-pick_orders :
    (locked : ℕ → Bool) (from : OrderStatus) (n : ℕ) (orders : List Order)
    → length (pick_orders locked from n orders) ≤ n
unfolding pick_orders
length-pick_orders locked from n orders = length-take n _

-- A row that passes a test is found in its table by its id and the test.
finds_self :
    (t : Order → Bool) (rows : List Order)
    → All (λ o. t o ≡ true → exists (λ y. (y.id == o.id) && t y) rows ≡ true) rows
finds_self t [] = tt
finds_self t (r ∷ rows) = (
  (λ h. here r.id h),
  All-imp (λ o. t o ≡ true → exists (λ y. (y.id == o.id) && t y) rows ≡ true)
      (λ o. t o ≡ true → exists (λ y. (y.id == o.id) && t y) (r ∷ rows) ≡ true)
      (λ o k h. or_right ((r.id == o.id) && t r) (k h)) rows (finds_self t rows),
)
  where
    here :
        (id : ℕ)
        → t r ≡ true
        → (((id == id) && t r) || exists (λ y. (y.id == id) && t y) rows) ≡ true
    here id h = ground arith

    or_right : (a : Bool) {b : Bool} → b ≡ true → (a || b) ≡ true
    or_right true e = refl
    or_right false e = e

-- What a claim may hand out: an order under the new status, whose row was in the old one and not locked.
abbrev pub IsClaim : (ℕ → Bool) → OrderStatus → OrderStatus → List Order → Order → Type 0
IsClaim locked from to orders x =
    (x.status ≡ to)
    × (exists (λ o. (o.id == x.id) && (status_eq o.status from && not (locked o.id))) orders ≡ true)

pick_orders-IsClaim :
    (locked : ℕ → Bool) (from to : OrderStatus) (n : ℕ) (orders : List Order)
    → All (λ o. IsClaim locked from to orders (claimed to o)) (pick_orders locked from n orders)
unfolding pick_orders
pick_orders-IsClaim locked from to n orders =
    let t : Order → Bool = λ o. status_eq o.status from && not (locked o.id) in
    let Q : Order → Type 0 = λ o. IsClaim locked from to orders (claimed to o) in
    All-take Q n _ (
      All-sort_by Q (λ a b. leb a.id b.id) _
        (All-filter_by (λ o. t o ≡ true → exists (λ y. (y.id == o.id) && t y) orders ≡ true) Q t
          (λ o e k. (refl, k e)) orders (finds_self t orders)))

-- A claim hands out at most as many orders as are asked for, each under the new status, and each from a row
-- that was in the old status and that no other transaction held.
pub claim_batch-IsClaim :
    (locked : ℕ → Bool) (now : ℕ) (from to : OrderStatus) (batch_size : ℕ) (orders : List Order)
    → All (IsClaim locked from to orders) (claim_batch locked now from to batch_size orders).0
      × (length (claim_batch locked now from to batch_size orders).0 ≤ batch_size)
unfolding claim_batch
claim_batch-IsClaim locked now from to zero orders = (tt, omega arith)
claim_batch-IsClaim locked now from to (suc n) orders =
    let picked = pick_orders locked from (suc n) orders in
    (
      claim_picked-Given (IsClaim locked from to orders) now to picked orders
          (pick_orders-IsClaim locked from to (suc n) orders),
      omega (
        arith,
        length-claim_picked now to picked orders,
        length-pick_orders locked from (suc n) orders,
      ),
    )
