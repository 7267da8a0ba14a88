-- ===== src/Order/Claims.antt =====
-- The claims of order.repository.impl.ts: who is handed an order, and what the table keeps.
use trading_worker.Base.{
  ℕ, zero, suc, ◌≡◌, ◌∙◌, refl, sym, arith, Bool, true, false, not, ◌&&◌, List, [], ◌∷◌, leb, map,
  All, Bool-cases, inl, inr,
}
use mathlib.Core.Bool.{false≢true}
use trading_worker.Sql.Rows.{
  All-update_where, All-imp, All-take, All-sort_by, All-filter_by, All-map, All-always,
}
use trading_worker.Order.{Order, UniqueIds, OrderStatus, status_eq}
use trading_worker.Order.Ids.{
  UniqueIds-take, UniqueIds-filter_by, UniqueIds-sort_by, UniqueIds-map, UniqueIds-update_where,
}
use trading_worker.Order.Store.{
  set_status, claimed, has_order, pick_orders, claim_picked, claim_batch,
}

has_order-map :
    (to : OrderStatus) (picked : List Order) (id : ℕ)
    → has_order (map (claimed to) picked) id ≡ has_order picked id
has_order-map to [] id = refl
has_order-map to (o ∷ picked) id = rw (has_order-map to picked id) refl

-- What is picked has the status, and a property that the table's rows have.
pick_orders-All :
    (P Q : Order → Type 0) (locked : ℕ → Bool) (from : OrderStatus) (n : ℕ)
    → ((o : Order) → status_eq o.status from ≡ true → P o → Q o)
    → (orders : List Order) → All P orders
    → All Q (pick_orders locked from n orders)
unfolding pick_orders
pick_orders-All P Q locked from n k orders h = All-take Q n _ (
    All-sort_by Q (λ a b. leb a.id b.id) _
      (All-filter_by P Q (λ o. status_eq o.status from && not (locked o.id))
        (λ o e p. k o (ground arith) p) orders h))

-- The table after a claim: the rows picked are under the new status, every other row is as it was.
claim_picked-All :
    (P Q : Order → Type 0) (now : ℕ) (to : OrderStatus) (picked : List Order)
    → ((o : Order) → has_order picked o.id ≡ true → P o → Q (set_status now to o))
    → ((o : Order) → has_order picked o.id ≡ false → P o → Q o)
    → (orders : List Order) → All P orders
    → All Q (claim_picked now to picked orders).1
unfolding claim_picked
claim_picked-All P Q now to [] hit miss orders h = All-imp P Q (λ o p. miss o refl p) orders h
claim_picked-All P Q now to (o ∷ picked) hit miss orders h =
    All-update_where P Q (λ x. has_order (o ∷ picked) x.id) (set_status now to) hit miss orders h

claim_picked-has_order :
    (now : ℕ) (to : OrderStatus) (picked orders : List Order) (id : ℕ)
    → has_order (claim_picked now to picked orders).0 id ≡ has_order picked id
unfolding claim_picked
claim_picked-has_order now to [] orders id = refl
claim_picked-has_order now to (o ∷ picked) orders id = has_order-map to (o ∷ picked) id

pub claim_picked-Given :
    (Q : Order → Type 0) (now : ℕ) (to : OrderStatus) (picked orders : List Order)
    → All (λ o. Q (claimed to o)) picked
    → All Q (claim_picked now to picked orders).0
unfolding claim_picked
claim_picked-Given Q now to [] orders h = tt
claim_picked-Given Q now to (o ∷ picked) orders h = All-map Q (claimed to) (o ∷ picked) h

claim_picked-UniqueIds :
    (now : ℕ) (to : OrderStatus) (picked orders : List Order)
    → UniqueIds picked
    → UniqueIds orders
    → UniqueIds (claim_picked now to picked orders).0
      × UniqueIds (claim_picked now to picked orders).1
unfolding claim_picked
claim_picked-UniqueIds now to [] orders u v = (tt, v)
claim_picked-UniqueIds now to (o ∷ picked) orders u v = (
  UniqueIds-map (claimed to) (λ _. refl) (o ∷ picked) u,
  UniqueIds-update_where (set_status now to) (λ _. refl) (λ x. has_order (o ∷ picked) x.id) orders
      v,
)

pick_orders-UniqueIds :
    (locked : ℕ → Bool) (from : OrderStatus) (n : ℕ) (orders : List Order)
    → UniqueIds orders
    → UniqueIds (pick_orders locked from n orders)
unfolding pick_orders
pick_orders-UniqueIds locked from n orders u = UniqueIds-take n _ (
    UniqueIds-sort_by (λ a b. leb a.id b.id) _
      (UniqueIds-filter_by (λ o. status_eq o.status from && not (locked o.id)) orders u))

-- An order of these ids is not in the status `from`: no claim can hand it out.
abbrev pub Gone : OrderStatus → List Order → Order → Type 0
Gone from given o = has_order given o.id ≡ true → status_eq o.status from ≡ false

abbrev pub NotIn : List Order → Order → Type 0
NotIn given o = has_order given o.id ≡ false

pub Gone-NotIn :
    (given : List Order) (from : OrderStatus) (o : Order)
    → status_eq o.status from ≡ true
    → Gone from given o
    → NotIn given o
Gone-NotIn given from o e g = elim (Bool-cases (has_order given o.id)) [
  | inl t ↦ absurd (false≢true (sym (g t) ∙ e))
  | inr f ↦ f
]

module _ (locked : ℕ → Bool) (now : ℕ) (from to : OrderStatus) where
  -- A claim keeps ids unique, in the table and in what it hands out.
  pub claim_batch-UniqueIds :
      (n : ℕ) (orders : List Order)
      → UniqueIds orders
      → UniqueIds (claim_batch locked now from to n orders).0
        × UniqueIds (claim_batch locked now from to n orders).1
  unfolding claim_batch
  claim_batch-UniqueIds zero orders u = (tt, u)
  claim_batch-UniqueIds (suc n) orders u =
      claim_picked-UniqueIds now to _ orders (pick_orders-UniqueIds locked from (suc n) orders u) u

  -- No claim hands out an order that is gone.
  pub claim_batch-NotIn :
      (given : List Order) (n : ℕ) (orders : List Order)
      → All (Gone from given) orders
      → All (NotIn given) (claim_batch locked now from to n orders).0
  unfolding claim_batch
  claim_batch-NotIn given zero orders h = tt
  claim_batch-NotIn given (suc n) orders h = claim_picked-Given (NotIn given) now to _ orders (
      pick_orders-All (Gone from given) (NotIn given) locked from (suc n) (Gone-NotIn given from)
        orders h)

  module _ (other : OrderStatus) (apart : status_eq to other ≡ false) where
    -- A claim does not bring back an order that is gone.
    pub claim_batch-Gone :
        (given : List Order) (n : ℕ) (orders : List Order)
        → All (Gone other given) orders
        → All (Gone other given) (claim_batch locked now from to n orders).1
    unfolding claim_batch
    claim_batch-Gone given zero orders h = h
    claim_batch-Gone given (suc n) orders h =
        claim_picked-All (Gone other given) (Gone other given) now to _ (λ o _ _ _. apart)
          (λ o _ g. g) orders h

    -- What a claim hands out is gone.
    pub claim_batch-Taken :
        (n : ℕ) (orders : List Order)
        → All
            (Gone other (claim_batch locked now from to n orders).0)
            (claim_batch locked now from to n orders).1
    unfolding claim_batch
    claim_batch-Taken zero orders = All-always _ (λ o e. absurd (false≢true e)) orders
    claim_batch-Taken (suc n) orders =
        let picked = pick_orders locked from (suc n) orders in
        claim_picked-All (λ _. Unit) (Gone other (claim_picked now to picked orders).0) now to
          picked (λ o _ _ _. apart)
          (λ o miss _ hit.
            absurd (
              false≢true (sym miss ∙ sym (claim_picked-has_order now to picked orders o.id) ∙ hit)))
          orders (All-always (λ _. Unit) (λ _. tt) orders)
