-- ===== src/Executor/Keeping.antt =====
-- What each step on the table of orders keeps of the orders handed out.
use trading_worker.Base.{
  ℕ, ◌≡◌, ◌∙◌, refl, sym, arith, Bool, true, false, List, [], ◌∷◌, Option, some, none, ◌==◌, All,
  Bool-cases, inl, inr,
}
use mathlib.Core.Bool.{false≢true}
use trading_worker.Base.Text.{text_eq, codes}
use trading_worker.Sql.{find_first}
use trading_worker.Sql.Rows.{All-update_where, All-always}
use trading_worker.Order.{Order, UniqueIds, requested, submitting, status_eq}
use trading_worker.Order.Ids.{UniqueIds-update_where}
use trading_worker.Order.Store.{set_status, claimed, has_order, stamped, claim_one, update_orders}
use trading_worker.Order.Claims.{Gone, NotIn}
use trading_worker.Executor.Placing.{error_code}
use trading_worker.Executor.Pods.{
  ClaimWrite, accept_order, fail_order, cancel_order, fail_cancel, written, listed,
}

-- A write that keeps the id and does not ask for the order anew.
abbrev pub Closes : (Order → Order) → Type 0
Closes f =
    (o : Order)
    → ((f o).id ≡ o.id)
      × (status_eq (f o).status requested ≡ true → status_eq o.status requested ≡ true)

pub written-Closes : (now : ℕ) (w : ClaimWrite) → Closes (stamped now (written now w))
written-Closes now (accept_order v) o = (refl, λ e. cc)
written-Closes now (fail_order failure) o = (
  refl,
  λ e. elim (Bool-cases (text_eq (error_code failure) (codes "VENDOR_REJECTED"))) [
    | inl t ↦ absurd (false≢true (rw t at e))
    | inr f ↦ absurd (false≢true (rw f at e))
  ],
)
written-Closes now cancel_order o = (refl, λ e. cc)
written-Closes now (fail_cancel failure) o = (refl, λ e. cc)

-- What every call does to the table: a row's id stays, and it is not asked for anew.
module _ (given : List Order) (f : Order → Order) (closes : Closes f) where
  pub update_orders-Gone :
      (p : Order → Bool) (orders : List Order)
      → All (Gone requested given) orders
      → All (Gone requested given) (update_orders p f orders).1
  unfolding update_orders
  update_orders-Gone p orders h =
      All-update_where (Gone requested given) (Gone requested given) p f
        (λ o _ g hit. still o g (rw (← (closes o).0) hit)) (λ o _ g. g) orders h
    where
      still :
          (o : Order)
          → Gone requested given o
          → has_order given o.id ≡ true
          → status_eq (f o).status requested ≡ false
      still o g hit = elim (Bool-cases (status_eq (f o).status requested)) [
        | inl t ↦ absurd (false≢true (sym (g hit) ∙ (closes o).1 t))
        | inr n ↦ n
      ]

  pub update_orders-UniqueIds :
      (p : Order → Bool) (orders : List Order)
      → UniqueIds orders
      → UniqueIds (update_orders p f orders).1
  unfolding update_orders
  update_orders-UniqueIds p orders u = UniqueIds-update_where f (λ o. (closes o).0) p orders u

pub find_first-All :
    (P Q : Order → Type 0) (p : Order → Bool)
    → ((o : Order) → p o ≡ true → P o → Q o)
    → (orders : List Order) → All P orders
    → All Q (listed (find_first p orders))
unfolding find_first
find_first-All P Q p k [] h = tt
find_first-All P Q p k (o ∷ orders) h = elim (Bool-cases (p o)) [
  | inl e ↦ rw e (k o e h.0, tt)
  | inr e ↦ rw e (find_first-All P Q p k orders h.1)
]

module _ (now : ℕ) (orders : List Order) where
  pub claim_one-NotIn :
      (given : List Order) (m : Option Order)
      → All (NotIn given) (listed m)
      → All (NotIn given) (listed (claim_one now orders m).0)
  unfolding claim_one
  claim_one-NotIn given none h = tt
  claim_one-NotIn given (some o) h = h

  pub claim_one-Gone :
      (given : List Order) (m : Option Order)
      → All (Gone requested given) orders
      → All (Gone requested given) (claim_one now orders m).1
  unfolding claim_one
  claim_one-Gone given none h = h
  claim_one-Gone given (some picked) h =
      All-update_where (Gone requested given) (Gone requested given) (λ o. o.id == picked.id)
        (set_status now submitting) (λ o _ _ _. refl) (λ o _ g. g) orders h

  pub claim_one-Taken :
      (m : Option Order)
      → All (Gone requested (listed (claim_one now orders m).0)) (claim_one now orders m).1
  unfolding claim_one
  claim_one-Taken none = All-always _ (λ o e. absurd (false≢true e)) orders
  claim_one-Taken (some picked) =
      All-update_where {0, 0, 0} (λ _. Unit) (Gone requested (claimed submitting picked ∷ []))
        (λ o. o.id == picked.id) (set_status now submitting) (λ o _ _ _. refl)
        (λ o miss _ hit. absurd (ground arith)) orders (All-always (λ _. Unit) (λ _. tt) orders)

  pub claim_one-UniqueIds :
      (m : Option Order)
      → UniqueIds orders
      → UniqueIds (listed (claim_one now orders m).0) × UniqueIds (claim_one now orders m).1
  unfolding claim_one
  claim_one-UniqueIds none u = (tt, u)
  claim_one-UniqueIds (some picked) u = (
    (tt, tt),
    UniqueIds-update_where (set_status now submitting) (λ _. refl) (λ o. o.id == picked.id) orders
        u,
  )
