-- ===== src/Fill/Claiming.antt =====
-- The claims on the rows of the fill outbox.
use trading_worker.Base.{
  ℕ, ◌+◌, ◌≤◌, ◌≡◌, refl, sym, ◌∙◌, arith, Bool, true, false, not, ◌&&◌, List, [], ◌∷◌, some, leb,
  ◌==◌, map, exists, All,
}
use mathlib.Core.Bool.{false≢true}
use trading_worker.Fill.Db.{Db, OrderFillRow}
use trading_worker.Sql.Rows.{
  All-update_where, All-take, All-sort_by, All-filter_by, All-map, All-always,
}
use trading_worker.Fill.Outbox.{
  outbox_claim_ttl_ms, is_eligible, PendingItem, item_of, pick_outbox, has_id, claim_outbox,
  find_pending_outbox,
}

abbrev pub has_item : List PendingItem → ℕ → Bool
has_item items id = exists (λ i. i.id == id) items

has_item-map : (rows : List OrderFillRow) (id : ℕ) → has_item (map item_of rows) id ≡ has_id rows id
unfolding item_of
has_item-map [] id = refl
has_item-map (r ∷ rows) id = rw (has_item-map rows id) refl

-- What is taken can be taken, and has a property that the table's rows have.
pick_outbox-All :
    (P Q : OrderFillRow → Type 0) (locked : ℕ → Bool) (now limit : ℕ)
    → ((r : OrderFillRow) → is_eligible now r ≡ true → P r → Q r)
    → (rows : List OrderFillRow) → All P rows
    → All Q (pick_outbox locked now limit rows)
unfolding pick_outbox
pick_outbox-All P Q locked now limit k rows h = All-take Q limit _ (
    All-sort_by Q (λ a b. leb a.created_at b.created_at) _
      (All-filter_by P Q (λ r. is_eligible now r && not (locked r.id))
        (λ r e p. k r (ground arith) p) rows h))

claimed_not_eligible :
    (now later : ℕ) (r : OrderFillRow)
    → later ≤ now + outbox_claim_ttl_ms
    → is_eligible later (record r { publish_claimed_at = some now }) ≡ false
unfolding is_eligible
claimed_not_eligible now later r h = ground arith

claim_outbox-Kept :
    (now later : ℕ) (picked rows : List OrderFillRow)
    → later ≤ now + outbox_claim_ttl_ms
    → All
        (λ r. is_eligible later r ≡ true → has_id picked r.id ≡ false)
        (claim_outbox now picked rows)
unfolding claim_outbox
claim_outbox-Kept now later picked rows h =
    All-update_where {0, 0, 0} (λ _. Unit)
      (λ r. is_eligible later r ≡ true → has_id picked r.id ≡ false) (λ r. has_id picked r.id)
      (λ r. record r { publish_claimed_at = some now })
      (λ r e _ c. absurd (false≢true (sym (claimed_not_eligible now later r h) ∙ c))) (λ r e _ c. e)
      rows (All-always (λ _. Unit) (λ _. tt) rows)

-- Until the time to live of a claim is over, no later flush takes a row that it holds, whatever rows are
-- locked and however many are asked for.
pub claim_exclusive :
    (locked relocked : ℕ → Bool) (now later limit other_limit : ℕ) (db : Db)
    → later ≤ now + outbox_claim_ttl_ms
    → let first = find_pending_outbox locked now limit db in
      let second = find_pending_outbox relocked later other_limit first.1 in
      All (λ i. has_item first.0 i.id ≡ false) second.0
unfolding find_pending_outbox
claim_exclusive locked relocked now later limit other_limit db h =
    let picked = pick_outbox locked now limit db.order_fills in
    All-map (λ i. has_item (map item_of picked) i.id ≡ false) item_of _
      (pick_outbox-All (λ r. is_eligible later r ≡ true → has_id picked r.id ≡ false)
        (λ r. has_item (map item_of picked) (item_of r).id ≡ false) relocked later other_limit
        (λ r e k. has_item-map picked r.id ∙ k e) _
        (claim_outbox-Kept now later picked db.order_fills h))
