-- ===== src/Credential/Turns.antt =====
-- The collector's credentials take turns: the cursor of credential-source.service.ts.
use native.Mathlib.Nat.{mod-lt, mod-eq_of_lt, mod-add-mod, add-mod-mod, add-mod_right}
use trading_worker.Base.{
  ℕ, zero, suc, ◌+◌, ◌-◌, ◌%◌, ◌<◌, ◌≡◌, refl, ap, ◌∙◌, sym, arith, List, ◌∷◌, Option, length,
}
use trading_worker.Base.Text.{Text, text_eq_self, coalesce}
use trading_worker.Base.TextMap.{lookup, assign, lookup-assign}
use trading_worker.Credential.Choice.{
  CollectorMaterial, Selected, selected, Cursors, get_elem?, select_from,
}

module _ (key : Text) (start : ℕ) (m : CollectorMaterial) (materials : List CollectorMaterial) where
  abbrev pub pool : List CollectorMaterial
  pool = m ∷ materials

  -- What is picked at a turn, where every turn finds the same credentials.
  unfoldable pub turn : ℕ → Cursors → Selected (Option CollectorMaterial)
  unfolding select_from
  turn zero cursors = (select_from key start (selected pool) cursors).0
  turn (suc k) cursors = turn k (select_from key start (selected pool) cursors).1

  turn_lem :
      (k : ℕ) (cursors : Cursors)
      → turn k cursors
        ≡ selected (get_elem? pool ((coalesce (lookup key cursors) start + k) % length pool))
  unfolding turn select_from
  turn_lem zero cursors = ap (λ c. selected (get_elem? pool (c % length pool))) (omega arith)
  turn_lem (suc k) cursors =
      let cursor = coalesce (lookup key cursors) start in
      let next : coalesce (lookup key (assign key (cursor + 1) cursors)) start ≡ cursor + 1 =
        rw (lookup-assign key key (cursor + 1) cursors, text_eq_self key) refl in
      turn_lem k (assign key (cursor + 1) cursors)
      ∙ ap (λ c. selected (get_elem? pool (c % length pool))) (omega (arith, next))

  -- The turns from a place to another, round the end.
  distance : (c i n : ℕ) → i < n → (c + (i + (n - c % n)) % n) % n ≡ i
  distance c i n lt =
      add-mod-mod c (i + (n - c % n)) n
      ∙ sym (mod-add-mod c n (i + (n - c % n)))
      ∙ ap (λ x. x % n) (omega (arith, mod-lt c (positive i n lt)))
      ∙ add-mod_right i n
      ∙ mod-eq_of_lt lt
    where
      positive : (i n : ℕ) → i < n → 0 < n
      positive i n lt = omega arith

  -- Every one of the credentials that the choice offers is picked within as many turns as there are of them,
  -- whatever the cursor is at first and whatever random number starts it.
  pub turns_reach_all :
      (cursors : Cursors) (i : ℕ)
      → i < length pool
      → (k : ℕ) × (k < length pool) × (turn k cursors ≡ selected (get_elem? pool i))
  turns_reach_all cursors i lt =
      let c = coalesce (lookup key cursors) start in
      let k = (i + (length pool - c % length pool)) % length pool in
      (
        k,
        mod-lt _ (omega arith),
        turn_lem k cursors ∙ ap (λ j. selected (get_elem? pool j)) (distance c i (length pool) lt),
      )
