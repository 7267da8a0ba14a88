-- ===== src/Base/TextMap.antt =====
-- A `Map` with text keys: pairs in the order of their insertion.
use trading_worker.Base.Tests.{if◌then◌else◌, Bool-cases}
use trading_worker.Base.Text.{Text, text_eq, text_eq_iff}
use Prim.Native.Nat.{ℕ, ◌+◌}
use mathlib.Core.Path.{◌≡◌, refl, subst}
use mathlib.Core.Logic.{inl, inr}
use mathlib.Core.Bool.{true, false}
use mathlib.Core.Option.{Option, none, some}
use mathlib.Core.List.{List, [], ◌∷◌}
use native.Mathlib.Omega.{arith}

text_eq_sides : (i k j : Text) → text_eq i k ≡ true → text_eq i j ≡ text_eq k j
text_eq_sides i k j e = subst (λ t. text_eq i j ≡ text_eq t j) ((text_eq_iff i k).0 e) refl

text_eq_apart : (i k j : Text) → text_eq i k ≡ false → text_eq i j ≡ true → text_eq k j ≡ false
text_eq_apart i k j e f = ground (arith, text_eq_iff i k, text_eq_iff i j, text_eq_iff k j)

module _ {ℓ} {V : Type ℓ} where
  unfoldable pub lookup : Text → List (Text × V) → Option V
  lookup k [] = none
  lookup k ((j, v) ∷ m) = if text_eq j k then some v else lookup k m

  -- `map.set`
  unfoldable pub assign : Text → V → List (Text × V) → List (Text × V)
  assign k v [] = (k, v) ∷ []
  assign k v ((j, w) ∷ m) =
      let rest = (j, w) ∷ assign k v m in if text_eq j k then (j, v) ∷ m else rest

  pub lookup-assign :
      (k j : Text) (v : V) (m : List (Text × V))
      → lookup j (assign k v m) ≡ (if text_eq k j then some v else lookup j m)
  unfolding lookup assign
  lookup-assign k j v [] = refl
  lookup-assign k j v ((i, w) ∷ m) = elim (Bool-cases (text_eq i k)) [
    | inl e ↦ rw e (replaced (text_eq_sides i k j e))
    | inr e ↦ elim (Bool-cases (text_eq i j)) [
      | inl f ↦ rw (e, f, text_eq_apart i k j e f) refl
      | inr f ↦ rw (e, f) (lookup-assign k j v m)
    ]
  ]
    where
      replaced :
          text_eq i j ≡ text_eq k j
          → (if text_eq i j then some v else lookup j m)
            ≡ (if text_eq k j then some v else if text_eq i j then some w else lookup j m)
      replaced e = elim (Bool-cases (text_eq k j)) [
        | inl f ↦ rw (e, f) refl
        | inr f ↦ rw (e, f) refl
      ]

  -- A sum over the values.
  unfoldable pub total : (V → ℕ) → List (Text × V) → ℕ
  total f [] = 0
  total f ((j, v) ∷ m) = f v + total f m

  abbrev pub part : (V → ℕ) → Option V → ℕ
  part f none = 0
  part f (some v) = f v

  -- What is assigned takes the place of what was there.
  pub total-assign :
      (f : V → ℕ) (k : Text) (v : V) (m : List (Text × V))
      → total f (assign k v m) + part f (lookup k m) ≡ total f m + f v
  unfolding lookup assign total
  total-assign f k v [] = omega arith
  total-assign f k v ((i, w) ∷ m) = elim (Bool-cases (text_eq i k)) [
    | inl e ↦ rw e (omega arith)
    | inr e ↦ rw e (omega (arith, total-assign f k v m))
  ]
