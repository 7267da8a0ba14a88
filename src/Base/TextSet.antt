-- ===== src/Base/TextSet.antt =====
-- Texts in their order, and lists of texts as sets.
use mathlib.Core.Path.{◌≡◌, refl}
use mathlib.Core.Logic.{inl, inr}
use native.Mathlib.Omega.{arith}
use mathlib.Core.Bool.{Bool, true, false, not, ◌&&◌, ◌||◌}
use mathlib.Core.List.{List, [], ◌∷◌, ◌++◌}
use trading_worker.Base.Tests.{ltb, ◌==◌, Bool-cases}
use trading_worker.Base.Lists.{exists, filter_by}
use trading_worker.Base.Text.{Text, text_eq, text_eq_iff}

-- JavaScript orders texts by their code units.
abbrev pub text_leb : Text → Text → Bool
text_leb [] u = true
text_leb (c ∷ t) [] = false
text_leb (c ∷ t) (d ∷ u) = ltb c d || ((c == d) && text_leb t u)

-- `includes`, `Set.prototype.has`
abbrev pub has_text : List Text → Text → Bool
has_text texts s = exists (λ t. text_eq t s) texts

-- `Array.from(new Set(...))`: the first of equal texts stays.
unfoldable pub unique : List Text → List Text
unfolding filter_by
unique [] = []
unique (t ∷ texts) = t ∷ filter_by (λ u. not (text_eq t u)) (unique texts)

pub has_text-filter_by :
    (p : Text → Bool) (texts : List Text) (s : Text)
    → has_text (filter_by p texts) s ≡ has_text texts s && p s
unfolding filter_by
has_text-filter_by p [] s = refl
has_text-filter_by p (t ∷ texts) s = elim (Bool-cases (p t)) [
  | inl f ↦ rw f (ground (arith, text_eq_iff t s, has_text-filter_by p texts s))
  | inr f ↦ rw f (ground (arith, text_eq_iff t s, has_text-filter_by p texts s))
]

pub has_text-append :
    (texts others : List Text) (s : Text)
    → has_text (texts ++ others) s ≡ has_text texts s || has_text others s
has_text-append [] others s = refl
has_text-append (t ∷ texts) others s = ground (arith, has_text-append texts others s)

pub has_text-unique : (texts : List Text) (s : Text) → has_text (unique texts) s ≡ has_text texts s
unfolding unique
has_text-unique [] s = refl
has_text-unique (t ∷ texts) s = ground (
  arith,
  text_eq_iff t s,
  has_text-unique texts s,
  has_text-filter_by (λ u. not (text_eq t u)) (unique texts) s,
)
