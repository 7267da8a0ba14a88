-- ===== src/Base/Text.antt =====
-- Texts as lists of character codes. JavaScript's strings are sequences of UTF-16 units; every text
-- that the modelled code takes apart is ASCII, where units and codes agree.
use Prim.Native.Nat.{ℕ, ◌≤◌}
use Prim.Native.Char.{code}
use Prim.Native.String.{String}
use mathlib.Core.Path.{◌≡◌, refl}
use mathlib.Core.Logic.{◌↔◌}
use mathlib.Core.Bool.{Bool, true, false, ◌&&◌, ◌||◌}
use mathlib.Core.List.{List, [], ◌∷◌}
use mathlib.Core.Option.{Option, none, some}
use native.Mathlib.Omega.{arith}
use trading_worker.Base.Tests.{leb, ◌==◌, if◌then◌else◌}
use trading_worker.Base.Lists.{All}

abbrev pub Text : Type 0
Text = List ℕ

abbrev pub codes : String → Text
codes String.[] = []
codes (String.◌∷◌ c s) = code c ∷ codes s

-- `!text`
abbrev pub is_empty : Text → Bool
is_empty [] = true
is_empty (c ∷ t) = false

abbrev pub text_eq : Text → Text → Bool
text_eq [] [] = true
text_eq [] (d ∷ u) = false
text_eq (c ∷ t) [] = false
text_eq (c ∷ t) (d ∷ u) = (c == d) && text_eq t u

pub text_eq_iff : (t u : Text) → (text_eq t u ≡ true) ↔ (t ≡ u)
text_eq_iff [] [] = ground arith
text_eq_iff [] (d ∷ u) = ground arith
text_eq_iff (c ∷ t) [] = ground arith
text_eq_iff (c ∷ t) (d ∷ u) = ground (arith, text_eq_iff t u)

pub text_eq_self : (t : Text) → text_eq t t ≡ true
text_eq_self t = (text_eq_iff t t).1 refl

-- A nullable column compared with a text in SQL: NULL matches nothing.
abbrev pub opt_eq : Option Text → Text → Bool
opt_eq none u = false
opt_eq (some t) u = text_eq t u

-- `text || null`
abbrev pub or_null : Text → Option Text
or_null [] = none
or_null (c ∷ t) = some (c ∷ t)

-- `a ?? b`
abbrev pub coalesce {ℓ} : {A : Type ℓ} → Option A → A → A
coalesce none b = b
coalesce (some a) b = a

-- `a ?? b` where `b` may be null too.
abbrev pub coalesce_null {ℓ} : {A : Type ℓ} → Option A → Option A → Option A
coalesce_null none b = b
coalesce_null (some a) b = some a

-- The white space of `String.prototype.trim`.
pub is_space : ℕ → Bool
is_space c =
    (leb 9 c && leb c 13)
    || (c == 32)
    || (c == 160)
    || (c == 0x1680)
    || (leb 0x2000 c && leb c 0x200a)
    || (c == 0x2028)
    || (c == 0x2029)
    || (c == 0x202f)
    || (c == 0x205f)
    || (c == 0x3000)
    || (c == 0xfeff)

unfoldable pub trim_start : Text → Text
unfolding is_space
trim_start [] = []
trim_start (c ∷ t) = if is_space c then trim_start t else c ∷ t

-- Drops the last characters that pass a test.
unfoldable pub strip_end : (ℕ → Bool) → Text → Text
strip_end p [] = []
strip_end p (c ∷ t) = let rest = strip_end p t in if is_empty rest && p c then [] else c ∷ rest

unfoldable pub trim : Text → Text
unfolding trim_start strip_end
trim t = strip_end is_space (trim_start t)

abbrev pub IsInk : ℕ → Type 0
IsInk c = is_space c ≡ false

strip_end-ink : (t : Text) → All IsInk t → strip_end is_space t ≡ t
unfolding strip_end
strip_end-ink [] h = refl
strip_end-ink (c ∷ t) h = ground (arith, strip_end-ink t h.1)

trim_start-ink : (t : Text) → All IsInk t → trim_start t ≡ t
unfolding trim_start
trim_start-ink [] h = refl
trim_start-ink (c ∷ t) h = ground arith

-- A text with no white space is its own trim.
pub trim-ink : (t : Text) → All IsInk t → trim t ≡ t
unfolding trim
trim-ink t h = ground (arith, trim_start-ink t h, strip_end-ink t h)

-- A code between `!` and `~`.
pub IsInk-of_range : (c : ℕ) → 33 ≤ c → c ≤ 126 → IsInk c
unfolding is_space
IsInk-of_range c h k = ground arith
