-- ===== src/Scaled/Digits.antt =====
-- Digit texts: what they are worth, and the decimal print of a number.
use native.Mathlib.Nat.{pow-suc}
use Prim.Native.Nat.pow
use trading_worker.Base.{
  ℕ, zero, suc, ◌+◌, ◌-◌, ◌*◌, ◌/◌, ◌%◌, ◌^◌, ◌≤◌, ◌<◌, ◌≡◌, refl, [], ◌∷◌, ◌++◌, some, length,
  replicate, length-append, All, arith, inl, inr, ltb, Bool-cases,
}
use trading_worker.Base.Text.{Text}
use trading_worker.Scaled.{digits_from, print_fuel, print}

abbrev pub IsDigit : ℕ → Type 0
IsDigit c = (b'0' ≤ c) × (c ≤ b'9')

-- What a digit text is worth behind the digits already read.
pub value : ℕ → Text → ℕ
value acc [] = acc
value acc (c ∷ t) = value (acc * 10 + (c - b'0')) t

pub digits_from-value :
    (acc : ℕ) (t : Text) → All IsDigit t → digits_from 10 acc t ≡ some (value acc t)
unfolding digits_from value
digits_from-value acc [] h = refl
digits_from-value acc (c ∷ t) h = ground (arith, digits_from-value (acc * 10 + (c - b'0')) t)

pub value-append : (acc : ℕ) (t u : Text) → value acc (t ++ u) ≡ value (value acc t) u
unfolding value
value-append acc [] u = refl
value-append acc (c ∷ t) u = value-append (acc * 10 + (c - b'0')) t u

pub value-shift : (acc : ℕ) (t : Text) → value acc t ≡ acc * 10 ^ length t + value 0 t
unfolding value
value-shift acc [] = grind (arith, pow.zero)
value-shift acc (c ∷ t) =
    rw (pow-suc 10 (length t))
      (omega (arith, value-shift (acc * 10 + (c - b'0')) t, value-shift (0 * 10 + (c - b'0')) t))

pub value-zeros : (k : ℕ) (t : Text) → value 0 (replicate k b'0' ++ t) ≡ value 0 t
unfolding value
value-zeros zero t = refl
value-zeros (suc k) t = value-zeros k t

pub All-append : (t u : Text) → All IsDigit t → All IsDigit u → All IsDigit (t ++ u)
All-append [] u h k = k
All-append (c ∷ t) u h k = (h.0, All-append t u h.1 k)

pub replicate-IsDigit : (k : ℕ) → All IsDigit (replicate k b'0')
replicate-IsDigit zero = tt
replicate-IsDigit (suc k) = ((omega arith, omega arith), replicate-IsDigit k)

print_fuel-IsDigit : (fuel n : ℕ) → All IsDigit (print_fuel fuel n)
unfolding print_fuel
print_fuel-IsDigit zero n = tt
print_fuel-IsDigit (suc fuel) n = ground (
  arith,
  All-append (print_fuel fuel (n / 10)) ((b'0' + n % 10) ∷ []) (print_fuel-IsDigit fuel (n / 10)),
)

value-print_fuel : (fuel n : ℕ) → n < fuel → value 0 (print_fuel fuel n) ≡ n
unfolding print_fuel value
value-print_fuel zero n h = absurd (omega arith)
value-print_fuel (suc fuel) n h = ground (
  arith,
  value-append 0 (print_fuel fuel (n / 10)) ((b'0' + n % 10) ∷ []),
  value-print_fuel fuel (n / 10),
)

length-print_fuel : (s fuel n : ℕ) → n < 10 ^ suc s → length (print_fuel fuel n) ≤ suc s
unfolding print_fuel
length-print_fuel s zero n h = omega arith
length-print_fuel zero (suc fuel) n h = ground (arith, pow-suc 10 0, pow.zero 10)
length-print_fuel (suc s) (suc fuel) n h = ground (
  arith,
  length-append (print_fuel fuel (n / 10)) ((b'0' + n % 10) ∷ []),
  length-print_fuel s fuel (n / 10),
  pow-suc 10 (suc s),
)

pub print-IsDigit : (n : ℕ) → All IsDigit (print n)
unfolding print
print-IsDigit n = print_fuel-IsDigit (suc n) n

pub value-print : (n : ℕ) → value 0 (print n) ≡ n
unfolding print
value-print n = value-print_fuel (suc n) n (omega arith)

pub length-print : (s n : ℕ) → n < 10 ^ suc s → length (print n) ≤ suc s
unfolding print
length-print s n h = length-print_fuel s (suc n) n h

snoc-cons : (t : Text) (d : ℕ) → (c : ℕ) × (u : Text) × (t ++ d ∷ [] ≡ c ∷ u)
snoc-cons [] d = (d, [], refl)
snoc-cons (c ∷ t) d = (c, t ++ d ∷ [], refl)

-- A printed number has a first digit.
pub print-cons : (n : ℕ) → (c : ℕ) × (t : Text) × (print n ≡ c ∷ t)
unfolding print print_fuel
print-cons n = elim (Bool-cases (ltb n 10)) [
  | inl e ↦ (b'0' + n, [], rw e)
  | inr e ↦ let (c, t, p) = snoc-cons (print_fuel n (n / 10)) (b'0' + n % 10) in (c, t, rw e p)
]
