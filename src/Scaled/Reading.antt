-- ===== src/Scaled/Reading.antt =====
-- How the parts of a decimal text are read: the split at the point, the filled fraction, `BigInt`.
use trading_worker.Base.{
  ℕ, zero, suc, ◌+◌, ◌-◌, ◌*◌, ◌^◌, ◌≤◌, ◌≡◌, refl, ◌∙◌, [], ◌∷◌, ◌++◌, some, true, length,
  replicate, take, length-append, length-replicate, All, arith,
}
use trading_worker.Base.Int.{pos}
use trading_worker.Base.Text.{Text, strip_end, is_empty, trim-ink, IsInk-of_range, IsInk}
use trading_worker.Scaled.{big_int, pad_end, is_zero_digit, before_dot, after_dot, scaled_digits}
use trading_worker.Scaled.Digits.{IsDigit, value, digits_from-value, value-append, value-shift}

pub digits-IsInk : (t : Text) → All IsDigit t → All IsInk t
digits-IsInk [] h = tt
digits-IsInk (c ∷ t) h = (IsInk-of_range c (omega arith) (omega arith), digits-IsInk t h.1)

pub All-IsInk-append : (t u : Text) → All IsInk t → All IsInk u → All IsInk (t ++ u)
All-IsInk-append [] u h k = k
All-IsInk-append (c ∷ t) u h k = (h.0, All-IsInk-append t u h.1 k)

pub before_dot-digits : (t u : Text) → All IsDigit t → before_dot (t ++ b'.' ∷ u) ≡ t
unfolding before_dot
before_dot-digits [] u h = refl
before_dot-digits (c ∷ t) u h = ground (arith, before_dot-digits t u h.1)

pub before_dot-whole : (t : Text) → All IsDigit t → before_dot t ≡ t
unfolding before_dot
before_dot-whole [] h = refl
before_dot-whole (c ∷ t) h = ground (arith, before_dot-whole t h.1)

pub after_dot-digits : (t u : Text) → All IsDigit t → All IsDigit u → after_dot (t ++ b'.' ∷ u) ≡ u
unfolding after_dot
after_dot-digits [] u h k = before_dot-whole u k
after_dot-digits (c ∷ t) u h k = ground (arith, after_dot-digits t u h.1 k)

pub after_dot-whole : (t : Text) → All IsDigit t → after_dot t ≡ []
unfolding after_dot
after_dot-whole [] h = refl
after_dot-whole (c ∷ t) h = ground (arith, after_dot-whole t h.1)

pub take-all : (n : ℕ) (t : Text) → length t ≡ n → take n t ≡ t
take-all zero [] h = refl
take-all zero (c ∷ t) h = absurd (omega arith)
take-all (suc n) [] h = refl
take-all (suc n) (c ∷ t) h = ground (arith, take-all n t (omega arith))

pub length-pad_end : (n : ℕ) (t : Text) → length t ≤ n → length (pad_end n t) ≡ n
unfolding pad_end
length-pad_end n t h = omega (
  arith,
  length-append t (replicate (n - length t) b'0'),
  length-replicate {A = ℕ} (n - length t) b'0',
)

-- A digit text is what `BigInt` reads as its value.
pub big_int-digits :
    (c : ℕ) (t : Text) → All IsDigit (c ∷ t) → big_int (c ∷ t) ≡ some (pos (value 0 (c ∷ t)))
unfolding big_int
big_int-digits c [] h =
    rw (trim-ink (c ∷ []) (digits-IsInk (c ∷ []) h))
      (ground (arith, digits_from-value 0 (c ∷ []) h))
big_int-digits c (d ∷ t) h =
    rw (trim-ink (c ∷ d ∷ t) (digits-IsInk (c ∷ d ∷ t) h))
      (ground (arith, digits_from-value 0 (c ∷ d ∷ t) h))

pub scaled_digits-body :
    (whole fraction : Text) (s c : ℕ) (t : Text)
    → whole ≡ c ∷ t
    → All IsDigit whole
    → All IsDigit fraction
    → length fraction ≤ s
    → scaled_digits (whole ++ b'.' ∷ fraction) s ≡ whole ++ pad_end s fraction
unfolding scaled_digits
scaled_digits-body whole fraction s c t e h k l = rw (
  before_dot-digits whole fraction h,
  after_dot-digits whole fraction h k,
  take-all s (pad_end s fraction) (length-pad_end s fraction l),
  e,
)

pub scaled_digits-whole :
    (whole : Text) (s c : ℕ) (t : Text)
    → whole ≡ c ∷ t
    → All IsDigit whole
    → scaled_digits whole s ≡ whole ++ pad_end s []
unfolding scaled_digits
scaled_digits-whole whole s c t e h = rw (
  before_dot-whole whole h,
  after_dot-whole whole h,
  take-all s (pad_end s []) (length-pad_end s [] (omega arith)),
  e,
)

-- The value of a whole part followed by exactly `s` digits.
pub value-parts :
    (whole fraction : Text) (s : ℕ)
    → length fraction ≡ s
    → value 0 (whole ++ fraction) ≡ value 0 whole * 10 ^ s + value 0 fraction
value-parts whole fraction s e =
    value-append 0 whole fraction ∙ rw (← e) (value-shift (value 0 whole) fraction)

pub is_empty-eq : (t : Text) → is_empty t ≡ true → t ≡ []
is_empty-eq [] h = refl
is_empty-eq (c ∷ t) h = cc

pub strip_end-IsDigit : (t : Text) → All IsDigit t → All IsDigit (strip_end is_zero_digit t)
unfolding strip_end
strip_end-IsDigit [] h = tt
strip_end-IsDigit (c ∷ t) h = ground (arith, strip_end-IsDigit t h.1)

pub length-strip_end : (t : Text) → length (strip_end is_zero_digit t) ≤ length t
unfolding strip_end
length-strip_end [] = omega arith
length-strip_end (c ∷ t) = ground (arith, length-strip_end t)

-- Filling up undoes the removal of zeros at the end.
pub pad_end-strip_end : (t : Text) → pad_end (length t) (strip_end is_zero_digit t) ≡ t
unfolding pad_end strip_end
pad_end-strip_end [] = refl
pad_end-strip_end (c ∷ t) =
    ground (arith, pad_end-strip_end t, is_empty-eq (strip_end is_zero_digit t), length-strip_end t)
