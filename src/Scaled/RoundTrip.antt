-- ===== src/Scaled/RoundTrip.antt =====
-- Reading a decimal text back: `decimalToScaled` after `scaledToDecimal`.
use native.Mathlib.Nat.{mod-lt, one-le-pow, div-add-mod}
use trading_worker.Base.{
  ℕ, zero, suc, ◌-◌, ◌*◌, ◌/◌, ◌%◌, ◌^◌, ◌≤◌, ◌<◌, ◌≡◌, ◌⊎◌, refl, ap, ◌∙◌, [], ◌∷◌, ◌++◌, some,
  false, length, replicate, length-append, length-replicate, All, arith, inl, inr, Bool-cases, ◌==◌,
}
use trading_worker.Base.Int.{ℤ, pos, negsuc, neg_ℤ}
use trading_worker.Base.Text.{Text, strip_end, is_empty, trim-ink, IsInk-of_range, IsInk}
use trading_worker.Scaled.{
  text, big_int, print, pad_end, pad_start, is_zero_digit, scaled_digits, scaled_of_raw,
  decimal_to_scaled, fraction_text, scaled_body, scaled_to_decimal,
}
use trading_worker.Scaled.Digits.{
  All-append, IsDigit, value, value-zeros, replicate-IsDigit, print-IsDigit, value-print,
  length-print, print-cons,
}
use trading_worker.Scaled.Reading.{
  digits-IsInk, All-IsInk-append, big_int-digits, scaled_digits-body, scaled_digits-whole,
  value-parts, is_empty-eq, strip_end-IsDigit, length-strip_end, pad_end-strip_end,
}

-- The digits of a fraction, filled up in front.
padded : ℕ → ℕ → Text
padded k f = pad_start (suc k) (print f)

module _ (k f : ℕ) (small : f < 10 ^ suc k) where
  padded-IsDigit : All IsDigit (padded k f)
  unfolding padded pad_start
  padded-IsDigit =
      All-append (replicate (suc k - length (print f)) b'0') (print f)
        (replicate-IsDigit (suc k - length (print f))) (print-IsDigit f)

  length-padded : length (padded k f) ≡ suc k
  unfolding padded pad_start
  length-padded = omega (
    arith,
    length-append (replicate (suc k - length (print f)) b'0') (print f),
    length-replicate {A = ℕ} (suc k - length (print f)) b'0',
    length-print k f small,
  )

  value-padded : value 0 (padded k f) ≡ f
  unfolding padded pad_start
  value-padded = value-zeros (suc k - length (print f)) (print f) ∙ value-print f

  fraction_text-padded : fraction_text f (suc k) ≡ strip_end is_zero_digit (padded k f)
  unfolding fraction_text padded
  fraction_text-padded = refl

  -- Reading fills the printed fraction up again.
  pad_end-fraction_text : pad_end (suc k) (fraction_text f (suc k)) ≡ padded k f
  pad_end-fraction_text =
      rw fraction_text-padded (rw length-padded at (pad_end-strip_end (padded k f)))

  fraction_text-IsDigit : All IsDigit (fraction_text f (suc k))
  unfolding fraction_text padded
  fraction_text-IsDigit = strip_end-IsDigit (pad_start (suc k) (print f)) padded-IsDigit

  length-fraction_text : length (fraction_text f (suc k)) ≤ suc k
  unfolding fraction_text padded
  length-fraction_text =
      omega (arith, length-strip_end (pad_start (suc k) (print f)), length-padded)

module _ (u k : ℕ) where
  small_fraction : u % 10 ^ suc k < 10 ^ suc k
  small_fraction = mod-lt u (one-le-pow (suc k) 10 (omega arith))

  all_digits : Text
  all_digits = print (u / 10 ^ suc k) ++ padded k (u % 10 ^ suc k)

  all_digits-IsDigit : All IsDigit all_digits
  unfolding all_digits
  all_digits-IsDigit =
      All-append (print (u / 10 ^ suc k)) (padded k (u % 10 ^ suc k)) (print-IsDigit _)
        (padded-IsDigit k _ small_fraction)

  value-all_digits : value 0 all_digits ≡ u
  unfolding all_digits
  value-all_digits =
      value-parts (print (u / 10 ^ suc k)) (padded k (u % 10 ^ suc k)) (suc k)
        (length-padded k _ small_fraction)
      ∙ omega (
        arith,
        ap (λ (n : ℕ). n * 10 ^ suc k) (value-print (u / 10 ^ suc k)),
        value-padded k _ small_fraction,
        div-add-mod u (10 ^ suc k),
      )

  abbrev whole : Text
  whole = print (u / 10 ^ suc k)

  abbrev fraction : Text
  fraction = fraction_text (u % 10 ^ suc k) (suc k)

  -- Either the fraction is empty and left off, or it stands behind a point.
  scaled_body-cases :
      ((fraction ≡ []) × (scaled_body u (suc k) ≡ whole))
      ⊎ (scaled_body u (suc k) ≡ whole ++ b'.' ∷ fraction)
  unfolding scaled_body
  scaled_body-cases = elim (Bool-cases (is_empty fraction)) [
    | inl e ↦ inl (is_empty-eq _ e, rw e)
    | inr e ↦ inr (rw e)
  ]

  scaled_digits-scaled_body : scaled_digits (scaled_body u (suc k)) (suc k) ≡ all_digits
  unfolding all_digits
  scaled_digits-scaled_body =
      let (c, t, p) = print-cons (u / 10 ^ suc k) in
      let filled = pad_end-fraction_text k (u % 10 ^ suc k) small_fraction in
      elim scaled_body-cases [
        | inl (none_left, e) ↦ rw e (
            scaled_digits-whole whole (suc k) c t p (print-IsDigit _)
            ∙ ap (λ r. whole ++ r) (rw none_left at filled))
        | inr e ↦ rw e (
            scaled_digits-body whole fraction (suc k) c t p (print-IsDigit _)
              (fraction_text-IsDigit k _ small_fraction) (length-fraction_text k _ small_fraction)
            ∙ ap (λ r. whole ++ r) filled)
      ]

  scaled_body-cons : (c : ℕ) × (t : Text) × (scaled_body u (suc k) ≡ c ∷ t) × (IsDigit c)
  scaled_body-cons =
      let (c, t, p) = print-cons (u / 10 ^ suc k) in
      let first : IsDigit c = (rw p at (print-IsDigit (u / 10 ^ suc k))).0 in
      elim scaled_body-cases [
        | inl (_, e) ↦ (c, t, e ∙ p, first)
        | inr e ↦ (c, t ++ b'.' ∷ fraction, rw (e, p), first)
      ]

  scaled_body-IsInk : All IsInk (scaled_body u (suc k))
  scaled_body-IsInk = elim scaled_body-cases [
    | inl (_, e) ↦ rw e (digits-IsInk whole (print-IsDigit _))
    | inr e ↦ rw e (
        All-IsInk-append whole (b'.' ∷ fraction) (digits-IsInk whole (print-IsDigit _)) (
          IsInk-of_range b'.' (omega arith) (omega arith),
          digits-IsInk fraction (fraction_text-IsDigit k _ small_fraction),
        ))
  ]

  all_digits-cons : (c : ℕ) × (t : Text) × (all_digits ≡ c ∷ t)
  unfolding all_digits
  all_digits-cons =
      let (c, t, p) = print-cons (u / 10 ^ suc k) in
      (c, t ++ padded k (u % 10 ^ suc k), ap (λ r. r ++ padded k (u % 10 ^ suc k)) p)

  big_int-scaled_body : big_int (scaled_digits (scaled_body u (suc k)) (suc k)) ≡ some (pos u)
  big_int-scaled_body =
      let (c, t, p) = all_digits-cons in
      rw (scaled_digits-scaled_body, p)
        (big_int-digits c t (rw p at all_digits-IsDigit)
          ∙ ap (λ (n : ℕ). some (pos n)) (rw p at value-all_digits))

-- Reading takes a leading minus off, and nothing else.
scaled_of_raw-digit :
    (c : ℕ) (t : Text) (scale : ℕ) {z : ℤ}
    → IsDigit c
    → big_int (scaled_digits (c ∷ t) scale) ≡ some z
    → scaled_of_raw (c ∷ t) scale ≡ some z
unfolding scaled_of_raw
scaled_of_raw-digit c t scale h e =
    let plain : (c == b'-') ≡ false = ground arith in rw plain (rw e)

scaled_of_raw-minus :
    (t : Text) (scale : ℕ) {z : ℤ}
    → big_int (scaled_digits t scale) ≡ some z
    → scaled_of_raw (b'-' ∷ t) scale ≡ some (neg_ℤ z)
unfolding scaled_of_raw
scaled_of_raw-minus t scale e = ground arith

-- Reading a printed number at its own scale gives the number back.
pub decimal_to_scaled-scaled_to_decimal :
    (value : ℤ) (scale : ℕ)
    → 0 < scale
    → decimal_to_scaled (text (scaled_to_decimal value scale)) scale ≡ some value
unfolding decimal_to_scaled scaled_to_decimal
decimal_to_scaled-scaled_to_decimal v zero h = absurd (omega arith)
decimal_to_scaled-scaled_to_decimal (pos u) (suc k) h =
    let (c, t, p, d) = scaled_body-cons u k in
    rw (trim-ink (scaled_body u (suc k)) (scaled_body-IsInk u k))
      (rw p (scaled_of_raw-digit c t (suc k) d (rw p at (big_int-scaled_body u k))))
decimal_to_scaled-scaled_to_decimal (negsuc u) (suc k) h =
    rw
      (trim-ink (b'-' ∷ scaled_body (suc u) (suc k))
        (IsInk-of_range b'-' (omega arith) (omega arith), scaled_body-IsInk (suc u) k))
      (scaled_of_raw-minus (scaled_body (suc u) (suc k)) (suc k) (big_int-scaled_body (suc u) k))
