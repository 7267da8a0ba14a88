-- ===== src/Scaled.antt =====
-- roles/tracker/service/execution-persistence.service.ts, the fixed-point arithmetic at its end:
-- decimal texts against `bigint`s scaled by a power of ten.
pub mod Digits
pub mod Reading
pub mod RoundTrip
pub mod Arith
mod Tests
use trading_worker.Base.{
  ℕ, zero, suc, ◌+◌, ◌-◌, ◌*◌, ◌/◌, ◌%◌, ◌^◌, Bool, true, false, List, [], ◌∷◌, ◌++◌, Option, none,
  some, ◌||◌, ◌&&◌, length, take, replicate, ltb, leb, ◌==◌, if◌then◌else◌,
}
use trading_worker.Base.Int.{ℤ, pos, negsuc, ◌*ℤ◌, of_sign, neg_ℤ, abs, is_negative, div_ℤ}
use trading_worker.Base.Text.{Text, is_empty, trim, strip_end}
use mathlib.Core.Option

-- What `decimalToScaled` is called with. A number is given by its text, `String(value)`.
pub data DecimalInput : Type 0 where
  null : DecimalInput
  big : ℤ → DecimalInput
  text : Text → DecimalInput

-- A text column that may be null.
abbrev pub column : Option Text → DecimalInput
column none = null
column (some t) = text t

-- The value of a digit of a number literal, `z` and above being none.
digit_value : ℕ → Option ℕ
digit_value c =
    if leb b'0' c && leb c b'9'
    then some (c - b'0')
    else if leb b'a' c && leb c b'f'
    then some (c - 87)
    else if leb b'A' c && leb c b'F'
    then some (c - 55)
    else none

pub digits_from : ℕ → ℕ → Text → Option ℕ
unfolding digit_value
digits_from base acc [] = some acc
digits_from base acc (c ∷ t) = elim (digit_value c) [
  | none ↦ none
  | some d ↦ if ltb d base then digits_from base (acc * base + d) t else none
]

-- One digit or more.
digits : ℕ → Text → Option ℕ
unfolding digits_from
digits base [] = none
digits base (c ∷ t) = digits_from base 0 (c ∷ t)

-- A literal with no sign: with a base prefix, or decimal.
literal : Text → Option ℕ
unfolding digits
literal (c ∷ x ∷ t) =
    if (c == b'0') && ((x == b'x') || (x == b'X'))
    then digits 16 t
    else if (c == b'0') && ((x == b'o') || (x == b'O'))
    then digits 8 t
    else if (c == b'0') && ((x == b'b') || (x == b'B'))
    then digits 2 t
    else digits 10 (c ∷ x ∷ t)
literal t = digits 10 t

big_int_trimmed : Text → Option ℤ
unfolding literal
big_int_trimmed [] = some (pos 0)
big_int_trimmed (c ∷ t) =
    if c == b'-'
    then Option.map (of_sign true) (digits 10 t)
    else if c == b'+'
    then Option.map pos (digits 10 t)
    else Option.map pos (literal (c ∷ t))

-- `BigInt(text)`; `none` is its SyntaxError.
unfoldable pub big_int : Text → Option ℤ
unfolding big_int_trimmed trim
big_int t = big_int_trimmed (trim t)

-- `text.split('.')`, its first two parts; the second is '' where there is no dot.
pub before_dot : Text → Text
before_dot [] = []
before_dot (c ∷ t) = if c == b'.' then [] else c ∷ before_dot t

pub after_dot : Text → Text
unfolding before_dot
after_dot [] = []
after_dot (c ∷ t) = if c == b'.' then before_dot t else after_dot t

-- `text.padEnd(n, '0')` and `text.padStart(n, '0')`.
pub pad_end : ℕ → Text → Text
pad_end n t = t ++ replicate (n - length t) b'0'

pub pad_start : ℕ → Text → Text
pad_start n t = replicate (n - length t) b'0' ++ t

abbrev zero_if_empty : Text → Text
zero_if_empty [] = b'0' ∷ []
zero_if_empty (c ∷ t) = c ∷ t

-- The digits of `whole.fraction`, the fraction cut or filled to `scale` places.
pub scaled_digits : Text → ℕ → Text
unfolding before_dot after_dot pad_end
scaled_digits unsigned scale =
    zero_if_empty (before_dot unsigned) ++ take scale (pad_end scale (after_dot unsigned))

abbrev strip_minus : Text → Bool × Text
strip_minus [] = (false, [])
strip_minus (c ∷ t) = if c == b'-' then (true, t) else (false, c ∷ t)

pub scaled_of_raw : Text → ℕ → Option ℤ
unfolding scaled_digits big_int
scaled_of_raw [] scale = some (pos 0)
scaled_of_raw (c ∷ t) scale =
    let (negative, unsigned) = strip_minus (c ∷ t) in
    Option.map (λ parsed. if negative then neg_ℤ parsed else parsed)
      (big_int (scaled_digits unsigned scale))

-- `none` is the SyntaxError of `BigInt`.
unfoldable pub decimal_to_scaled : DecimalInput → ℕ → Option ℤ
unfolding scaled_of_raw trim
decimal_to_scaled null scale = some (pos 0)
decimal_to_scaled (big value) scale = some value
decimal_to_scaled (text value) scale = scaled_of_raw (trim value) scale

-- The decimal text of a number; the fuel is enough because a tenth is smaller.
print_fuel : ℕ → ℕ → Text
print_fuel zero n = []
print_fuel (suc fuel) n =
    let high = print_fuel fuel (n / 10) in
    if ltb n 10 then (b'0' + n) ∷ [] else high ++ (b'0' + n % 10) ∷ []

unfoldable pub print : ℕ → Text
unfolding print_fuel
print n = print_fuel (suc n) n

abbrev is_zero_digit : ℕ → Bool
is_zero_digit c = c == b'0'

-- The digits behind the point, with no zeros at the end.
pub fraction_text : ℕ → ℕ → Text
unfolding pad_start print strip_end
fraction_text value scale = strip_end is_zero_digit (pad_start scale (print value))

pub scaled_body : ℕ → ℕ → Text
unfolding print fraction_text
scaled_body unsigned scale =
    let whole = print (unsigned / 10 ^ scale) in
    let fraction = fraction_text (unsigned % 10 ^ scale) scale in
    if is_empty fraction then whole else whole ++ b'.' ∷ fraction

unfoldable pub scaled_to_decimal : ℤ → ℕ → Text
unfolding scaled_body
scaled_to_decimal value scale =
    let body = scaled_body (abs value) scale in if is_negative value then b'-' ∷ body else body

unfoldable pub multiply_scaled : ℤ → ℕ → ℤ → ℕ → ℕ → ℤ
multiply_scaled left left_scale right right_scale output_scale =
    div_ℤ (left *ℤ right *ℤ pos (10 ^ output_scale)) (pos (10 ^ (left_scale + right_scale)))

abbrev pub is_zero : ℤ → Bool
is_zero (pos zero) = true
is_zero (pos (suc n)) = false
is_zero (negsuc n) = false

unfoldable pub divide_scaled : ℤ → ℕ → ℤ → ℕ → ℕ → ℤ
divide_scaled numerator numerator_scale denominator denominator_scale output_scale =
    if is_zero denominator
    then pos 0
    else div_ℤ (numerator *ℤ pos (10 ^ (denominator_scale + output_scale)))
        (denominator *ℤ pos (10 ^ numerator_scale))
