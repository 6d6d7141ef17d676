-- ===== src/Numbers/Decimals.antt =====
-- `ParseUint` of decimal digits.
use cpp_temp_learn.Prelude.{
  ℕ, ◌+◌, ◌-◌, ◌*◌, ◌%◌, ◌^◌, ◌≤◌, ◌<◌, Bool, true, false, [], ◌∷◌, ◌++◌, Option, none, some, ◌≡◌,
  refl, sym, ap, ◌∙◌, inl, inr, arith, Bytes, All, Option-cases, append-nil, find_byte, to_lower,
  ltb, leb, is_space, if◌then◌else◌,
}
use cpp_temp_learn.Numbers.{
  digit_value, digit_in, read_digits, skip_spaces, read_sign, starts_with_digit, is_hexadecimal,
  skip_prefix, scan_number, scale, base_of, parse_unsigned, is_minus, parse_uint, suffix_of,
  parse_byte_count,
}

abbrev pub IsDigit : ℕ → Type 0
IsDigit c = (b'0' ≤ c) × (c ≤ b'9')

-- The number that decimal digits spell behind others, without bounds.
abbrev pub decimal_value : ℕ → Bytes → ℕ
decimal_value acc [] = acc
decimal_value acc (c ∷ s) = decimal_value (acc * 10 + (c - b'0')) s

digit_in-IsDigit : (c : ℕ) → IsDigit c → digit_in 10 c ≡ some (c - b'0')
unfolding digit_in digit_value
digit_in-IsDigit c (l, h) = ground (arith, l, h)

-- Digits with a text behind them that starts with none.
read_digits-decimal_value :
    (acc : ℕ) (s t : Bytes)
    → All IsDigit s
    → starts_with_digit 10 t ≡ false
    → read_digits 10 acc (s ++ t) ≡ (decimal_value acc s, t)
unfolding read_digits starts_with_digit
read_digits-decimal_value acc [] [] h e = refl
read_digits-decimal_value acc [] (c ∷ t) h e = elim (Option-cases (digit_in 10 c)) [
  | inl f ↦ rw (f, read_digits) refl
  | inr (d, f) ↦ absurd (cc (ap (λ x. elim x as (λ y. Bool) [ none ↦ false | some d ↦ true ]) f, e))
]
read_digits-decimal_value acc (c ∷ s) t (d, h) e =
    rw (digit_in-IsDigit c d, read_digits)
      (read_digits-decimal_value (acc * 10 + (c - b'0')) s t h e)

skip_spaces-IsDigit : (c : ℕ) (s : Bytes) → IsDigit c → skip_spaces (c ∷ s) ≡ c ∷ s
unfolding skip_spaces is_space
skip_spaces-IsDigit c s (l, h) = ground (arith, l, h)

read_sign-IsDigit : (c : ℕ) (s : Bytes) → IsDigit c → read_sign (c ∷ s) ≡ (false, c ∷ s)
unfolding read_sign
read_sign-IsDigit c s (l, h) = ground (arith, l, h)

is_minus-IsDigit : (c : ℕ) (s : Bytes) → IsDigit c → is_minus (c ∷ s) ≡ false
unfolding is_minus
is_minus-IsDigit c s (l, h) = ground (arith, l, h)

is_hexadecimal-IsDigit :
    (c : ℕ) (s t : Bytes)
    → All IsDigit s
    → is_hexadecimal (c ∷ t) ≡ false
    → is_hexadecimal (c ∷ (s ++ t)) ≡ false
unfolding is_hexadecimal
is_hexadecimal-IsDigit c [] t h e = e
is_hexadecimal-IsDigit c (d ∷ s) t ((l, u), h) e = ground (arith, l, u)

skip_prefix-ten : (s : Bytes) → skip_prefix 10 s ≡ s
unfolding skip_prefix
skip_prefix-ten [] = refl
skip_prefix-ten (c ∷ []) = refl
skip_prefix-ten (c ∷ d ∷ s) = refl

starts_with_digit-IsDigit : (c : ℕ) (s : Bytes) → IsDigit c → starts_with_digit 10 (c ∷ s) ≡ true
unfolding starts_with_digit
starts_with_digit-IsDigit c s d = rw (digit_in-IsDigit c d, starts_with_digit) refl

base_of-IsDigit :
    (c : ℕ) (s t : Bytes)
    → All IsDigit s
    → is_hexadecimal (c ∷ t) ≡ false
    → base_of (c ∷ (s ++ t)) ≡ 10
unfolding base_of
base_of-IsDigit c s t h e = rw (is_hexadecimal-IsDigit c s t h e) refl

pub scan_number-decimal_value :
    (c : ℕ) (s t : Bytes)
    → IsDigit c
    → All IsDigit s
    → starts_with_digit 10 t ≡ false
    → scan_number (c ∷ (s ++ t)) 10 ≡ some (false, decimal_value 0 (c ∷ s), t)
unfolding scan_number
scan_number-decimal_value c s t d h e =
    rw
      (
        skip_spaces-IsDigit c (s ++ t) d,
        read_sign-IsDigit c (s ++ t) d,
        skip_prefix-ten (c ∷ (s ++ t)),
        read_digits-decimal_value 0 (c ∷ s) t (d, h) e,
        starts_with_digit-IsDigit c (s ++ t) d,
      )
      refl

-- What `ParseUint` does with a number and the text behind it.
abbrev checked : ℕ → Bool → ℕ → Bytes → Option ℕ
checked max suffixes value rest =
    if ltb value (2 ^ 64)
    then elim (scale value rest suffixes) [
      | none ↦ none
      | some n ↦ if ltb max n then none else some n
    ]
    else none

parse_uint-checked :
    (c : ℕ) (s t : Bytes) (max : ℕ) (suffixes : Bool)
    → IsDigit c
    → All IsDigit s
    → starts_with_digit 10 t ≡ false
    → is_hexadecimal (c ∷ t) ≡ false
    → parse_uint (c ∷ (s ++ t)) max suffixes ≡ checked max suffixes (decimal_value 0 (c ∷ s)) t
unfolding parse_uint parse_unsigned
parse_uint-checked c s t max suffixes d h e f =
    rw (skip_spaces-IsDigit c (s ++ t) d, is_minus-IsDigit c (s ++ t) d)
      (ap found (
        ap (scan_number (c ∷ (s ++ t))) (base_of-IsDigit c s t h f)
        ∙ scan_number-decimal_value c s t d h e))
  where
    found : Option (Bool × ℕ × Bytes) → Option ℕ
    found r = elim r [
      | none ↦ none
      | some (negative, value, rest) ↦
          if ltb value (2 ^ 64)
          then elim (scale (if negative then (2 ^ 64 - value) % 2 ^ 64 else value) rest suffixes) [
            | none ↦ none
            | some n ↦ if ltb max n then none else some n
          ]
          else none
    ]

within :
    (value max : ℕ)
    → max < 2 ^ 64
    → (if ltb value (2 ^ 64) then (if ltb max value then none else some value) else none)
      ≡ (if leb value max then some value else none)
within value max l = ground (arith, l)

-- `ParseUint` of decimal digits returns the number that they spell, or fails where that is beyond
-- the limit, however many digits there are, where the limit is below 2^64.
pub parse_uint-decimal_value :
    (c : ℕ) (s : Bytes) (max : ℕ) (suffixes : Bool)
    → IsDigit c
    → All IsDigit s
    → max < 2 ^ 64
    → parse_uint (c ∷ s) max suffixes
      ≡ (if leb (decimal_value 0 (c ∷ s)) max then some (decimal_value 0 (c ∷ s)) else none)
unfolding scale
parse_uint-decimal_value c s max suffixes d h l =
    ap (λ t. parse_uint (c ∷ t) max suffixes) (sym (append-nil s))
    ∙ parse_uint-checked c s [] max suffixes d h (unfold starts_with_digit in refl)
        (unfold is_hexadecimal in refl)
    ∙ within (decimal_value 0 (c ∷ s)) max l

scaled :
    (value max : ℕ)
    → max < 2 ^ 64
    → (if ltb value (2 ^ 64)
        then elim (if ltb (value * 1024) (2 ^ 64) then some (value * 1024) else none)
            as (λ x. Option ℕ) [ none ↦ none | some n ↦ if ltb max n then none else some n ]
        else none)
      ≡ (if leb (value * 1024) max then some (value * 1024) else none)
scaled value max l = ground (arith, l)

kilo : (c : ℕ) (rest : Bytes) → is_hexadecimal (c ∷ (b'k' ∷ rest)) ≡ false
unfolding is_hexadecimal
kilo c rest = ground arith

-- `ParseByteCount` of decimal digits with a 'k' behind them, and any text behind that, returns 1024
-- times the number that the digits spell, or fails where that is beyond the limit, where the limit is
-- below 2^64.
pub parse_byte_count-decimal_value :
    (c : ℕ) (s rest : Bytes) (max : ℕ)
    → IsDigit c
    → All IsDigit s
    → max < 2 ^ 64
    → parse_byte_count (c ∷ (s ++ (b'k' ∷ rest))) max ≡ (
        if leb (decimal_value 0 (c ∷ s) * 1024) max
        then some (decimal_value 0 (c ∷ s) * 1024)
        else none)
unfolding parse_byte_count scale suffix_of to_lower find_byte
parse_byte_count-decimal_value c s rest max d h l =
    parse_uint-checked c s (b'k' ∷ rest) max true d h
      (unfold starts_with_digit digit_in digit_value in refl) (kilo c rest)
    ∙ scaled (decimal_value 0 (c ∷ s)) max l
