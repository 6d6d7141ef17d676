-- ===== src/Numbers.antt =====
-- libsrc/libcpputils/cpputils-base/parseint.h: numbers in texts.
--
-- A text holds no NUL byte. `strtoull` is that of ISO C with 64 bits.
pub mod Decimals
use cpp_temp_learn.Prelude.{
  ℕ, zero, suc, ◌+◌, ◌-◌, ◌*◌, ◌%◌, ◌^◌, Bool, true, false, not, ◌&&◌, ◌||◌, ◌==◌, [], ◌∷◌, Option,
  none, some, Bytes, is_empty, codes, ltb, leb, is_space, to_lower, find_byte, if◌then◌else◌,
}
use cpp_temp_learn.FsObject.{ℤ, pos, negsuc}

-- A digit's value, also beyond the base.
unfoldable pub digit_value : ℕ → Option ℕ
unfolding to_lower
digit_value c =
    let l = to_lower c in
    if leb b'0' c && leb c b'9'
    then some (c - b'0')
    else if leb b'a' l && leb l b'z'
    then some (l - b'a' + 10)
    else none

unfoldable pub digit_in : ℕ → ℕ → Option ℕ
unfolding digit_value
digit_in base c = elim (digit_value c) [
  | none ↦ none
  | some d ↦ if ltb d base then some d else none
]

-- The value of the digits in front, on top of a value, and what stands behind them.
unfoldable pub read_digits : ℕ → ℕ → Bytes → ℕ × Bytes
unfolding digit_in
read_digits base acc [] = (acc, [])
read_digits base acc (c ∷ s) = elim (digit_in base c) [
  | none ↦ (acc, c ∷ s)
  | some d ↦ read_digits base (acc * base + d) s
]

unfoldable pub skip_spaces : Bytes → Bytes
unfolding is_space
skip_spaces [] = []
skip_spaces (c ∷ s) = if is_space c then skip_spaces s else c ∷ s

-- A sign in front: whether it is '-', and what stands behind it.
unfoldable pub read_sign : Bytes → Bool × Bytes
read_sign [] = (false, [])
read_sign (c ∷ s) =
    if c == b'-' then (true, s) else if c == b'+' then (false, s) else (false, c ∷ s)

unfoldable pub starts_with_digit : ℕ → Bytes → Bool
unfolding digit_in
starts_with_digit base [] = false
starts_with_digit base (c ∷ s) = elim (digit_in base c) [ none ↦ false | some d ↦ true ]

-- '0x' or '0X' in front
unfoldable pub is_hexadecimal : Bytes → Bool
is_hexadecimal [] = false
is_hexadecimal (c ∷ []) = false
is_hexadecimal (c ∷ d ∷ s) = c == b'0' && (d == b'x' || d == b'X')

-- '0x' is a prefix only with a digit behind it.
unfoldable pub skip_prefix : ℕ → Bytes → Bytes
unfolding is_hexadecimal starts_with_digit
skip_prefix base [] = []
skip_prefix base (c ∷ []) = c ∷ []
skip_prefix base (c ∷ d ∷ s) =
    if base == 16 && is_hexadecimal (c ∷ d ∷ s) && starts_with_digit 16 s then s else c ∷ d ∷ s

-- What `strtoull` and `strtoll` find: a sign, the digits' value without bounds, and the rest; `none`
-- where there is no digit.
unfoldable pub scan_number : Bytes → ℕ → Option (Bool × ℕ × Bytes)
unfolding skip_spaces read_sign skip_prefix starts_with_digit read_digits
scan_number s base =
    let (negative, t) = read_sign (skip_spaces s) in
    let u = skip_prefix base t in
    let (value, rest) = read_digits base 0 u in
    if starts_with_digit base u then some (negative, value, rest) else none

unfoldable pub suffix_of : ℕ → Option ℕ
unfolding to_lower find_byte
suffix_of c = find_byte (to_lower c) (codes "bkmgtpe")

-- `ParseUint` behind `strtoull`: the suffix, and the limit
unfoldable pub scale : ℕ → Bytes → Bool → Option ℕ
unfolding suffix_of
scale value [] suffixes = some value
scale value (c ∷ rest) suffixes = elim (suffix_of c) [
  | none ↦ none
  | some i ↦
      if not suffixes
      then none
      else if ltb (value * 2 ^ (10 * i)) (2 ^ 64)
      then some (value * 2 ^ (10 * i))
      else none
]

unfoldable pub base_of : Bytes → ℕ
unfolding is_hexadecimal
base_of s = if is_hexadecimal s then 16 else 10

-- `ParseUint` of a text whose spaces are skipped; `none` is false.
unfoldable pub parse_unsigned : Bytes → ℕ → Bool → Option ℕ
unfolding base_of scan_number scale
parse_unsigned s max suffixes = elim (scan_number s (base_of s)) [
  | none ↦ none
  | some (negative, value, rest) ↦
      if ltb value (2 ^ 64)
      then elim (scale (if negative then (2 ^ 64 - value) % 2 ^ 64 else value) rest suffixes) [
        | none ↦ none
        | some n ↦ if ltb max n then none else some n
      ]
      else none
]

unfoldable pub is_minus : Bytes → Bool
is_minus [] = false
is_minus (c ∷ s) = c == b'-'

unfoldable pub parse_uint : Bytes → ℕ → Bool → Option ℕ
unfolding parse_unsigned is_minus skip_spaces
parse_uint s max suffixes =
    let t = skip_spaces s in if is_minus t then none else parse_unsigned t max suffixes

unfoldable pub parse_byte_count : Bytes → ℕ → Option ℕ
unfolding parse_uint
parse_byte_count s max = parse_uint s max true

unfoldable pub less : ℤ → ℤ → Bool
less (pos m) (pos n) = ltb m n
less (pos m) (negsuc n) = false
less (negsuc m) (pos n) = true
less (negsuc m) (negsuc n) = ltb n m

-- The number with a sign, where 64 bits hold it.
unfoldable pub signed : Bool → ℕ → Option ℤ
signed false value = if ltb value (2 ^ 63) then some (pos value) else none
signed true zero = some (pos 0)
signed true (suc n) = if ltb n (2 ^ 63) then some (negsuc n) else none

-- `ParseInt`; `none` is false.
unfoldable pub parse_int : Bytes → ℤ → ℤ → Option ℤ
unfolding skip_spaces base_of scan_number signed less
parse_int s min max =
    let t = skip_spaces s in
    elim (scan_number t (base_of t)) [
      | none ↦ none
      | some (negative, value, rest) ↦ elim (signed negative value) [
        | none ↦ none
        | some n ↦
            if not (is_empty rest) then none else if less n min || less max n then none else some n
      ]
    ]
