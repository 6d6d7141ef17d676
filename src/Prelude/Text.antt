-- ===== src/Prelude/Text.antt =====
-- `std::string` and C strings as lists of byte values.
use Prim.Native.Nat.{ℕ, zero, suc, ◌/◌, ◌%◌, ◌-◌, ◌+◌, ◌^◌}
use Prim.Native.Char.{code}
use Prim.Native.String.{String}
use mathlib.Core.Bool.{Bool, true, false, ◌&&◌, ◌||◌}
use mathlib.Core.List.{List, [], ◌∷◌}
use mathlib.Core.Option
use mathlib.Core.Option.{Option, none, some}
use mathlib.Core.Logic.{◌↔◌}
use mathlib.Core.Path.{◌≡◌}
use native.Mathlib.Omega.{arith}
use cpp_temp_learn.Prelude.Tests.{ltb, leb, ◌==◌, if◌then◌else◌}

abbrev pub Bytes : Type 0
Bytes = List ℕ

-- The bytes of a literal that is ASCII.
abbrev pub codes : String → Bytes
codes String.[] = []
codes (String.◌∷◌ c s) = code c ∷ codes s

-- `size_t` is 64 bits wide.
abbrev pub size_mod : ℕ
size_mod = 2 ^ 64

-- `std::string::npos`
abbrev pub npos : ℕ
npos = 2 ^ 64 - 1

-- `empty()`
abbrev pub is_empty : Bytes → Bool
is_empty [] = true
is_empty (c ∷ s) = false

-- `operator==` on strings
unfoldable pub equal : Bytes → Bytes → Bool
equal [] t = is_empty t
equal (c ∷ s) [] = false
equal (c ∷ s) (d ∷ t) = c == d && equal s t

pub equal_iff : (s t : Bytes) → (equal s t ≡ true) ↔ (s ≡ t)
unfolding equal
equal_iff [] [] = ground arith
equal_iff [] (d ∷ t) = ground arith
equal_iff (c ∷ s) [] = ground arith
equal_iff (c ∷ s) (d ∷ t) = let below = equal_iff s t in ground arith

-- `isspace` in the C locale
unfoldable pub is_space : ℕ → Bool
is_space c = (leb 9 c && leb c 13) || c == 32

-- `tolower` in the C locale
unfoldable pub to_lower : ℕ → ℕ
to_lower c = if leb b'A' c && leb c b'Z' then c + 32 else c

-- `find_first_of(c)`: the first position of a byte, if there is one
unfoldable pub find_byte : ℕ → Bytes → Option ℕ
find_byte b [] = none
find_byte b (c ∷ s) = if c == b then some 0 else Option.map suc (find_byte b s)

-- `find_last_of(c)` and `rfind(c)`
unfoldable pub find_last_byte : ℕ → Bytes → Option ℕ
find_last_byte b [] = none
find_last_byte b (c ∷ s) = elim (find_last_byte b s) [
  | some i ↦ some (suc i)
  | none ↦ if c == b then some 0 else none
]

-- A position as the `size_t` that the library returns.
abbrev pub position : Option ℕ → ℕ
position none = npos
position (some i) = i

-- The text that a buffer holds as a C string.
unfoldable pub c_text : Bytes → Bytes
c_text [] = []
c_text (c ∷ s) = let rest = c_text s in if c == 0 then [] else c ∷ rest

-- `std::to_string` of a number, and `%d` of it; the fuel is more than it has digits.
unfoldable pub digits : ℕ → ℕ → Bytes → Bytes
digits zero n acc = acc
digits (suc fuel) n acc =
    let rest = digits fuel (n / 10) ((b'0' + n % 10) ∷ acc) in
    if ltb n 10 then (b'0' + n) ∷ acc else rest

unfoldable pub decimal : ℕ → Bytes
unfolding digits
decimal n = digits (suc n) n []
