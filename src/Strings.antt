-- ===== src/Strings.antt =====
-- libsrc/libcpputils/strings.cpp and libsrc/libcpputils/cpputils-base/strings.h: `Split`, `Join`,
-- `Trim`, and the tests of prefixes and suffixes.
--
-- A loop over an index is recursion on the rest of the text from that index on.
pub mod Parts
pub mod Trimmed
pub mod Affixes
mod Tests
use cpp_temp_learn.Prelude.{
  ℕ, ◌-◌, Bool, true, false, not, ◌&&◌, ◌||◌, List, [], ◌∷◌, ◌++◌, Option, none, some, Bytes,
  length, take, drop, equal, is_empty, is_space, to_lower, zero, suc, leb, ◌==◌, if◌then◌else◌,
}

-- `delimiters` holds the byte.
unfoldable pub is_delimiter : Bytes → ℕ → Bool
is_delimiter [] c = false
is_delimiter (d ∷ ds) c = c == d || is_delimiter ds c

-- The loop of `Split`, with the bytes from `base` to the byte at hand in `cur`.
unfoldable pub split_from : Bytes → Bytes → Bytes → List Bytes
unfolding is_delimiter
split_from ds cur [] = cur ∷ []
split_from ds cur (c ∷ s) = elim (is_delimiter ds c) [
  | true ↦ cur ∷ split_from ds [] s
  | false ↦ split_from ds (cur ++ c ∷ []) s
]

-- `Split`, which aborts where there is no delimiter
unfoldable pub split : Bytes → Bytes → Option (List Bytes)
unfolding split_from
split s delimiters = if is_empty delimiters then none else some (split_from delimiters [] s)

-- `Join`, with a separator that is one byte
unfoldable pub join : List Bytes → ℕ → Bytes
join [] separator = []
join (p ∷ []) separator = p
join (p ∷ q ∷ ps) separator = p ++ (separator ∷ join (q ∷ ps) separator)

-- The loop of `Trim` that skips initial whitespace.
pub skip_initial : Bytes → Bytes
unfolding is_space
skip_initial [] = []
skip_initial (c ∷ s) = if is_space c then skip_initial s else c ∷ s

-- The loop of `Trim` that skips terminating whitespace.
pub skip_terminating : Bytes → Bytes
unfolding is_space
skip_terminating [] = []
skip_terminating (c ∷ s) =
    let rest = skip_terminating s in if is_space c && is_empty rest then [] else c ∷ rest

unfoldable pub trim : Bytes → Bytes
unfolding skip_initial skip_terminating
trim s = skip_terminating (skip_initial s)

unfoldable pub starts_with : Bytes → Bytes → Bool
unfolding equal
starts_with s prefix = equal (take (length prefix) s) prefix

unfoldable pub ends_with : Bytes → Bytes → Bool
unfolding equal
ends_with s suffix =
    leb (length suffix) (length s) && equal (drop (length s - length suffix) s) suffix

-- the overloads on one byte
unfoldable pub starts_with_byte : Bytes → ℕ → Bool
starts_with_byte [] prefix = false
starts_with_byte (c ∷ s) prefix = c == prefix

unfoldable pub ends_with_byte : Bytes → ℕ → Bool
ends_with_byte [] suffix = false
ends_with_byte (c ∷ []) suffix = c == suffix
ends_with_byte (c ∷ d ∷ s) suffix = ends_with_byte (d ∷ s) suffix

-- `strncasecmp` of two texts up to a count is 0. It ends at a NUL byte in both.
unfoldable pub same_ignoring_case : ℕ → Bytes → Bytes → Bool
unfolding to_lower
same_ignoring_case zero s t = true
same_ignoring_case (suc n) [] t = is_empty t
same_ignoring_case (suc n) (c ∷ s) [] = false
same_ignoring_case (suc n) (c ∷ s) (d ∷ t) =
    to_lower c == to_lower d && (c == 0 || same_ignoring_case n s t)

unfoldable pub starts_with_ignore_case : Bytes → Bytes → Bool
unfolding same_ignoring_case
starts_with_ignore_case s prefix =
    leb (length prefix) (length s) && same_ignoring_case (length prefix) s prefix

unfoldable pub ends_with_ignore_case : Bytes → Bytes → Bool
unfolding same_ignoring_case
ends_with_ignore_case s suffix =
    leb (length suffix) (length s)
    && same_ignoring_case (length suffix) (drop (length s - length suffix) s) suffix

unfoldable pub equals_ignore_case : Bytes → Bytes → Bool
unfolding same_ignoring_case
equals_ignore_case lhs rhs = length lhs == length rhs && same_ignoring_case (length lhs) lhs rhs
