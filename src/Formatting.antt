-- ===== src/Formatting.antt =====
-- libsrc/libcpputils/stringprintf.cpp: formatting into a string.
--
-- The format and its arguments are what `vsnprintf` makes of them: a text, or none where it fails. As
-- ISO C has it, the call on a buffer of some bytes stores as much of the text as fits with a NUL byte
-- behind it, and returns the length of the whole text, or less than 0 where that is no `int`; the
-- bytes of the buffer are then left as they are, and else those behind the NUL byte.
--
-- `none` of the functions below is undefined behaviour: `result + 1` is beyond `int` where the text
-- has INT_MAX bytes.
pub mod Appending
mod Tests
use cpp_temp_learn.Prelude.{
  ℕ, suc, ◌-◌, ◌^◌, Bool, true, false, [], ◌∷◌, ◌++◌, Option, none, some, Bytes, length, take,
  overwrite, ltb, leb, if◌then◌else◌,
}

-- `sizeof(space)`
abbrev pub space_size : ℕ
space_size = 1024

-- `INT_MAX`
abbrev pub int_max : ℕ
int_max = 2 ^ 31 - 1

-- `vsnprintf(buf, size, ...)`, for a size that is not 0: the buffer and the result, with none for one
-- below 0
unfoldable pub vsnprintf : Bytes → ℕ → Option Bytes → Bytes × Option ℕ
vsnprintf buf size none = (buf, none)
vsnprintf buf size (some text) =
    if leb (length text) int_max
    then (overwrite buf 0 (take (size - 1) text ++ 0 ∷ []), some (length text))
    else (buf, none)

-- `StringAppendV` from the second call on, on what the new buffer holds by chance
unfoldable pub append_long : Bytes → Bytes → ℕ → Option Bytes → Bytes
unfolding vsnprintf
append_long dst buf size formatted =
    let (buf', result) = vsnprintf buf size formatted in
    elim result [ none ↦ dst | some n ↦ if ltb n size then dst ++ take n buf' else dst ]

-- The same with the size computed as an `int`
unfoldable pub append_sized : Bytes → (ℕ → Bytes) → ℕ → Option Bytes → Option Bytes
unfolding append_long
append_sized dst new_buffer result formatted =
    if ltb result int_max
    then some (append_long dst (new_buffer (suc result)) (suc result) formatted)
    else none

-- `StringAppendV`, on what `space` holds by chance, and the new buffer by its size
unfoldable pub string_append_v : Bytes → (ℕ → Bytes) → Bytes → Option Bytes → Option Bytes
unfolding vsnprintf append_sized
string_append_v space new_buffer dst formatted =
    let (space', result) = vsnprintf space space_size formatted in
    elim result [
      | none ↦ some dst
      | some n ↦
          if ltb n space_size
          then some (dst ++ take n space')
          else append_sized dst new_buffer n formatted
    ]

-- `StringPrintf`
unfoldable pub string_printf : Bytes → (ℕ → Bytes) → Option Bytes → Option Bytes
unfolding string_append_v
string_printf space new_buffer formatted = string_append_v space new_buffer [] formatted

-- `StringAppendF`
unfoldable pub string_append_f : Bytes → (ℕ → Bytes) → Bytes → Option Bytes → Option Bytes
unfolding string_append_v
string_append_f space new_buffer dst formatted = string_append_v space new_buffer dst formatted
