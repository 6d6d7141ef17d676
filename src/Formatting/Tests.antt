-- ===== src/Formatting/Tests.antt =====
-- The theorem on formatted texts at a short one.
use cpp_temp_learn.Prelude.{ℕ, [], none, some, ◌≡◌, Bytes, codes}
use cpp_temp_learn.Formatting.{string_append_v, string_printf}
use cpp_temp_learn.Formatting.Appending.{Appended, string_append_v-string_printf}

abbrev no_buffer : ℕ → Bytes
no_buffer n = []

string_append_v-string_printf_example :
    Appended (codes "a") (codes "=1") (string_append_v [] no_buffer (codes "a") (some (codes "=1")))
    × (string_append_v [] no_buffer (codes "a") none ≡ some (codes "a"))
    × Appended [] (codes "=1") (string_printf [] no_buffer (some (codes "=1")))
    × (string_printf [] no_buffer none ≡ some [])
string_append_v-string_printf_example =
    string_append_v-string_printf [] no_buffer (codes "a") (codes "=1")
