-- ===== src/Prelude/Search.antt =====
-- What the searches for a byte find.
use Prim.Native.Nat.{ℕ, zero, suc}
use mathlib.Core.List.{[], ◌∷◌, ◌++◌}
use mathlib.Core.Option.{none, some}
use mathlib.Core.Path.{◌≡◌}
use native.Mathlib.Omega.{arith}
use cpp_temp_learn.Prelude.Lists.{length, take, drop}
use cpp_temp_learn.Prelude.Text.{Bytes, find_byte}
use cpp_temp_learn.Prelude.Lines.{Lacks}

pub find_byte-none : (b : ℕ) (s : Bytes) → find_byte b s ≡ none → Lacks b s
unfolding find_byte
find_byte-none b [] h = tt
find_byte-none b (c ∷ s) h = ground (arith, find_byte-none b s)

-- The bytes before the first occurrence, and the text behind it.
pub find_byte-some :
    (b : ℕ) (s : Bytes) (i : ℕ)
    → find_byte b s ≡ some i
    → Lacks b (take i s) × (drop i s ≡ b ∷ drop (suc i) s)
unfolding find_byte
find_byte-some b [] i h = cc
find_byte-some b (c ∷ s) zero h = ground (arith)
find_byte-some b (c ∷ s) (suc i) h = ground (arith, find_byte-some b s i)

pub find_byte-append :
    (b : ℕ) (p s : Bytes) → Lacks b p → find_byte b (p ++ (b ∷ s)) ≡ some (length p)
unfolding find_byte
find_byte-append b [] s h = ground arith
find_byte-append b (c ∷ p) s h = ground (arith, find_byte-append b p s h.1)
