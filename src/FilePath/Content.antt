-- ===== src/FilePath/Content.antt =====
-- When a path points to the content of a directory.
use cpp_temp_learn.Prelude.{
  ℕ, suc, ◌+◌, ◌-◌, ◌%◌, ◌<◌, Bool, true, false, ◌||◌, [], ◌∷◌, ◌≡◌, refl, ap, ◌⊎◌, inl, inr, arith,
  Bytes, ◌==◌, if◌then◌else◌, Bool-cases, length, Option, some, none, find_last_byte, position,
  size_mod,
}
use cpp_temp_learn.FilePath.{FilePath, slash, set_path, unify}

-- The text ends with '/' or '\\', or it is empty.
abbrev pub ends_in_separator : Bytes → Bool
ends_in_separator [] = true
ends_in_separator (c ∷ []) = c == slash || c == b'\\'
ends_in_separator (c ∷ d ∷ s) = ends_in_separator (d ∷ s)

abbrev Found : Bool → Option ℕ → ℕ → Type 0
Found true o n = o ≡ some n
Found false o n = (o ≡ none) ⊎ ((i : ℕ) × (o ≡ some i) × (i < n))

Found-suc :
    (b : Bool) (o : Option ℕ) (n : ℕ) (first : Bool)
    → Found b o n
    → Found b (elim o [ some i ↦ some (suc i) | none ↦ if first then some 0 else none ]) (suc n)
Found-suc true o n first h = rw h
Found-suc false none n true h = inr (0, refl, omega arith)
Found-suc false none n false h = inl refl
Found-suc false (some i) n first h = inr (suc i, refl, ground arith)

find_last_byte-Found :
    (c : ℕ) (s : Bytes)
    → Found (ends_in_separator (c ∷ s)) (find_last_byte slash (unify (c ∷ s))) (length s)
unfolding find_last_byte unify
find_last_byte-Found c [] = elim (Bool-cases (c == slash)) [
  | inl e ↦ ground arith
  | inr e ↦ ground arith
]
find_last_byte-Found c (d ∷ s) =
    Found-suc (ends_in_separator (d ∷ s)) (find_last_byte slash (unify (d ∷ s))) (length s) _
      (find_last_byte-Found d s)

pub length-unify : (s : Bytes) → length (unify s) ≡ length s
unfolding unify
length-unify [] = refl
length-unify (c ∷ s) = ap suc (length-unify s)

Found-position :
    (b : Bool) (o : Option ℕ) (n : ℕ)
    → suc n < size_mod
    → Found b o n
    → (position o == (suc n + size_mod - 1) % size_mod) ≡ b
Found-position true o n small h = ground arith
Found-position false o n small h = ground arith

-- A path points to content exactly if its text ends with a separator of either kind, or is empty.
pub set_path-content :
    (p : FilePath) (s : Bytes)
    → length s < size_mod
    → (set_path p s).points_to_content ≡ ends_in_separator s
set_path-content p [] small = unfold set_path in refl
set_path-content p (c ∷ s) small =
    unfold set_path in
    rw (length-unify)
      (Found-position (ends_in_separator (c ∷ s)) _ (length s) small (find_last_byte-Found c s))
