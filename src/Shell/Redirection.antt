-- ===== src/Shell/Redirection.antt =====
-- How `updateCommand` cuts a command.
use cpp_temp_learn.Prelude.{
  ℕ, zero, suc, ◌<◌, [], ◌∷◌, ◌++◌, Option, none, some, ◌≡◌, refl, ap, ◌∙◌, ◌⊎◌, inl, inr, arith,
  Bytes, drop, length, find_last_byte, ◌==◌, Lacks, take-append_of_length, lt→ltb, Bool-cases,
}
use cpp_temp_learn.Strings.{trim}
use cpp_temp_learn.Shell.{Shell, redirection, update_command}

find_last_byte-Lacks : (b : ℕ) (s : Bytes) → Lacks b s → find_last_byte b s ≡ none
unfolding find_last_byte
find_last_byte-Lacks b [] h = refl
find_last_byte-Lacks b (c ∷ s) h = rw (find_last_byte-Lacks b s h.1) (ground (arith, h.0))

-- The last occurrence of a byte.
find_last_byte-append :
    (b : ℕ) (a s : Bytes) → Lacks b s → find_last_byte b (a ++ (b ∷ s)) ≡ some (length a)
unfolding find_last_byte
find_last_byte-append b [] s h = rw (find_last_byte-Lacks b s h) (ground arith)
find_last_byte-append b (c ∷ a) s h = rw (find_last_byte-append b a s h) refl

-- A byte that does not occur behind a place occurs in front of it, if at all.
find_last_byte-before :
    (b : ℕ) (a s : Bytes)
    → Lacks b s
    → (find_last_byte b (a ++ s) ≡ none)
      ⊎ ((i : ℕ) × (find_last_byte b (a ++ s) ≡ some i) × (i < length a))
unfolding find_last_byte
find_last_byte-before b [] s h = inl (find_last_byte-Lacks b s h)
find_last_byte-before b (c ∷ a) s h = elim (find_last_byte-before b a s h) [
  | inr (i, e, l) ↦ inr (suc i, rw e refl, omega (arith, l))
  | inl e ↦ elim (Bool-cases (c == b)) [
    | inl k ↦ inr (zero, rw (e, k) refl, omega arith)
    | inr k ↦ inl (rw (e, k) refl)
  ]
]

redirection-here :
    (n : ℕ) (q : Option ℕ)
    → (q ≡ none) ⊎ ((i : ℕ) × (q ≡ some i) × (i < n))
    → redirection (some n) q ≡ some n
unfolding redirection
redirection-here n q (inl e) = rw e refl
redirection-here n q (inr (i, e, l)) = rw (e, lt→ltb i n l) refl

-- A command with a '>' behind which there is neither another '>' nor a '"' is what stands in front
-- of it, and its output goes to what stands behind it, both without whitespace at their ends.
pub update_command-trim :
    (sh : Shell) (a b : Bytes)
    → Lacks b'>' b
    → Lacks b'"' b
    → ((update_command sh (a ++ (b'>' ∷ b))).command ≡ trim a)
      × ((update_command sh (a ++ (b'>' ∷ b))).output_path ≡ trim b)
      × ((update_command sh (a ++ (b'>' ∷ b))).output_lines ≡ [])
unfolding update_command
update_command-trim sh a b h k =
    let s = a ++ (b'>' ∷ b) in
    let cut : redirection (find_last_byte b'>' s) (find_last_byte b'"' s) ≡ some (length a) =
      ap (λ f. redirection f (find_last_byte b'"' s)) (find_last_byte-append b'>' a b h)
      ∙ redirection-here (length a) (find_last_byte b'"' s)
          (find_last_byte-before b'"' a (b'>' ∷ b) (ground arith, k)) in
    rw (cut, update_command)
      (ap trim (take-append_of_length a (b'>' ∷ b)), ap trim (behind a), refl)
  where
    behind : (a : Bytes) → drop (suc (length a)) (a ++ (b'>' ∷ b)) ≡ b
    behind [] = refl
    behind (c ∷ a) = behind a

-- A command with no '>' is kept whole, without whitespace at its ends, and an output path of an
-- earlier command is cleared.
pub update_command-Lacks :
    (sh : Shell) (s : Bytes)
    → Lacks b'>' s
    → ((update_command sh s).command ≡ trim s)
      × ((update_command sh s).output_path ≡ [])
      × ((update_command sh s).output_lines ≡ [])
unfolding update_command redirection
update_command-Lacks sh s h = rw (find_last_byte-Lacks b'>' s h, update_command) (refl, refl, refl)
