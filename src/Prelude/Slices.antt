-- ===== src/Prelude/Slices.antt =====
-- A block of memory as a list of bytes, read and written by offsets.
use Prim.Native.Nat.{ℕ, zero, suc, ◌+◌, ◌-◌, ◌≤◌}
use mathlib.Core.List.{List, [], ◌∷◌, ◌++◌, append_assoc}
use mathlib.Core.Path.{◌≡◌, refl, sym, ap, ◌∙◌}
use native.Mathlib.Omega.{arith}
use cpp_temp_learn.Prelude.Lists.{
  length, take, drop, length-append, length-take, length-drop, take-append_of_length,
}

suc_add : (i j : ℕ) → suc i + j ≡ suc (i + j)
suc_add i j = omega arith

pieces : (i j k : ℕ) → i ≤ j → j ≤ k → k - i ≡ (j - i) + (k - j)
pieces i j k p q = omega arith

module _ {ℓ} {A : Type ℓ} where
  -- what stands from offset `i` up to offset `j`
  abbrev pub slice : List A → ℕ → ℕ → List A
  slice b i j = take (j - i) (drop i b)

  -- `d` written at offset `i`, as by `memmove` or `read`
  abbrev pub overwrite : List A → ℕ → List A → List A
  overwrite b i d = take i b ++ (d ++ drop (i + length d) b)

  take-nil : (n : ℕ) → take {A = A} n [] ≡ []
  take-nil zero = refl
  take-nil (suc n) = refl

  drop-nil : (n : ℕ) → drop {A = A} n [] ≡ []
  drop-nil zero = refl
  drop-nil (suc n) = refl

  pub take-add : (i j : ℕ) (b : List A) → take (i + j) b ≡ take i b ++ take j (drop i b)
  take-add zero j b = ap (λ (n : ℕ). take n b) (omega arith)
  take-add (suc i) j [] = take-nil (suc i + j) ∙ sym (take-nil j)
  take-add (suc i) j (x ∷ b) =
      ap (λ (n : ℕ). take n (x ∷ b)) (suc_add i j) ∙ ap (◌∷◌ x) (take-add i j b)

  pub drop-drop : (i j : ℕ) (b : List A) → drop j (drop i b) ≡ drop (i + j) b
  drop-drop zero j b = ap (λ (n : ℕ). drop n b) (omega arith)
  drop-drop (suc i) j [] = drop-nil j ∙ sym (drop-nil (suc i + j))
  drop-drop (suc i) j (x ∷ b) = drop-drop i j b ∙ ap (λ (n : ℕ). drop n (x ∷ b)) (sym (suc_add i j))

  pub slice-split :
      (b : List A) (i j k : ℕ) → i ≤ j → j ≤ k → slice b i k ≡ slice b i j ++ slice b j k
  slice-split b i j k p q =
      ap (λ (n : ℕ). take n (drop i b)) (pieces i j k p q)
      ∙ take-add (j - i) (k - j) (drop i b)
      ∙ ap (λ t. take (j - i) (drop i b) ++ take (k - j) t)
          (drop-drop i (j - i) b ∙ ap (λ (n : ℕ). drop n b) (omega arith))

  pub length-slice : (b : List A) (i j : ℕ) → i ≤ j → j ≤ length b → length (slice b i j) ≡ j - i
  length-slice b i j p q = omega (arith, length-take (j - i) (drop i b), length-drop i b)

  pub length-overwrite :
      (b : List A) (i : ℕ) (d : List A)
      → i + length d ≤ length b
      → length (overwrite b i d) ≡ length b
  length-overwrite b i d h = omega (
    arith,
    length-append (take i b) (d ++ drop (i + length d) b),
    length-append d (drop (i + length d) b),
    length-take i b,
    length-drop (i + length d) b,
  )

  -- What was written stands behind what stood before it.
  pub slice-overwrite :
      (b : List A) (i : ℕ) (d : List A)
      → i ≤ length b
      → slice (overwrite b i d) 0 (i + length d) ≡ slice b 0 i ++ d
  slice-overwrite b i d h =
      let t = take i b in
      let rest = drop (i + length d) b in
      ap (λ (n : ℕ). take n (t ++ (d ++ rest))) (omega (arith, length-append t d, length-take i b))
      ∙ ap (take (length (t ++ d))) (sym (append_assoc t d rest))
      ∙ take-append_of_length (t ++ d) rest
      ∙ ap (λ (n : ℕ). take n b ++ d) (omega arith)
