-- ===== src/Prelude/Lines.antt =====
-- `std::getline` in a loop, and how its pieces spell the text.
use Prim.Native.Nat.{ℕ}
use mathlib.Core.Bool.{true, false}
use mathlib.Core.List.{List, [], ◌∷◌, ◌++◌, append-nil, append_assoc, cons-ne-nil, concat-ne-nil}
use mathlib.Core.Logic.{◌≢◌, ◌⊎◌, inl, inr}
use mathlib.Core.Path.{◌≡◌, refl, sym, ap, ◌∙◌}
use native.Mathlib.Omega.{arith}
use cpp_temp_learn.Prelude.Tests.{◌==◌, if◌then◌else◌, Bool-cases, ==_iff}
use cpp_temp_learn.Prelude.Lists.{All, All-append}
use cpp_temp_learn.Prelude.Text.{Bytes, is_empty}

-- `while (std::getline(stream, name, sep))`: what it has read, with the current piece in `cur`. A
-- last piece that is empty is not delivered, since nothing is extracted before the end.
pub getlines_from : ℕ → Bytes → Bytes → List Bytes
getlines_from sep cur [] = if is_empty cur then [] else cur ∷ []
getlines_from sep cur (c ∷ s) = elim (c == sep) [
  | true ↦ cur ∷ getlines_from sep [] s
  | false ↦ getlines_from sep (cur ++ c ∷ []) s
]

unfoldable pub getlines : ℕ → Bytes → List Bytes
unfolding getlines_from
getlines sep s = getlines_from sep [] s

cut_at :
    (sep : ℕ) (cur : Bytes) (c : ℕ) (s : Bytes)
    → (c == sep) ≡ true
    → getlines_from sep cur (c ∷ s) ≡ cur ∷ getlines_from sep [] s
unfolding getlines_from
cut_at sep cur c s e = rw (e, getlines_from)

grow_at :
    (sep : ℕ) (cur : Bytes) (c : ℕ) (s : Bytes)
    → (c == sep) ≡ false
    → getlines_from sep cur (c ∷ s) ≡ getlines_from sep (cur ++ c ∷ []) s
unfolding getlines_from
grow_at sep cur c s e = rw (e, getlines_from)

-- No byte of the text is `b`.
abbrev pub Lacks : ℕ → Bytes → Type 0
Lacks b = All (λ c. c ≢ b)

-- The pieces with a separator between each two.
abbrev pub glue : ℕ → List Bytes → Bytes
glue sep [] = []
glue sep (p ∷ []) = p
glue sep (p ∷ q ∷ ps) = p ++ (sep ∷ glue sep (q ∷ ps))

-- The text without its last byte, if that is a separator.
abbrev pub without_last : ℕ → Bytes → Bytes
without_last sep [] = []
without_last sep (c ∷ []) = if c == sep then [] else c ∷ []
without_last sep (c ∷ d ∷ s) = c ∷ without_last sep (d ∷ s)

glue-cons :
    (sep : ℕ) (p : Bytes) (ps : List Bytes) → ps ≢ [] → glue sep (p ∷ ps) ≡ p ++ (sep ∷ glue sep ps)
glue-cons sep p [] h = absurd (h refl)
glue-cons sep p (q ∷ ps) h = refl

getlines_from-ne_nil :
    (sep : ℕ) (cur : Bytes) (s : Bytes) → (cur ≢ []) ⊎ (s ≢ []) → getlines_from sep cur s ≢ []
unfolding getlines_from
getlines_from-ne_nil sep [] [] h = ground arith
getlines_from-ne_nil sep (x ∷ cur) [] h = ground arith
getlines_from-ne_nil sep cur (c ∷ s) h = elim (Bool-cases (c == sep)) [
  | inl e ↦ rw (cut_at _ _ _ _ e) (cons-ne-nil _ _)
  | inr e ↦
      rw (grow_at _ _ _ _ e)
        (getlines_from-ne_nil sep (cur ++ c ∷ []) s (inl (concat-ne-nil c cur)))
]

-- The pieces spell what was read, but for one separator at the end.
glue-getlines_from :
    (sep : ℕ) (s cur : Bytes) → glue sep (getlines_from sep cur s) ≡ cur ++ without_last sep s
unfolding getlines_from
glue-getlines_from sep [] [] = refl
glue-getlines_from sep [] (x ∷ cur) = sym (append-nil (x ∷ cur))
glue-getlines_from sep (c ∷ []) cur = elim (Bool-cases (c == sep)) [
  | inl e ↦ rw (cut_at _ _ _ _ e) (rw e (sym (append-nil cur)))
  | inr e ↦ rw (grow_at _ _ _ _ e) (glue-getlines_from sep [] (cur ++ c ∷ []) ∙ append-nil _ ∙ rw e)
]
glue-getlines_from sep (c ∷ d ∷ s) cur = elim (Bool-cases (c == sep)) [
  | inl e ↦ rw (cut_at _ _ _ _ e) (
      glue-cons sep cur (getlines_from sep [] (d ∷ s))
        (getlines_from-ne_nil sep [] (d ∷ s) (inr (cons-ne-nil d s)))
      ∙ rw (glue-getlines_from sep (d ∷ s) [], (==_iff c sep).0 e))
  | inr e ↦
      rw (grow_at _ _ _ _ e)
        (glue-getlines_from sep (d ∷ s) (cur ++ c ∷ []) ∙ append_assoc cur (c ∷ []) _)
]

pub glue-getlines : (sep : ℕ) (s : Bytes) → glue sep (getlines sep s) ≡ without_last sep s
unfolding getlines
glue-getlines sep s = glue-getlines_from sep s []

pub getlines-ne_nil : (sep : ℕ) (s : Bytes) → s ≢ [] → getlines sep s ≢ []
unfolding getlines
getlines-ne_nil sep s h = getlines_from-ne_nil sep [] s (inr h)

-- No piece holds the separator.
getlines_from-Lacks :
    (sep : ℕ) (s cur : Bytes) → Lacks sep cur → All (Lacks sep) (getlines_from sep cur s)
unfolding getlines_from
getlines_from-Lacks sep [] [] h = tt
getlines_from-Lacks sep [] (x ∷ cur) h = (h, tt)
getlines_from-Lacks sep (c ∷ s) cur h = elim (Bool-cases (c == sep)) [
  | inl e ↦ rw (cut_at _ _ _ _ e) (h, getlines_from-Lacks sep s [] tt)
  | inr e ↦ rw (grow_at _ _ _ _ e) (
      getlines_from-Lacks sep s (cur ++ c ∷ [])
        (All-append _ cur (c ∷ []) h ((λ q. cc (e, (==_iff c sep).1 q)), tt)))
]

pub getlines-Lacks : (sep : ℕ) (s : Bytes) → All (Lacks sep) (getlines sep s)
unfolding getlines
getlines-Lacks sep s = getlines_from-Lacks sep s [] tt

getlines_from-append :
    (sep : ℕ) (p s cur : Bytes)
    → Lacks sep p
    → getlines_from sep cur (p ++ (sep ∷ s)) ≡ (cur ++ p) ∷ getlines_from sep [] s
unfolding getlines_from
getlines_from-append sep [] s cur h =
    rw (cut_at _ _ _ _ ((==_iff sep sep).1 refl))
      (ap (λ q. q ∷ getlines_from sep [] s) (sym (append-nil cur)))
getlines_from-append sep (c ∷ p) s cur h = elim (Bool-cases (c == sep)) [
  | inl e ↦ absurd (h.0 ((==_iff c sep).0 e))
  | inr e ↦ rw (grow_at _ _ _ _ e) (
      getlines_from-append sep p s (cur ++ c ∷ []) h.1
      ∙ ap (λ q. q ∷ getlines_from sep [] s) (append_assoc cur (c ∷ []) p))
]

-- A piece and the separator behind it are read as one piece.
pub getlines-append :
    (sep : ℕ) (p s : Bytes) → Lacks sep p → getlines sep (p ++ (sep ∷ s)) ≡ p ∷ getlines sep s
unfolding getlines
getlines-append sep p s h = getlines_from-append sep p s [] h

getlines_from-Lacks_self :
    (sep : ℕ) (p cur : Bytes)
    → Lacks sep p
    → cur ++ p ≢ []
    → getlines_from sep cur p ≡ (cur ++ p) ∷ []
unfolding getlines_from
getlines_from-Lacks_self sep [] [] h ne = absurd (ne refl)
getlines_from-Lacks_self sep [] (x ∷ cur) h ne = ap (λ q. q ∷ []) (sym (append-nil (x ∷ cur)))
getlines_from-Lacks_self sep (c ∷ p) cur h ne = elim (Bool-cases (c == sep)) [
  | inl e ↦ absurd (h.0 ((==_iff c sep).0 e))
  | inr e ↦ rw (grow_at _ _ _ _ e) (
      let same = append_assoc cur (c ∷ []) p in
      getlines_from-Lacks_self sep p (cur ++ c ∷ []) h.1 (λ q. ne (sym same ∙ q))
      ∙ ap (λ q. q ∷ []) same)
]

pub getlines-Lacks_self : (sep : ℕ) (p : Bytes) → Lacks sep p → p ≢ [] → getlines sep p ≡ p ∷ []
unfolding getlines
getlines-Lacks_self sep p h ne = getlines_from-Lacks_self sep p [] h ne
