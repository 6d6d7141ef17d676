-- ===== src/FilePath/Stored.antt =====
-- The text that a path stores, and the analysed members of every path that a program can hold.
use cpp_temp_learn.Prelude.{
  ℕ, false, [], ◌∷◌, ◌++◌, ◌≡◌, refl, sym, ap, ◌∙◌, inl, inr, arith, Bytes, Bool-cases, is_empty,
  ◌&&◌, ◌||◌, getlines, without_last, Lacks, if◌then◌else◌, ◌==◌,
}
use cpp_temp_learn.FilePath.{
  FilePath, slash, unify, analyze, analyze_fresh, set_path, default_path, assign, starts_at_root,
  resolve,
}
use cpp_temp_learn.FilePath.FullPath.{full_path-analyze, is_lone_root, analyze-of_fresh}
use cpp_temp_learn.FilePath.Coherence.{Made, default, assigned, set, analyzed, noted, Made-content}

-- The text of a path holds no '\\'.
pub unify-Lacks : (s : Bytes) → Lacks b'\\' (unify s)
unfolding unify
unify-Lacks [] = tt
unify-Lacks (c ∷ s) = (ground arith, unify-Lacks s)

pub Lacks-unify : (s : Bytes) → Lacks b'\\' s → unify s ≡ s
unfolding unify
Lacks-unify [] h = refl
Lacks-unify (c ∷ s) h = ground (arith, Lacks-unify s)

pub analyze-path : (p : FilePath) → (analyze p).path ≡ p.path
unfolding analyze
analyze-path p = elim (Bool-cases p.details) [ inl e ↦ rw (e, analyze) | inr e ↦ rw (e, analyze) ]

pub Made-Lacks : {p : FilePath} → Made p → Lacks b'\\' p.path
unfolding default_path assign set_path
Made-Lacks (default b) = tt
Made-Lacks (assigned m) = Made-Lacks m
Made-Lacks (set p s) = unify-Lacks s
Made-Lacks (analyzed {p} m) = rw (analyze-path p) (Made-Lacks m)
Made-Lacks (noted b m) = Made-Lacks m

pub without_last-Lacks : (b : ℕ) (s : Bytes) → Lacks b s → Lacks b (without_last slash s)
without_last-Lacks b [] h = tt
without_last-Lacks b (c ∷ []) h = elim (Bool-cases (c == slash)) [
  | inl e ↦ rw e tt
  | inr e ↦ rw e h
]
without_last-Lacks b (c ∷ d ∷ s) h = (h.0, without_last-Lacks b (d ∷ s) h.1)

-- The analysed members of such a path are those of its text.
pub Made-full_path :
    (p : FilePath)
    → Made p
    → (analyze p).full_path
      ≡ without_last slash p.path
        ++ (if is_lone_root (getlines slash p.path) then slash ∷ [] else [])
unfolding analyze_fresh
Made-full_path p m =
    let fresh = record p { details = false } in
    ap (λ (q : FilePath). q.full_path) (Made-content p m)
    ∙ sym (ap (λ (q : FilePath). q.full_path) (analyze-of_fresh fresh refl))
    ∙ full_path-analyze fresh refl

pub Made-absolute :
    (p : FilePath) → Made p → (analyze p).absolute ≡ starts_at_root (getlines slash p.path)
unfolding analyze_fresh
Made-absolute p m = ap (λ (q : FilePath). q.absolute) (Made-content p m)

-- The text of what `resolve` returns, by its tests.
pub resolve-path :
    (p q : FilePath)
    → (resolve p q).2.path ≡ (
        if is_empty q.path && is_empty p.path
        then []
        else if (analyze q).absolute || is_empty p.path
        then q.path
        else if is_empty q.path
        then p.path
        else unify ((analyze p).full_path ++ (slash ∷ q.path)))
unfolding resolve
resolve-path p q = ground (arith, analyze-path q)
