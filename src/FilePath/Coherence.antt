-- ===== src/FilePath/Coherence.antt =====
-- The cached members of a path agree with its text, whatever was done with it.
use cpp_temp_learn.Prelude.{
  Bool, true, false, ◌≡◌, refl, sym, ap, ◌∙◌, ◌⊎◌, inl, inr, Bytes, Bool-cases,
}
use cpp_temp_learn.FilePath.{FilePath, default_path, assign, set_path, analyze, analyze_fresh}
use cpp_temp_learn.FilePath.FullPath.{analyze-of_fresh}

-- The paths that a program can hold: what the constructors, both assignments, `setPath` and the
-- analysis make, also where a file-system object has noted whether the path exists.
pub data Made : FilePath → Type 0 where
  default : (b : Bool) → Made (default_path b)
  assigned : {p : FilePath} → Made p → Made (assign p)
  set : (p : FilePath) (s : Bytes) → Made (set_path p s)
  analyzed : {p : FilePath} → Made p → Made (analyze p)
  noted : {p : FilePath} (b : Bool) → Made p → Made (record p { exists = b })

-- Not analysed, or as the analysis of the text leaves it but for `exists`.
abbrev IsCoherent : FilePath → Type 0
IsCoherent p = (p.details ≡ false) ⊎ (record p { exists = false } ≡ analyze_fresh p)

pub analyze-of_done : (p : FilePath) → p.details ≡ true → analyze p ≡ p
unfolding analyze
analyze-of_done p h = rw (h, analyze)

analyze-IsCoherent : (p : FilePath) → IsCoherent p → IsCoherent (analyze p)
analyze-IsCoherent p h = elim (Bool-cases p.details) [
  | inl e ↦ rw (analyze-of_done p e) h
  | inr e ↦ rw (analyze-of_fresh p e) (inr (unfold analyze_fresh in refl))
]

Made-IsCoherent : {p : FilePath} → Made p → IsCoherent p
unfolding default_path assign set_path analyze_fresh
Made-IsCoherent (default b) = inl refl
Made-IsCoherent (assigned m) = Made-IsCoherent m
Made-IsCoherent (set p s) = inl refl
Made-IsCoherent (analyzed {p} m) = analyze-IsCoherent p (Made-IsCoherent m)
Made-IsCoherent (noted b m) = Made-IsCoherent m

-- The members of a path that stand for its text.
abbrev pub content : FilePath → FilePath
content p = record p { exists = false; points_to_content = false }

analyze-content : (p : FilePath) → IsCoherent p → content (analyze p) ≡ content (analyze_fresh p)
analyze-content p h = elim (Bool-cases p.details) [
  | inl e ↦ rw (analyze-of_done p e) (elim h [ inl f ↦ cc (e, f) | inr g ↦ ap content g ])
  | inr e ↦ rw (analyze-of_fresh p e)
]

fresh-content :
    (p q : FilePath) → p.path ≡ q.path → content (analyze_fresh p) ≡ content (analyze_fresh q)
unfolding analyze_fresh
fresh-content p q h = ap (λ t. content (analyze_fresh (record p { path = t }))) h

pub Made-content : (p : FilePath) → Made p → content (analyze p) ≡ content (analyze_fresh p)
Made-content p m = analyze-content p (Made-IsCoherent m)

-- The analysed members of two paths with the same text agree, whatever was done with each before:
-- no assignment, `setPath` or earlier analysis leaves a stale member behind.
pub Made-analyze :
    (p q : FilePath) → Made p → Made q → p.path ≡ q.path → content (analyze p) ≡ content (analyze q)
Made-analyze p q m n h = Made-content p m ∙ fresh-content p q h ∙ sym (Made-content q n)
