-- ===== src/FilePath/FullPath.antt =====
-- What `analyze` makes of the text: the full path and its directory and file name.
use cpp_temp_learn.Prelude.{
  Bool, true, false, List, [], ◌∷◌, ◌++◌, ◌≡◌, refl, sym, ap, ◌∙◌, arith, append_assoc, append-nil,
  Bytes, glue, getlines, glue-getlines, without_last, if◌then◌else◌,
}
use cpp_temp_learn.FilePath.{
  FilePath, slash, fix_parts, starts_at_root, last_part, join_directory, locate, is_root, analyze,
  analyze_fresh,
}

-- The whole path is one sub-path, and that starts an absolute path: "/" or a drive.
abbrev pub is_lone_root : List Bytes → Bool
is_lone_root [] = false
is_lone_root (p ∷ []) = is_root p
is_lone_root (p ∷ q ∷ ps) = false

join_directory-cons :
    (x q : Bytes) (ps : List Bytes)
    → join_directory (x ∷ fix_parts false (q ∷ ps)) ≡ x ++ join_directory (fix_parts false (q ∷ ps))
unfolding join_directory fix_parts
join_directory-cons x q [] = refl
join_directory-cons x q (r ∷ ps) = refl

last_part-cons :
    (x q : Bytes) (ps : List Bytes)
    → last_part (x ∷ fix_parts false (q ∷ ps)) ≡ last_part (fix_parts false (q ∷ ps))
unfolding last_part fix_parts
last_part-cons x q [] = refl
last_part-cons x q (r ∷ ps) = refl

fix_parts-cons :
    (b : Bool) (p q : Bytes) (ps : List Bytes)
    → fix_parts b (p ∷ q ∷ ps) ≡ (p ++ slash ∷ []) ∷ fix_parts false (q ∷ ps)
unfolding fix_parts
fix_parts-cons b p q ps = refl

-- The directory and the last sub-path spell all the sub-paths.
join-last_part :
    (b : Bool) (p q : Bytes) (ps : List Bytes)
    → join_directory (fix_parts b (p ∷ q ∷ ps)) ++ last_part (fix_parts b (p ∷ q ∷ ps))
      ≡ glue slash (p ∷ q ∷ ps)
join-last_part b p q [] =
    rw (fix_parts-cons, join_directory-cons, last_part-cons)
      (unfold join_directory last_part fix_parts in simp (append_assoc, append-nil))
join-last_part b p q (r ∷ ps) =
    rw (fix_parts-cons, join_directory-cons, last_part-cons)
      (append_assoc (p ++ slash ∷ []) _ _
        ∙ append_assoc p (slash ∷ []) _
        ∙ ap (λ t. p ++ (slash ∷ t)) (join-last_part false q r ps))

locate-many :
    (x q : Bytes) (ps : List Bytes) (absolute : Bool)
    → locate (x ∷ fix_parts false (q ∷ ps)) absolute ≡ (
      join_directory (x ∷ fix_parts false (q ∷ ps)),
      join_directory (x ∷ fix_parts false (q ∷ ps)) ++ last_part (x ∷ fix_parts false (q ∷ ps)),
    )
unfolding locate fix_parts
locate-many x q [] absolute = refl
locate-many x q (r ∷ ps) absolute = refl

locate-glue :
    (parts : List Bytes)
    → (locate (fix_parts true parts) (starts_at_root parts)).1
      ≡ glue slash parts ++ (if is_lone_root parts then slash ∷ [] else [])
locate-glue [] = unfold locate fix_parts starts_at_root in refl
locate-glue (p ∷ []) = unfold locate fix_parts starts_at_root in ground (arith, append-nil p)
locate-glue (p ∷ q ∷ ps) =
    rw (fix_parts-cons, locate-many, ← fix_parts-cons true p q ps)
      (join-last_part true p q ps ∙ sym (append-nil _))

pub analyze-of_fresh : (p : FilePath) → p.details ≡ false → analyze p ≡ analyze_fresh p
unfolding analyze
analyze-of_fresh p h = rw h

-- The full path of a path that is not analysed yet is its text without one '/' at the end; a root
-- alone ends with '/'.
pub full_path-analyze :
    (p : FilePath)
    → p.details ≡ false
    → (analyze p).full_path
      ≡ without_last slash p.path
        ++ (if is_lone_root (getlines slash p.path) then slash ∷ [] else [])
unfolding analyze
full_path-analyze p h =
    let parts = getlines slash p.path in
    rw (analyze-of_fresh p h) (locate-glue parts ∙ rw (glue-getlines slash p.path))
