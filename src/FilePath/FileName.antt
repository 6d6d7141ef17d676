-- ===== src/FilePath/FileName.antt =====
-- The file name that `analyze` finds, and how it is cut into base name and extension.
use cpp_temp_learn.Prelude.{
  ℕ, zero, suc, find_byte-none, find_byte-some, true, false, List, [], ◌∷◌, ◌++◌, ◌≡◌, refl, arith,
  append-nil, Bytes, All, Lacks, getlines, getlines-Lacks, ◌⊎◌, inl, inr, if◌then◌else◌, none, some,
  Option-cases, take, drop, take-append-drop, equal, equal_iff, Bool-cases, ◌||◌,
}
use cpp_temp_learn.FilePath.{
  FilePath, slash, fix_parts, starts_at_root, last_part, locate, is_root, analyze, analyze_fresh,
  split_name, find_dot,
}
use cpp_temp_learn.FilePath.FullPath.{is_lone_root, analyze-of_fresh}

-- How a name is cut: at its first dot that is not its first byte. "." and ".." are whole.
pub record CutAtDot (name base ext : Bytes) : Type 0 where
  pub spells : base ++ ext ≡ name
  pub ext_dot : (ext ≡ []) ⊎ ((e : Bytes) × (ext ≡ b'.' ∷ e))
  pub base_plain : (base ≡ b'.' ∷ b'.' ∷ []) ⊎ Lacks b'.' (drop 1 base)

cut_none : (name : Bytes) → find_dot name ≡ none → CutAtDot name name []
unfolding find_dot
cut_none [] h = record { spells = refl; ext_dot = inl refl; base_plain = inr tt }
cut_none (c ∷ s) h = record {
  spells = append-nil (c ∷ s);
  ext_dot = inl refl;
  base_plain = inr (find_byte-none b'.' s (ground arith));
}

cut_some :
    (name : Bytes) (pos : ℕ)
    → find_dot name ≡ some pos
    → CutAtDot name (take pos name) (drop pos name)
unfolding find_dot
cut_some [] pos h = cc
cut_some (c ∷ s) zero h = absurd (ground arith)
cut_some (c ∷ s) (suc i) h =
    let found = find_byte-some b'.' s i (ground arith) in
    record {
      spells = take-append-drop (suc i) (c ∷ s);
      ext_dot = inr (drop (suc i) s, found.1);
      base_plain = inr found.0;
    }

pub split_name-CutAtDot : (name : Bytes) → CutAtDot name (split_name name).0 (split_name name).1
unfolding split_name
split_name-CutAtDot name =
    elim (Bool-cases (equal name (b'.' ∷ []) || equal name (b'.' ∷ b'.' ∷ []))) [
      | inl e ↦ rw e (record {
        spells = append-nil name;
        ext_dot = inl refl;
        base_plain = ground (arith, equal_iff name (b'.' ∷ []), equal_iff name (b'.' ∷ b'.' ∷ []));
      })
      | inr e ↦ rw e (elim (Option-cases (find_dot name)) [
        | inl n ↦ rw n (cut_none name n)
        | inr (pos, n) ↦ rw n (cut_some name pos n)
      ])
    ]

last_part-Lacks :
    (q : Bytes) (ps : List Bytes)
    → All (Lacks slash) (q ∷ ps)
    → Lacks slash (last_part (fix_parts false (q ∷ ps)))
unfolding last_part fix_parts
last_part-Lacks q [] h = h.0
last_part-Lacks q (r ∷ []) h = h.1.0
last_part-Lacks q (r ∷ s ∷ ps) h = last_part-Lacks r (s ∷ ps) h.1

-- The parts of a path that is not one root: they spell the full path, and the name is one sub-path.
pub record Pieces (q : FilePath) (parts : List Bytes) : Type 0 where
  pub full :
      q.full_path ≡ (if is_lone_root parts then q.filename else q.directory_path ++ q.filename)
  pub name_plain : (is_lone_root parts ≡ true) ⊎ Lacks slash q.filename
  pub name_cut : CutAtDot q.filename q.basename q.extension

locate-full :
    (parts : List Bytes)
    → (locate (fix_parts true parts) (starts_at_root parts)).1 ≡ (
        if is_lone_root parts
        then last_part (fix_parts true parts)
        else (locate (fix_parts true parts) (starts_at_root parts)).0
          ++ last_part (fix_parts true parts))
unfolding locate fix_parts starts_at_root last_part
locate-full [] = refl
locate-full (p ∷ []) = ground arith
locate-full (p ∷ q ∷ []) = refl
locate-full (p ∷ q ∷ r ∷ ps) = refl

name-Lacks :
    (parts : List Bytes)
    → All (Lacks slash) parts
    → (is_lone_root parts ≡ true) ⊎ Lacks slash (last_part (fix_parts true parts))
unfolding last_part fix_parts
name-Lacks [] h = inr tt
name-Lacks (p ∷ []) h = elim (Bool-cases (is_root p)) [ inl e ↦ inl e | inr e ↦ inr (rw e h.0) ]
name-Lacks (p ∷ q ∷ []) h = inr h.1.0
name-Lacks (p ∷ q ∷ r ∷ ps) h = inr (last_part-Lacks q (r ∷ ps) h.1)

pub analyze-Pieces : (p : FilePath) → p.details ≡ false → Pieces (analyze p) (getlines slash p.path)
unfolding analyze_fresh
analyze-Pieces p h =
    let parts = getlines slash p.path in
    rw (analyze-of_fresh p h) (record {
      full = locate-full parts;
      name_plain = name-Lacks parts (getlines-Lacks slash p.path);
      name_cut = split_name-CutAtDot (last_part (fix_parts true parts));
    })
