-- ===== src/FsObject/Renaming.antt =====
-- The name that `create` takes next is longer than the one before.
use cpp_temp_learn.Prelude.{
  ℕ, ◌+◌, ◌≤◌, Bool, true, false, [], ◌∷◌, ◌++◌, ◌≡◌, ◌≢◌, refl, sym, ap, ◌∙◌, inl, inr, arith,
  Bytes, length, length-append, without_last, if◌then◌else◌, Bool-cases, ◌==◌, Lacks, All,
  All-append, getlines, subst, List,
}
use cpp_temp_learn.FilePath.{
  FilePath, slash, analyze, analyze_fresh, locate, fix_parts, starts_at_root, unify, set_path,
  default_path, assign,
}
use cpp_temp_learn.FilePath.Content.{length-unify}
use cpp_temp_learn.FilePath.FullPath.{is_lone_root, analyze-of_fresh, full_path-analyze}
use cpp_temp_learn.FilePath.FileName.{Pieces, analyze-Pieces}
use cpp_temp_learn.FilePath.Coherence.{
  Made, default, assigned, set, analyzed, noted, content, Made-content,
}
use cpp_temp_learn.FsObject.{FsObject, renamed, set_object_path}
use cpp_temp_learn.FsObject.Existence.{analyze-path}

abbrev backslash : ℕ
backslash = b'\\'

All-append_right : (P : ℕ → Type 0) (a b : Bytes) → All P (a ++ b) → All P b
All-append_right P [] b h = h
All-append_right P (x ∷ a) b h = All-append_right P a b h.1

-- What `std::replace` leaves.
unify-append : (a b : Bytes) → unify (a ++ b) ≡ unify a ++ unify b
unfolding unify
unify-append [] b = refl
unify-append (c ∷ a) b = ap (λ t. (if c == backslash then slash else c) ∷ t) (unify-append a b)

unify-Lacks-backslash : (s : Bytes) → Lacks backslash (unify s)
unfolding unify
unify-Lacks-backslash [] = tt
unify-Lacks-backslash (c ∷ s) = (ground arith, unify-Lacks-backslash s)

unify-Lacks-slash : (s : Bytes) → Lacks backslash s → Lacks slash s → Lacks slash (unify s)
unfolding unify
unify-Lacks-slash [] h k = tt
unify-Lacks-slash (c ∷ s) h k = (ground (arith, h.0, k.0), unify-Lacks-slash s h.1 k.1)

Made-Lacks : {p : FilePath} → Made p → Lacks backslash p.path
unfolding default_path assign set_path
Made-Lacks (default b) = tt
Made-Lacks (assigned m) = Made-Lacks m
Made-Lacks (set p s) = unify-Lacks-backslash s
Made-Lacks (analyzed {p} m) = subst (Lacks backslash) (sym (analyze-path p)) (Made-Lacks m)
Made-Lacks (noted b m) = Made-Lacks m

-- What one '/' less leaves of a text.
without_last-All : (P : ℕ → Type 0) (s : Bytes) → All P s → All P (without_last slash s)
without_last-All P [] h = tt
without_last-All P (c ∷ []) h = elim (Bool-cases (c == slash)) [ inl e ↦ rw e tt | inr e ↦ rw e h ]
without_last-All P (c ∷ d ∷ s) h = (h.0, without_last-All P (d ∷ s) h.1)

length-without_last : (s : Bytes) → length s ≤ length (without_last slash s) + 1
length-without_last [] = omega arith
length-without_last (c ∷ []) = ground arith
length-without_last (c ∷ d ∷ s) = omega (arith, length-without_last (d ∷ s))

without_last-Lacks : (s : Bytes) → Lacks slash s → without_last slash s ≡ s
without_last-Lacks [] h = refl
without_last-Lacks (c ∷ []) h = ground (arith, h.0)
without_last-Lacks (c ∷ d ∷ s) h = ap (λ t. c ∷ t) (without_last-Lacks (d ∷ s) h.1)

without_last-append :
    (a : Bytes) (c : ℕ) (b : Bytes)
    → without_last slash (a ++ (c ∷ b)) ≡ a ++ without_last slash (c ∷ b)
without_last-append [] c b = refl
without_last-append (x ∷ []) c b = refl
without_last-append (x ∷ y ∷ a) c b = ap (λ t. x ∷ t) (without_last-append (y ∷ a) c b)

-- The pieces of a path do not depend on what was done with it.
repack : (q : FilePath) (parts : List Bytes) → Pieces q parts → Pieces (content q) parts
repack q parts h = record { full = h.full; name_plain = h.name_plain; name_cut = h.name_cut }

fresh-unanalyzed :
    (p : FilePath) → content (analyze (record p { details = false })) ≡ content (analyze_fresh p)
fresh-unanalyzed p =
    ap content (analyze-of_fresh (record p { details = false }) refl) ∙ unfold analyze_fresh in refl

Made-Pieces : (p : FilePath) → Made p → Pieces (content (analyze p)) (getlines slash p.path)
Made-Pieces p m =
    subst (λ q. Pieces q (getlines slash p.path)) (fresh-unanalyzed p ∙ sym (Made-content p m))
      (repack _ _ (analyze-Pieces (record p { details = false }) refl))

full_path-Lacks : (p : FilePath) → Made p → Lacks backslash (analyze p).full_path
full_path-Lacks p m =
    subst (Lacks backslash)
      (sym (full_path-analyze (record p { details = false }) refl)
        ∙ ap (λ q. q.full_path) (fresh-unanalyzed p ∙ sym (Made-content p m)))
      (All-append (λ c. c ≢ backslash) _ _
        (without_last-All (λ c. c ≢ backslash) p.path (Made-Lacks m))
        (tail_plain (is_lone_root (getlines slash p.path))))
  where
    tail_plain : (b : Bool) → Lacks backslash (if b then slash ∷ [] else [])
    tail_plain true = (ground arith, tt)
    tail_plain false = tt

-- A root alone is its own directory.
root_shape :
    (parts : List Bytes)
    → is_lone_root parts ≡ true
    → ((locate (fix_parts true parts) (starts_at_root parts)).0
        ≡ (locate (fix_parts true parts) (starts_at_root parts)).1)
      × (1 ≤ length (locate (fix_parts true parts) (starts_at_root parts)).1)
unfolding locate fix_parts starts_at_root
root_shape [] h = absurd cc
root_shape (p ∷ []) h = rw h (refl, omega (arith, length-append p (slash ∷ [])))
root_shape (p ∷ q ∷ ps) h = absurd cc

root_parts :
    (p : FilePath)
    → Made p
    → is_lone_root (getlines slash p.path) ≡ true
    → ((analyze p).directory_path ≡ (analyze p).full_path) × (1 ≤ length (analyze p).full_path)
root_parts p m h =
    let same = sym (Made-content p m) in
    subst (λ q. (q.directory_path ≡ q.full_path) × (1 ≤ length q.full_path)) same
      (unfold analyze_fresh in root_shape (getlines slash p.path) h)

-- The full path of a new text.
new_text :
    (p : FilePath) (t : Bytes)
    → length (without_last slash (unify t)) ≤ length (analyze (set_path p t)).full_path
new_text p t =
    let full : (analyze (set_path p t)).full_path
        ≡ without_last slash (unify t)
          ++ (if is_lone_root (getlines slash (unify t)) then slash ∷ [] else []) =
      unfold set_path in full_path-analyze (set_path p t) refl in
    omega (
      arith,
      ap length full,
      length-append (without_last slash (unify t))
          (if is_lone_root (getlines slash (unify t)) then slash ∷ [] else []),
    )

-- the text that `renamed` sets
abbrev next_text : FilePath → Bytes
next_text a = a.directory_path ++ a.basename ++ (b'#' ∷ a.extension)

length-next_text :
    (a : FilePath)
    → length (next_text a) ≡ length a.directory_path + (length (a.basename ++ a.extension) + 1)
length-next_text a = omega (
  arith,
  length-append (a.directory_path ++ a.basename) (b'#' ∷ a.extension),
  length-append a.directory_path a.basename,
  length-append a.basename a.extension,
)

-- A new text is cut by one byte at most, and by none where its end holds no separator.
cut_once : (p : FilePath) (t : Bytes) → length t ≤ length (analyze (set_path p t)).full_path + 1
cut_once p t = omega (arith, new_text p t, length-without_last (unify t), length-unify t)

cut_nothing :
    (p : FilePath) (a ext : Bytes)
    → Lacks backslash ext
    → Lacks slash ext
    → length (a ++ (b'#' ∷ ext)) ≤ length (analyze (set_path p (a ++ (b'#' ∷ ext)))).full_path
cut_nothing p a ext h k =
    let whole : without_last slash (unify (a ++ (b'#' ∷ ext))) ≡ unify (a ++ (b'#' ∷ ext)) =
      rw (unify-append a (b'#' ∷ ext)) (
        unfold unify in
        (without_last-append (unify a) b'#' (unify ext)
          ∙ ap (λ t. unify a ++ t)
              (without_last-Lacks (b'#' ∷ unify ext) (ground arith, unify-Lacks-slash ext h k)))) in
    omega (arith, new_text p (a ++ (b'#' ∷ ext)), ap length whole, length-unify (a ++ (b'#' ∷ ext)))

longer_root :
    (p q : FilePath)
    → Made p
    → is_lone_root (getlines slash p.path) ≡ true
    → length (analyze p).full_path + 1
      ≤ length (analyze (set_path q (next_text (analyze p)))).full_path
longer_root p q m e =
    let h = Made-Pieces p m in
    let (dir, some_byte) = root_parts p m e in
    let name : (analyze p).full_path ≡ (analyze p).filename = rw e at h.full in
    let spelt : (analyze p).basename ++ (analyze p).extension ≡ (analyze p).filename =
      h.name_cut.spells in
    let once = cut_once q (next_text (analyze p)) in
    let long = length-next_text (analyze p) in
    omega (arith, ap length spelt, ap length name, ap length dir)

longer_name :
    (p q : FilePath)
    → Made p
    → is_lone_root (getlines slash p.path) ≡ false
    → length (analyze p).full_path + 1
      ≤ length (analyze (set_path q (next_text (analyze p)))).full_path
longer_name p q m e =
    let a = analyze p in
    let h = Made-Pieces p m in
    let full : (analyze p).full_path ≡ (analyze p).directory_path ++ (analyze p).filename =
      rw e at h.full in
    let spelt : (analyze p).basename ++ (analyze p).extension ≡ (analyze p).filename =
      h.name_cut.spells in
    let plain : Lacks slash a.filename = elim h.name_plain [
      | inl r ↦ absurd (cc (r, e))
      | inr k ↦ k
    ] in
    let ext_slash =
      All-append_right (λ c. c ≢ slash) a.basename a.extension
        (subst (Lacks slash) (sym spelt) plain) in
    let ext_backslash =
      All-append_right (λ c. c ≢ backslash) a.basename a.extension
        (subst (Lacks backslash) (sym spelt) (
          All-append_right (λ c. c ≢ backslash) a.directory_path a.filename
            (subst (Lacks backslash) full (full_path-Lacks p m)))) in
    let grown : length (next_text (analyze p))
        ≤ length (analyze (set_path q (next_text (analyze p)))).full_path =
      cut_nothing q (a.directory_path ++ a.basename) a.extension ext_backslash ext_slash in
    let long = length-next_text (analyze p) in
    omega (
      arith,
      ap length spelt,
      ap length full,
      length-append (analyze p).directory_path (analyze p).filename,
    )

-- The full path grows with each new name that `create` takes.
pub renamed-analyze :
    (o : FsObject)
    → Made o.as_path
    → length (analyze o.as_path).full_path + 1 ≤ length (analyze (renamed o).as_path).full_path
unfolding renamed set_object_path
renamed-analyze o m = elim (Bool-cases (is_lone_root (getlines slash o.as_path.path))) [
  | inl e ↦ longer_root o.as_path (analyze o.as_path) m e
  | inr e ↦ longer_name o.as_path (analyze o.as_path) m e
]
