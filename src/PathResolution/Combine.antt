-- ===== src/PathResolution/Combine.antt =====
-- `Path::resolve`: where a path leads that was resolved against another.
use cpp_temp_learn.Prelude.{
  Bool, true, false, List, [], ◌∷◌, ◌++◌, ◌≡◌, ◌≢◌, refl, sym, ap, ◌∙◌, inl, inr, arith, Bytes,
  Bool-cases, is_empty, getlines, getlines-append, getlines-Lacks, glue, glue-getlines,
  getlines-ne_nil, without_last, Lacks, All, All-append, ◌||◌, ◌&&◌, if◌then◌else◌, append-nil,
  append_assoc,
}
use cpp_temp_learn.FilePath.{FilePath, slash, is_root, unify, analyze, resolve, starts_at_root}
use cpp_temp_learn.FilePath.FullPath.{is_lone_root}
use cpp_temp_learn.FilePath.Coherence.{Made}
use cpp_temp_learn.FilePath.Stored.{
  Made-Lacks, Made-full_path, Made-absolute, Lacks-unify, without_last-Lacks, resolve-path,
}
use cpp_temp_learn.PathResolution.Walk.{Location, enter, walk, walk_parts, walk_path}

walk-append : (ps qs : List Bytes) (l : Location) → walk (ps ++ qs) l ≡ walk qs (walk ps l)
walk-append [] qs l = refl
walk-append (p ∷ ps) qs l = walk-append ps qs (enter p l)

-- The sub-paths of a text behind another and a '/'.
getlines-glue :
    (p : Bytes) (ps : List Bytes) (t : Bytes)
    → All (Lacks slash) (p ∷ ps)
    → getlines slash (glue slash (p ∷ ps) ++ (slash ∷ t)) ≡ (p ∷ ps) ++ getlines slash t
getlines-glue p [] t h = getlines-append slash p t h.0
getlines-glue p (q ∷ ps) t h =
    ap (getlines slash) (append_assoc p (slash ∷ glue slash (q ∷ ps)) (slash ∷ t))
    ∙ getlines-append slash p _ h.0
    ∙ ap (◌∷◌ p) (getlines-glue q ps t h.1)

walk_parts-append :
    (p : Bytes) (ps qs : List Bytes) (l : Location)
    → walk_parts ((p ∷ ps) ++ qs) l ≡ walk qs (walk_parts (p ∷ ps) l)
walk_parts-append p ps qs l = elim (Bool-cases (is_root p)) [
  | inl e ↦ rw e (walk-append ps qs [])
  | inr e ↦ rw e (walk-append (p ∷ ps) qs l)
]

walk_parts-relative :
    (qs : List Bytes) (l : Location) → starts_at_root qs ≡ false → walk_parts qs l ≡ walk qs l
unfolding starts_at_root
walk_parts-relative [] l h = refl
walk_parts-relative (q ∷ qs) l h = rw h

abbrev root_slash : List Bytes → Bytes
root_slash parts = if is_lone_root parts then slash ∷ [] else []

combined-parts :
    (ps : List Bytes) (t : Bytes) (l : Location)
    → ps ≢ []
    → All (Lacks slash) ps
    → walk_parts (getlines slash ((glue slash ps ++ root_slash ps) ++ (slash ∷ t))) l
      ≡ walk (getlines slash t) (walk_parts ps l)
combined-parts [] t l ne h = absurd (ne refl)
combined-parts (p ∷ []) t l ne h = elim (Bool-cases (is_root p)) [
  | inl e ↦
      rw (e, append_assoc, getlines-append slash p (slash ∷ t) h.0, getlines-append slash [] t tt)
        (rw e)
  | inr e ↦ rw (e, append-nil, getlines-append slash p t h.0) (rw e)
]
combined-parts (p ∷ q ∷ ps) t l ne h =
    ap (λ (u : Bytes). walk_parts (getlines slash (u ++ (slash ∷ t))) l)
      (append-nil (glue slash (p ∷ q ∷ ps)))
    ∙ ap (λ parts. walk_parts parts l) (getlines-glue p (q ∷ ps) t h)
    ∙ walk_parts-append p (q ∷ ps) (getlines slash t) l

-- The text that `resolve` combines leads on from where the first path leads.
walk-combined :
    (s t : Bytes) (l : Location)
    → s ≢ []
    → starts_at_root (getlines slash t) ≡ false
    → walk_path ((without_last slash s ++ root_slash (getlines slash s)) ++ (slash ∷ t)) l
      ≡ walk_path t (walk_path s l)
walk-combined s t l ne rel =
    ap (λ (u : Bytes). walk_path ((u ++ root_slash (getlines slash s)) ++ (slash ∷ t)) l)
      (sym (glue-getlines slash s))
    ∙ combined-parts (getlines slash s) t l (getlines-ne_nil slash s ne) (getlines-Lacks slash s)
    ∙ sym (walk_parts-relative (getlines slash t) (walk_path s l) rel)

abbrev resolve_result : FilePath → FilePath → FilePath
resolve_result p q = (resolve p q).2

walk_parts-root :
    (qs : List Bytes) (l l' : Location)
    → starts_at_root qs ≡ true
    → walk_parts qs l ≡ walk_parts qs l'
unfolding starts_at_root
walk_parts-root [] l l' h = cc h
walk_parts-root (q ∷ qs) l l' h = rw h

walk-nil : (l : Location) → walk_path [] l ≡ l
unfolding getlines
walk-nil l = refl

nil_relative : starts_at_root (getlines slash []) ≡ false
unfolding getlines starts_at_root
nil_relative = refl

-- The combined text holds no '\\', so that `setPath` stores it as it is.
root_slash-Lacks : (parts : List Bytes) → Lacks b'\\' (root_slash parts)
root_slash-Lacks parts = elim (Bool-cases (is_lone_root parts)) [
  | inl e ↦ rw e (omega arith, tt)
  | inr e ↦ rw e tt
]

stored :
    (p q : FilePath)
    → Made p
    → Made q
    → unify ((analyze p).full_path ++ (slash ∷ q.path))
      ≡ (without_last slash p.path ++ root_slash (getlines slash p.path)) ++ (slash ∷ q.path)
stored p q m n =
    let full = Made-full_path p m in
    let plain = without_last-Lacks b'\\' p.path (Made-Lacks m) in
    rw full (
      Lacks-unify _ (
        All-append _ (without_last slash p.path ++ root_slash (getlines slash p.path))
          (slash ∷ q.path)
          (All-append _ (without_last slash p.path) _ plain
            (root_slash-Lacks (getlines slash p.path)))
          (omega arith, Made-Lacks n)))

-- The four ways of `resolve`, over the texts of the two paths.
leads :
    (s t u : Bytes) (absolute : Bool) (l : Location)
    → absolute ≡ starts_at_root (getlines slash t)
    → u ≡ (without_last slash s ++ root_slash (getlines slash s)) ++ (slash ∷ t)
    → walk_path
        (if is_empty t && is_empty s
          then []
          else if absolute || is_empty s
          then t
          else if is_empty t
          then s
          else u)
        l
      ≡ walk_path t (walk_path s l)
leads [] [] u absolute l r e = sym (walk-nil (walk_path [] l))
leads (c ∷ s) [] u absolute l r e = rw (r ∙ nil_relative) (sym (walk-nil (walk_path (c ∷ s) l)))
leads [] (d ∷ t) u true l r e = ap (walk_path (d ∷ t)) (sym (walk-nil l))
leads [] (d ∷ t) u false l r e = ap (walk_path (d ∷ t)) (sym (walk-nil l))
leads (c ∷ s) (d ∷ t) u true l r e =
    walk_parts-root (getlines slash (d ∷ t)) l (walk_path (c ∷ s) l) (sym r)
leads (c ∷ s) (d ∷ t) u false l r e =
    ap (λ v. walk_path v l) e ∙ walk-combined (c ∷ s) (d ∷ t) l (λ q. cc q) (sym r)

-- A path that is resolved against another leads from every directory to where it leads from the
-- place that the other one leads to, whatever was done with the two paths before.
pub walk-resolve :
    (p q : FilePath) (l : Location)
    → Made p
    → Made q
    → walk_path (resolve_result p q).path l ≡ walk_path q.path (walk_path p.path l)
walk-resolve p q l m n =
    ap (λ t. walk_path t l) (resolve-path p q)
    ∙ leads p.path q.path _ (analyze q).absolute l (Made-absolute q n) (stored p q m n)
