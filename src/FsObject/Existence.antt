-- ===== src/FsObject/Existence.antt =====
-- When `isExist` finds an object, and what the queries leave as it is.
use cpp_temp_learn.Prelude.{
  subst, some_inj, ℕ, Bool, true, false, ◌||◌, [], ◌∷◌, Option, none, some, ◌≡◌, ◌≢◌, refl, sym, ap,
  ◌∙◌, ◌⊎◌, ◌↔◌, inl, inr, arith, Bytes, is_empty, Bool-cases, getlines,
}
use cpp_temp_learn.FilePath.{
  FilePath, analyze, analyze_fresh, full_path, locate, fix_parts, starts_at_root,
}
use cpp_temp_learn.FilePath.Coherence.{Made, analyzed, noted, Made-content, Made-analyze}
use cpp_temp_learn.FileSystem.{directory, regular_file, type_of, Stat, Os}
use cpp_temp_learn.FsObject.{FsObject, get_stat, mismatch, note, check_if_exists, is_exist}

-- An object with the text, the type and the real path of another, and cached members that are made of the text.
pub record Same (o o' : FsObject) : Type 0 where
  pub text : o'.as_path.path ≡ o.as_path.path
  pub asked : o'.object_type ≡ o.object_type
  pub made : Made o'.as_path
  pub real : o'.real_path ≡ o.real_path

pub Same-trans : {o p q : FsObject} → Same o p → Same p q → Same o q
Same-trans h k = record {
  text = k.text ∙ h.text;
  asked = k.asked ∙ h.asked;
  made = k.made;
  real = k.real ∙ h.real;
}

pub Same-self : {o : FsObject} → Made o.as_path → Same o o
Same-self m = record { text = refl; asked = refl; made = m; real = refl }

pub analyze-path : (p : FilePath) → (analyze p).path ≡ p.path
unfolding analyze
analyze-path p = elim (Bool-cases p.details) [ inl e ↦ rw e refl | inr e ↦ rw e refl ]

pub Same-analyzed :
    {o : FsObject} → Made o.as_path → Same o (record o { as_path = analyze o.as_path })
Same-analyzed {o} m = record {
  text = analyze-path o.as_path;
  asked = refl;
  made = analyzed m;
  real = refl;
}

-- The type of what stands at the path is not another one than the type that is asked for.
abbrev pub Suits : ℕ → Stat → Type 0
Suits t s =
    ((t ≢ regular_file) ⊎ (type_of s.mode ≡ regular_file))
    × ((t ≢ directory) ⊎ (type_of s.mode ≡ directory))

pub Same-full_path :
    {o o' : FsObject}
    → Made o.as_path
    → Same o o'
    → (analyze o'.as_path).full_path ≡ (analyze o.as_path).full_path
Same-full_path {o} {o'} m h =
    ap (λ p. p.full_path) (Made-analyze o'.as_path o.as_path h.made m h.text)

fresh-empty :
    (p : FilePath) (s : Bytes)
    → is_empty s ≡ true
    → (analyze_fresh (record p { path = s })).full_path ≡ []
unfolding analyze_fresh getlines locate fix_parts starts_at_root
fresh-empty p [] h = refl
fresh-empty p (c ∷ s) h = absurd cc

-- The full path of the empty text is empty.
pub full_path-empty : (p : FilePath) → Made p → is_empty p.path ≡ true → (analyze p).full_path ≡ []
full_path-empty p m e = ap (λ q. q.full_path) (Made-content p m) ∙ fresh-empty p p.path e

note-Same : (o : FsObject) (found : Option Stat) → Made o.as_path → Same o (note o found)
unfolding note
note-Same o none m = Same-self m
note-Same o (some s) m = record { text = refl; asked = refl; made = noted _ m; real = refl }

pub mismatch-Suits : (t : ℕ) (s : Stat) → (mismatch t s ≡ false) ↔ Suits t s
unfolding mismatch
mismatch-Suits t s = ground arith

analyze-exists : (p : FilePath) → p.exists ≡ false → (analyze p).exists ≡ false
unfolding analyze analyze_fresh
analyze-exists p x = elim (Bool-cases p.details) [ inl e ↦ rw e x | inr e ↦ rw e refl ]

noted_exists :
    (o : FsObject) (found : Option Stat)
    → o.as_path.exists ≡ false
    → ((note (record o { as_path = analyze o.as_path }) found).as_path.exists ≡ true)
      ↔ ((s : Stat) × (found ≡ some s) × Suits o.object_type s)
unfolding note
noted_exists o none x = (λ h. absurd (cc (h, analyze-exists o.as_path x)), λ h. absurd (cc h.1))
noted_exists o (some s) x =
    let (f, g) = mismatch-Suits o.object_type s in
    (
      λ h. (s, refl, f (ground (arith, h))),
      λ h. ground (arith, g (subst (Suits o.object_type) (sym (some_inj h.1)) h.2)),
    )

module _ (os : Os) where
  open os use {World, stat, stat_empty}

  stat_nothing :
      (w : World) (l : Bool) (o : FsObject)
      → is_empty o.as_path.path ≡ true
      → get_stat os w l o ≡ (o, none)
  unfolding get_stat
  stat_nothing w l o e = rw e refl

  pub stat_something :
      (w : World) (o : FsObject)
      → is_empty o.as_path.path ≡ false
      → get_stat os w false o
        ≡ (record o { as_path = analyze o.as_path }, stat w (analyze o.as_path).full_path)
  unfolding get_stat full_path
  stat_something w o e = rw e refl

  -- What `getStat` finds is what stands at the full path.
  pub get_stat-full_path :
      (w : World) (o : FsObject)
      → Made o.as_path
      → (get_stat os w false o).1 ≡ stat w (analyze o.as_path).full_path
  get_stat-full_path w o m = elim (Bool-cases (is_empty o.as_path.path)) [
    | inl e ↦
        ap (λ t. t.1) (stat_nothing w false o e)
        ∙ sym (ap (stat w) (full_path-empty o.as_path m e) ∙ stat_empty w)
    | inr e ↦ ap (λ t. t.1) (stat_something w o e)
  ]

  pub get_stat-Same : (w : World) (o : FsObject) → Made o.as_path → Same o (get_stat os w false o).0
  get_stat-Same w o m = elim (Bool-cases (is_empty o.as_path.path)) [
    | inl e ↦ rw (stat_nothing w false o e) (Same-self m)
    | inr e ↦ rw (stat_something w o e) (Same-analyzed m)
  ]

  pub is_exist-Same : (w : World) (o : FsObject) → Made o.as_path → Same o (is_exist os w o).0
  unfolding is_exist check_if_exists
  is_exist-Same w o m = elim (Bool-cases (o.as_path.exists || is_empty o.as_path.path)) [
    | inl e ↦ rw e (Same-self m)
    | inr e ↦ let seen = get_stat-Same w o m in rw e (Same-trans seen (note-Same _ _ seen.made))
  ]

  pub check_new :
      (w : World) (o : FsObject)
      → (o.as_path.exists || is_empty o.as_path.path) ≡ false
      → check_if_exists os w o ≡ note (get_stat os w false o).0 (get_stat os w false o).1
  unfolding check_if_exists
  check_new w o c = rw (c, check_if_exists) refl

  exist_at :
      (w : World) (o : FsObject)
      → o.as_path.exists ≡ false
      → is_empty o.as_path.path ≡ false
      → (is_exist os w o).1
        ≡ (note
            (record o { as_path = analyze o.as_path })
            (stat w (analyze o.as_path).full_path)).as_path.exists
  unfolding is_exist check_if_exists
  exist_at w o x e =
      let c : (o.as_path.exists || is_empty o.as_path.path) ≡ false = ground (arith, x, e) in
      ap (λ t. t.as_path.exists) (check_new w o c)
      ∙ ap (λ t. (note t.0 t.1).as_path.exists) (stat_something w o e)

  exist_nowhere :
      (w : World) (o : FsObject)
      → o.as_path.exists ≡ false
      → is_empty o.as_path.path ≡ true
      → (is_exist os w o).1 ≡ false
  unfolding is_exist check_if_exists
  exist_nowhere w o x e =
      let c : (o.as_path.exists || is_empty o.as_path.path) ≡ true = ground (arith, x, e) in
      rw (c, is_exist) x

  -- An object whose path was made by the operations of the class and that is not marked as seen
  -- exists exactly if something stands at its full path that is not of another type than the
  -- regular file or the directory that is asked for.
  pub is_exist-Suits :
      (w : World) (o : FsObject)
      → Made o.as_path
      → o.as_path.exists ≡ false
      → ((is_exist os w o).1 ≡ true)
        ↔ ((s : Stat) × (stat w (analyze o.as_path).full_path ≡ some s) × Suits o.object_type s)
  is_exist-Suits w o m x = elim (Bool-cases (is_empty o.as_path.path)) [
    | inl e ↦
        let nothing : stat w (analyze o.as_path).full_path ≡ none =
          ap (stat w) (full_path-empty o.as_path m e) ∙ stat_empty w in
        rw (exist_nowhere w o x e) ((λ h. absurd cc), (λ h. absurd (cc (nothing, h.1))))
    | inr e ↦ rw (exist_at w o x e) (noted_exists o (stat w (analyze o.as_path).full_path) x)
  ]
