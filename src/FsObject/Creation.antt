-- ===== src/FsObject/Creation.antt =====
-- `create` ends, and makes what it says.
use cpp_temp_learn.Prelude.{
  ℕ, zero, suc, ◌+◌, ◌≤◌, Bool, true, false, not, ◌&&◌, Option, none, some, ◌≡◌, refl, sym, ap, ◌∙◌,
  ◌⊎◌, inl, inr, arith, length, ◌==◌, ==_iff, Bool-cases, Option-cases, subst,
}
use cpp_temp_learn.FilePath.{analyze}
use cpp_temp_learn.FilePath.Coherence.{Made, set}
use cpp_temp_learn.FileSystem.{directory, regular_file, type_of, Stat, Holds, Os}
use cpp_temp_learn.FsObject.{FsObject, analyzed, renamed, set_object_path, get_stat}
use cpp_temp_learn.FsObject.Making.{make_path, create, create_missing, matches}
use cpp_temp_learn.FsObject.Existence.{
  Same, Same-trans, Same-analyzed, Same-full_path, get_stat-Same, get_stat-full_path,
}
use cpp_temp_learn.FsObject.Parents.{make_path-Same}
use cpp_temp_learn.FsObject.Renaming.{renamed-analyze}

renamed-Made : (o : FsObject) → Made (renamed o).as_path
unfolding renamed set_object_path
renamed-Made o = set (analyze o.as_path) _

renamed-object_type : (o : FsObject) → (renamed o).object_type ≡ o.object_type
unfolding renamed set_object_path analyzed
renamed-object_type o = refl

-- `create` looks for neither a regular file nor a directory.
abbrev pub is_other : ℕ → Bool
is_other t = not (t == regular_file) && not (t == directory)

module _ (os : Os) where
  open os use {World, stat, stat_long, mkdir, mkdir_makes, create_file, create_makes}

  matches-object_type : (t : ℕ) (s : Stat) → matches os t s ≡ true → type_of s.mode ≡ t
  unfolding matches
  matches-object_type t s h = ground arith

  -- Success, and then an object of the type at the path that the object has in the end.
  abbrev pub Created : ℕ → World × FsObject × Bool → Type 0
  Created t r = (r.2 ≡ false) ⊎ Holds (stat r.0 (analyze r.1.as_path).full_path) t

  module _ (mode : ℕ) (w : World) (o : FsObject) where
    abbrev pub made : World × FsObject × Bool
    made = make_path os 0x1ff w o

    abbrev pub seen : FsObject × Option Stat
    seen = get_stat os made.0 false made.1

    no_type :
        (n : ℕ)
        → is_other made.1.object_type ≡ true
        → create os (suc n) mode w o ≡ some (made.0, analyzed made.1, false)
    unfolding create
    no_type n e = rw (e, create) refl

    missing :
        (n : ℕ)
        → is_other made.1.object_type ≡ false
        → seen.1 ≡ none
        → create os (suc n) mode w o ≡ some (create_missing os mode made.0 seen.0)
    unfolding create
    missing n e f = rw (e, f, create) refl

    pub matched :
        (n : ℕ) (s : Stat)
        → is_other made.1.object_type ≡ false
        → seen.1 ≡ some s
        → matches os seen.0.object_type s ≡ true
        → create os (suc n) mode w o ≡ some (made.0, seen.0, true)
    unfolding create
    matched n s e f g = rw (e, f, g, create) refl

    next :
        (n : ℕ) (s : Stat)
        → is_other made.1.object_type ≡ false
        → seen.1 ≡ some s
        → matches os seen.0.object_type s ≡ false
        → create os (suc n) mode w o ≡ create os n mode made.0 (renamed seen.0)
    unfolding create
    next n s e f g = rw (e, f, g, create) refl

  -- What `mkdir` or `open` made, where nothing stood at the path.
  create_missing-Created :
      (mode : ℕ) (w : World) (o : FsObject)
      → Made o.as_path
      → is_other o.object_type ≡ false
      → stat w (analyze o.as_path).full_path ≡ none
      → Created o.object_type (create_missing os mode w o)
  unfolding create_missing analyzed
  create_missing-Created mode w o m e nothing =
      let full = Same-full_path {o = o} m (Same-analyzed m) in
      let at = (analyze o.as_path).full_path in
      elim (Bool-cases (o.object_type == directory)) [
        | inl d ↦ elim (Bool-cases (mkdir w at mode).1) [
          | inr f ↦ inl (rw d f)
          | inl t ↦ inr (
              rw (d, full, (==_iff _ _).0 d)
                (mkdir_makes w (mkdir w at mode).0 at mode (ap (λ b. ((mkdir w at mode).0, b)) t)))
        ]
        | inr d ↦ elim (Bool-cases (create_file w at mode).1) [
          | inr f ↦ inl (rw d f)
          | inl t ↦
              let r : o.object_type ≡ regular_file = ground (arith, e, d) in
              inr (
                rw (d, full, r)
                  (create_makes w (create_file w at mode).0 at mode nothing
                    (ap (λ b. ((create_file w at mode).0, b)) t)))
        ]
      ]

  -- `create` with that much fuel returns a result, and that is as `Created` says.
  abbrev Ends : ℕ → ℕ → World → FsObject → Type 0
  Ends fuel mode w o =
      (r : World × FsObject × Bool) × (create os fuel mode w o ≡ some r) × Created o.object_type r

  seen-Same : (mode : ℕ) (w : World) (o : FsObject) → Made o.as_path → Same o (seen mode w o).0
  seen-Same mode w o m =
      let first = make_path-Same os 0x1ff w o m in
      Same-trans first (get_stat-Same os (made mode w o).0 (made mode w o).1 first.made)

  seen-full_path :
      (mode : ℕ) (w : World) (o : FsObject)
      → Made o.as_path
      → (seen mode w o).1 ≡ stat (made mode w o).0 (analyze o.as_path).full_path
  seen-full_path mode w o m =
      let first = make_path-Same os 0x1ff w o m in
      get_stat-full_path os (made mode w o).0 (made mode w o).1 first.made
      ∙ ap (stat (made mode w o).0) (Same-full_path {o = o} m first)

  Ends-missing :
      (n mode : ℕ) (w : World) (o : FsObject)
      → Made o.as_path
      → is_other (made mode w o).1.object_type ≡ false
      → (seen mode w o).1 ≡ none
      → Ends (suc n) mode w o
  Ends-missing n mode w o m e f =
      let same = seen-Same mode w o m in
      let nothing =
        ap (stat (made mode w o).0) (Same-full_path {o = o} m same)
        ∙ sym (seen-full_path mode w o m)
        ∙ f in
      let other : is_other (seen mode w o).0.object_type ≡ false =
        ap is_other (same.asked ∙ sym (make_path-Same os 0x1ff w o m).asked) ∙ e in
      (
        create_missing os mode (made mode w o).0 (seen mode w o).0,
        missing mode w o n e f,
        subst (λ t. Created t (create_missing os mode (made mode w o).0 (seen mode w o).0))
            same.asked
            (create_missing-Created mode (made mode w o).0 (seen mode w o).0 same.made other
              nothing),
      )

  Ends-matched :
      (n mode : ℕ) (w : World) (o : FsObject) (s : Stat)
      → Made o.as_path
      → is_other (made mode w o).1.object_type ≡ false
      → (seen mode w o).1 ≡ some s
      → matches os (seen mode w o).0.object_type s ≡ true
      → Ends (suc n) mode w o
  Ends-matched n mode w o s m e f g =
      let same = seen-Same mode w o m in
      (
        ((made mode w o).0, (seen mode w o).0, true),
        matched mode w o n s e f g,
        inr (
          s,
          ap (stat (made mode w o).0) (Same-full_path {o = o} m same)
              ∙ sym (seen-full_path mode w o m)
              ∙ f,
          matches-object_type _ s g ∙ same.asked,
        ),
      )

  Ends-step :
      (n mode : ℕ) (w : World) (o : FsObject)
      → Made o.as_path
      → ((s : Stat)
          → is_other (made mode w o).1.object_type ≡ false
          → (seen mode w o).1 ≡ some s
          → matches os (seen mode w o).0.object_type s ≡ false
          → Ends (suc n) mode w o)
      → Ends (suc n) mode w o
  Ends-step n mode w o m again = elim (Bool-cases (is_other (made mode w o).1.object_type)) [
    | inl e ↦
        (((made mode w o).0, analyzed (made mode w o).1, false), no_type mode w o n e, inl refl)
    | inr e ↦ elim (Option-cases (seen mode w o).1) [
      | inl f ↦ Ends-missing n mode w o m e f
      | inr (s, f) ↦ elim (Bool-cases (matches os (seen mode w o).0.object_type s)) [
        | inl g ↦ Ends-matched n mode w o s m e f g
        | inr g ↦ again s e f g
      ]
    ]
  ]

  -- The object that is tried next has the same type and a longer path.
  next-asked :
      (mode : ℕ) (w : World) (o : FsObject)
      → Made o.as_path
      → (renamed (seen mode w o).0).object_type ≡ o.object_type
  next-asked mode w o m = renamed-object_type (seen mode w o).0 ∙ (seen-Same mode w o m).asked

  next-longer :
      (mode : ℕ) (w : World) (o : FsObject)
      → Made o.as_path
      → length (analyze o.as_path).full_path + 1
        ≤ length (analyze (renamed (seen mode w o).0).as_path).full_path
  next-longer mode w o m =
      let same = seen-Same mode w o m in
      subst (λ t. length t + 1 ≤ length (analyze (renamed (seen mode w o).0).as_path).full_path)
        (Same-full_path {o = o} m same) (renamed-analyze (seen mode w o).0 same.made)

  create_from :
      (n mode : ℕ) (w : World) (o : FsObject)
      → Made o.as_path
      → 4096 ≤ n + length (analyze o.as_path).full_path
      → Ends (suc n) mode w o
  create_from zero mode w o m enough = Ends-step zero mode w o m (λ s e f g. absurd (
      cc (
        f,
        seen-full_path mode w o m,
        stat_long (made mode w o).0 (analyze o.as_path).full_path (omega (arith, enough)),
      )))
  create_from (suc k) mode w o m enough = Ends-step (suc k) mode w o m (λ s e f g.
      let (r, eq, c) =
        create_from k mode (made mode w o).0 (renamed (seen mode w o).0)
          (renamed-Made (seen mode w o).0) (omega (arith, enough, next-longer mode w o m)) in
      (r, next mode w o (suc k) s e f g ∙ eq, subst (λ t. Created t r) (next-asked mode w o m) c))

  -- For an object whose path was made by the operations of the class, `create`, which calls itself
  -- with a new name while another kind of object is in its way, comes back within 4097 calls of
  -- itself whatever the state of the file system, since the path grows each time and nothing stands
  -- at a path beyond PATH_MAX; and it reports failure, or an object of the type that was asked for
  -- stands at the path that the object then has.
  pub create-Created :
      (mode : ℕ) (w : World) (o : FsObject)
      → Made o.as_path
      → (r : World × FsObject × Bool) × (create os 4097 mode w o ≡ some r) × Created o.object_type r
  create-Created mode w o m = create_from 4096 mode w o m (omega arith)
