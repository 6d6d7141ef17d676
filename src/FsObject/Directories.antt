-- ===== src/FsObject/Directories.antt =====
-- What `makePath` leaves behind.
use cpp_temp_learn.Prelude.{
  ℕ, true, false, [], ◌∷◌, ◌++◌, none, some, ◌≡◌, refl, ap, ◌∙◌, ◌⊎◌, inl, inr, Bytes, take, drop,
  without_last, ◌==◌, ==_iff, Bool-cases, Option-cases, append_assoc, append-nil,
}
use cpp_temp_learn.FilePath.{slash}
use cpp_temp_learn.FileSystem.{directory, Stat, is_dir, Holds, Os}
use cpp_temp_learn.FsObject.Making.{
  ensure_directory, visit, make_parents, make_all, make_directories,
}

module _ (os : Os) where
  open os use {World, stat, mkdir, mkdir_makes, mkdir_keeps}

  abbrev pub Keeps : World → World → Type 0
  Keeps w w' = (q : Bytes) → Holds (stat w q) directory → Holds (stat w' q) directory

  -- What the steps do, as their tests turn out.
  pub ensure_none :
      (mode : ℕ) (p : Bytes) (w : World)
      → stat w p ≡ none
      → ensure_directory os mode p w ≡ mkdir w p mode
  unfolding ensure_directory
  ensure_none mode p w e = rw (e, ensure_directory) refl

  ensure_some :
      (mode : ℕ) (p : Bytes) (w : World) (s : Stat)
      → stat w p ≡ some s
      → ensure_directory os mode p w ≡ (w, is_dir s)
  unfolding ensure_directory
  ensure_some mode p w s e = rw (e, ensure_directory) refl

  parents_go :
      (mode : ℕ) (seen rest : Bytes) (c : ℕ) (w : World)
      → (visit os mode seen c w).1 ≡ true
      → make_parents os mode seen (c ∷ rest) w
        ≡ make_parents os mode (seen ++ c ∷ []) rest (visit os mode seen c w).0
  unfolding make_parents
  parents_go mode seen rest c w e = rw (e, make_parents) refl

  parents_stop :
      (mode : ℕ) (seen rest : Bytes) (c : ℕ) (w : World)
      → (visit os mode seen c w).1 ≡ false
      → make_parents os mode seen (c ∷ rest) w ≡ ((visit os mode seen c w).0, false)
  unfolding make_parents
  parents_stop mode seen rest c w e = rw (e, make_parents) refl

  ensure_directory-Keeps :
      (mode : ℕ) (p : Bytes) (w : World) → Keeps w (ensure_directory os mode p w).0
  ensure_directory-Keeps mode p w q h = elim (Option-cases (stat w p)) [
    | inl e ↦
        rw (ensure_none mode p w e)
          (mkdir_keeps w (mkdir w p mode).0 p q mode (mkdir w p mode).1 refl h)
    | inr (s, e) ↦ rw (ensure_some mode p w s e) h
  ]

  ensure_directory-Holds :
      (mode : ℕ) (p : Bytes) (w : World)
      → (ensure_directory os mode p w).1 ≡ true
      → Holds (stat (ensure_directory os mode p w).0 p) directory
  ensure_directory-Holds mode p w ok = elim (Option-cases (stat w p)) [
    | inl e ↦ rw (ensure_none mode p w e) (
        mkdir_makes w (mkdir w p mode).0 p mode
          (ap (λ b. ((mkdir w p mode).0, b)) (rw (ensure_none mode p w e) at ok)))
    | inr (s, e) ↦
        rw (ensure_some mode p w s e) (s, e, (==_iff _ _).0 (rw (ensure_some mode p w s e) at ok))
  ]

  visit-Keeps : (mode : ℕ) (seen : Bytes) (c : ℕ) (w : World) → Keeps w (visit os mode seen c w).0
  unfolding visit
  visit-Keeps mode seen c w q h = elim (Bool-cases (c == slash)) [
    | inl e ↦ rw e (ensure_directory-Keeps mode seen w q h)
    | inr e ↦ rw e h
  ]

  visit-Holds :
      (mode : ℕ) (seen : Bytes) (w : World)
      → (visit os mode seen slash w).1 ≡ true
      → Holds (stat (visit os mode seen slash w).0 seen) directory
  unfolding visit
  visit-Holds mode seen w ok = ensure_directory-Holds mode seen w ok

  make_parents-Keeps :
      (mode : ℕ) (seen rest : Bytes) (w : World) → Keeps w (make_parents os mode seen rest w).0
  make_parents-Keeps mode seen [] w q h = unfold make_parents in h
  make_parents-Keeps mode seen (c ∷ rest) w q h =
      let h' = visit-Keeps mode seen c w q h in
      elim (Bool-cases (visit os mode seen c w).1) [
        | inl e ↦
            rw (parents_go mode seen rest c w e)
              (make_parents-Keeps mode (seen ++ c ∷ []) rest _ q h')
        | inr e ↦ rw (parents_stop mode seen rest c w e) h'
      ]

  parents_first :
      (mode : ℕ) (seen rest : Bytes) (c : ℕ) (w : World)
      → (make_parents os mode seen (c ∷ rest) w).1 ≡ true
      → (visit os mode seen c w).1 ≡ true
  parents_first mode seen rest c w ok = elim (Bool-cases (visit os mode seen c w).1) [
    | inl e ↦ e
    | inr e ↦ e ∙ (rw (parents_stop mode seen rest c w e) at ok)
  ]

  -- Where the loop gets through, a directory stands wherever it saw a '/'.
  make_parents-Holds :
      (mode : ℕ) (seen a b : Bytes) (w : World)
      → (make_parents os mode seen (a ++ (slash ∷ b)) w).1 ≡ true
      → Holds (stat (make_parents os mode seen (a ++ (slash ∷ b)) w).0 (seen ++ a)) directory
  make_parents-Holds mode seen [] b w ok =
      let e = parents_first mode seen b slash w ok in
      rw (parents_go mode seen b slash w e, append-nil seen)
        (make_parents-Keeps mode (seen ++ slash ∷ []) b _ seen (visit-Holds mode seen w e))
  make_parents-Holds mode seen (c ∷ a) b w ok =
      let e = parents_first mode seen (a ++ (slash ∷ b)) c w ok in
      let go = parents_go mode seen (a ++ (slash ∷ b)) c w e in
      rw (go, ← append_assoc seen (c ∷ []) a)
        (make_parents-Holds mode (seen ++ c ∷ []) a b _ (rw go at ok))

  all_go :
      (mode : ℕ) (dir : Bytes) (w : World)
      → (make_parents os mode (take 1 dir) (drop 1 dir) w).1 ≡ true
      → make_all os mode dir w
        ≡ ensure_directory os mode dir (make_parents os mode (take 1 dir) (drop 1 dir) w).0
  unfolding make_all
  all_go mode dir w e = rw (e, make_all) refl

  all_stop :
      (mode : ℕ) (dir : Bytes) (w : World)
      → (make_parents os mode (take 1 dir) (drop 1 dir) w).1 ≡ false
      → make_all os mode dir w ≡ ((make_parents os mode (take 1 dir) (drop 1 dir) w).0, false)
  unfolding make_all
  all_stop mode dir w e = rw (e, make_all) refl

  all_first :
      (mode : ℕ) (dir : Bytes) (w : World)
      → (make_all os mode dir w).1 ≡ true
      → (make_parents os mode (take 1 dir) (drop 1 dir) w).1 ≡ true
  all_first mode dir w ok = elim (Bool-cases (make_parents os mode (take 1 dir) (drop 1 dir) w).1) [
    | inl e ↦ e
    | inr e ↦ e ∙ (rw (all_stop mode dir w e) at ok)
  ]

  make_all-Keeps : (mode : ℕ) (dir : Bytes) (w : World) → Keeps w (make_all os mode dir w).0
  make_all-Keeps mode dir w q h =
      let h' = make_parents-Keeps mode (take 1 dir) (drop 1 dir) w q h in
      elim (Bool-cases (make_parents os mode (take 1 dir) (drop 1 dir) w).1) [
        | inl e ↦ rw (all_go mode dir w e) (ensure_directory-Keeps mode dir _ q h')
        | inr e ↦ rw (all_stop mode dir w e) h'
      ]

  make_all-Holds :
      (mode : ℕ) (dir : Bytes) (w : World)
      → (make_all os mode dir w).1 ≡ true
      → Holds (stat (make_all os mode dir w).0 dir) directory
  make_all-Holds mode dir w ok =
      let e = all_first mode dir w ok in
      rw (all_go mode dir w e) (ensure_directory-Holds mode dir _ (rw (all_go mode dir w e) at ok))

  -- A path on the way to a directory: the directory's own, or what is in front of a '/' in it, unless
  -- that is empty.
  abbrev pub OnTheWay : Bytes → Bytes → Type 0
  OnTheWay p dir =
      (p ≡ dir)
      ⊎ ((x : ℕ) × (a : Bytes) × (b : Bytes) × (p ≡ x ∷ a) × (dir ≡ x ∷ (a ++ (slash ∷ b))))

  make_all-parent :
      (mode x : ℕ) (a b : Bytes) (w : World)
      → (make_all os mode (x ∷ (a ++ (slash ∷ b))) w).1 ≡ true
      → Holds (stat (make_all os mode (x ∷ (a ++ (slash ∷ b))) w).0 (x ∷ a)) directory
  make_all-parent mode x a b w ok =
      let dir : Bytes = x ∷ (a ++ (slash ∷ b)) in
      let e = all_first mode dir w ok in
      rw (all_go mode dir w e)
        (ensure_directory-Keeps mode dir _ (x ∷ a) (make_parents-Holds mode (x ∷ []) a b w e))

  -- Where the creation of a directory's path with all that is above it reports success, a directory
  -- stands in the end at the whole path, and at each path in front of a '/' in it that is not
  -- empty.
  pub make_all-ensure_directory :
      (mode : ℕ) (dir p : Bytes) (w : World)
      → OnTheWay p dir
      → (make_all os mode dir w).1 ≡ true
      → Holds (stat (make_all os mode dir w).0 p) directory
  make_all-ensure_directory mode dir p w (inl e) ok = rw e (make_all-Holds mode dir w ok)
  make_all-ensure_directory mode dir p w (inr (x, a, b, e, d)) ok =
      rw (e, d) (make_all-parent mode x a b w (rw d at ok))

  directories_there :
      (mode : ℕ) (path : Bytes) (w : World)
      → Holds (stat w (without_last slash path)) directory
      → make_directories os mode path w ≡ (w, true)
  unfolding make_directories
  directories_there mode path w (s, e, d) = rw (e, (==_iff _ _).1 d, make_directories) refl

  directories_make :
      (mode : ℕ) (path : Bytes) (w : World)
      → (make_directories os mode path w ≡ make_all os mode (without_last slash path) w)
        ⊎ Holds (stat w (without_last slash path)) directory
  unfolding make_directories
  directories_make mode path w = elim (Option-cases (stat w (without_last slash path))) [
    | inl e ↦ inl (rw (e, make_directories) refl)
    | inr (s, e) ↦ elim (Bool-cases (is_dir s)) [
      | inl d ↦ inr (s, e, (==_iff _ _).0 d)
      | inr d ↦ inl (rw (e, make_directories) (rw d refl))
    ]
  ]

  pub make_directories-Keeps :
      (mode : ℕ) (path : Bytes) (w : World) → Keeps w (make_directories os mode path w).0
  make_directories-Keeps mode path w q h = elim (directories_make mode path w) [
    | inl e ↦ rw e (make_all-Keeps mode _ w q h)
    | inr d ↦ rw (directories_there mode path w d) h
  ]

  pub make_directories-Holds :
      (mode : ℕ) (path : Bytes) (w : World)
      → (make_directories os mode path w).1 ≡ true
      → Holds (stat (make_directories os mode path w).0 (without_last slash path)) directory
  make_directories-Holds mode path w ok = elim (directories_make mode path w) [
    | inl e ↦ rw e (make_all-Holds mode _ w (rw e at ok))
    | inr d ↦ rw (directories_there mode path w d) d
  ]
