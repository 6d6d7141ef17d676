-- ===== src/FsObject/Parents.antt =====
-- `makePath`: the directories above an object.
use cpp_temp_learn.Prelude.{
  ℕ, true, false, [], ◌∷◌, ◌≡◌, ◌≢◌, refl, ap, ◌∙◌, inl, inr, Bytes, is_empty, without_last,
  Bool-cases, Lacks, getlines, getlines-append, getlines-Lacks_self,
}
use cpp_temp_learn.FilePath.{
  FilePath, slash, analyze, analyze_fresh, locate, fix_parts, join_directory,
}
use cpp_temp_learn.FilePath.Coherence.{Made, Made-content}
use cpp_temp_learn.FileSystem.{directory, Holds, Os}
use cpp_temp_learn.FsObject.{FsObject, analyzed, is_exist}
use cpp_temp_learn.FsObject.Making.{
  ensure_directory, make_parents, make_all, make_directories, make_path,
}
use cpp_temp_learn.FsObject.Existence.{Same, Same-trans, Same-analyzed, is_exist-Same}
use cpp_temp_learn.FsObject.Directories.{
  Keeps, ensure_none, make_directories-Keeps, make_directories-Holds,
}

-- What `analyze` finds above an object of the root directory.
fresh-root :
    (p : FilePath) (name : Bytes)
    → name ≢ []
    → Lacks slash name
    → p.path ≡ slash ∷ name
    → (analyze_fresh p).directory_path ≡ slash ∷ []
unfolding analyze_fresh locate fix_parts join_directory
fresh-root p name ne h e =
    let parts : getlines slash p.path ≡ [] ∷ name ∷ [] =
      ap (getlines slash) e
      ∙ getlines-append slash [] name tt
      ∙ ap (λ ps. [] ∷ ps) (getlines-Lacks_self slash name h ne) in
    rw parts refl

pub directory_path-root :
    (p : FilePath) (name : Bytes)
    → Made p
    → name ≢ []
    → Lacks slash name
    → p.path ≡ slash ∷ name
    → (analyze p).directory_path ≡ slash ∷ []
directory_path-root p name m ne h e =
    ap (λ q. q.directory_path) (Made-content p m) ∙ fresh-root p name ne h e

module _ (os : Os) where
  open os use {World, stat, mkdir, stat_empty, mkdir_empty}

  pub path_there :
      (mode : ℕ) (w : World) (o : FsObject)
      → (is_exist os w o).1 ≡ true
      → make_path os mode w o ≡ (w, (is_exist os w o).0, true)
  unfolding make_path
  path_there mode w o e = rw (e, make_path) refl

  path_empty :
      (mode : ℕ) (w : World) (o : FsObject)
      → (is_exist os w o).1 ≡ false
      → is_empty (analyze (is_exist os w o).0.as_path).directory_path ≡ true
      → make_path os mode w o ≡ (w, analyzed (is_exist os w o).0, false)
  unfolding make_path
  path_empty mode w o e d = rw (e, d, make_path) refl

  path_make :
      (mode : ℕ) (w : World) (o : FsObject)
      → (is_exist os w o).1 ≡ false
      → is_empty (analyze (is_exist os w o).0.as_path).directory_path ≡ false
      → make_path os mode w o ≡ (
        (make_directories os mode (analyze (is_exist os w o).0.as_path).directory_path w).0,
        analyzed (is_exist os w o).0,
        (make_directories os mode (analyze (is_exist os w o).0.as_path).directory_path w).1,
      )
  unfolding make_path
  path_make mode w o e d = rw (e, d, make_path) refl

  -- `makePath` takes away no directory, also where it fails halfway.
  pub make_path-Keeps : (mode : ℕ) (w : World) (o : FsObject) → Keeps os w (make_path os mode w o).0
  make_path-Keeps mode w o q h = elim (Bool-cases (is_exist os w o).1) [
    | inl e ↦ rw (path_there mode w o e) h
    | inr e ↦
        let dir = (analyze (is_exist os w o).0.as_path).directory_path in
        elim (Bool-cases (is_empty dir)) [
          | inl d ↦ rw (path_empty mode w o e d) h
          | inr d ↦ rw (path_make mode w o e d) (make_directories-Keeps os mode dir w q h)
        ]
  ]

  pub make_path-Same :
      (mode : ℕ) (w : World) (o : FsObject) → Made o.as_path → Same o (make_path os mode w o).1
  unfolding analyzed
  make_path-Same mode w o m =
      let seen = is_exist-Same os w o m in
      let full = Same-trans seen (Same-analyzed seen.made) in
      elim (Bool-cases (is_exist os w o).1) [
        | inl e ↦ rw (path_there mode w o e) seen
        | inr e ↦
            elim (Bool-cases (is_empty (analyze (is_exist os w o).0.as_path).directory_path)) [
              | inl d ↦ rw (path_empty mode w o e d) full
              | inr d ↦ rw (path_make mode w o e d) full
            ]
      ]

  -- Where `makePath` reports success for an object that does not exist, the directory that its
  -- path names stands in the end.
  pub make_path-Holds :
      (mode : ℕ) (w : World) (o : FsObject)
      → (is_exist os w o).1 ≡ false
      → (make_path os mode w o).2 ≡ true
      → Holds
          (stat
            (make_path os mode w o).0
            (without_last slash (make_path os mode w o).1.as_path.directory_path))
          directory
  unfolding analyzed
  make_path-Holds mode w o e ok =
      let dir = (analyze (is_exist os w o).0.as_path).directory_path in
      elim (Bool-cases (is_empty dir)) [
        | inl d ↦ absurd (cc (path_empty mode w o e d, ok))
        | inr d ↦
            rw (path_make mode w o e d)
              (make_directories-Holds os mode dir w (rw (path_make mode w o e d) at ok))
      ]

  root_makes_empty :
      (mode : ℕ) (w : World)
      → make_directories os mode (slash ∷ []) w ≡ ensure_directory os mode [] w
  unfolding make_directories make_all make_parents
  root_makes_empty mode w = rw (stat_empty w, make_directories) refl

  root_fails : (mode : ℕ) (w : World) → (make_directories os mode (slash ∷ []) w).1 ≡ false
  root_fails mode w =
      ap (λ t. t.1) (root_makes_empty mode w ∙ ensure_none os mode [] w (stat_empty w))
      ∙ mkdir_empty w (mkdir w [] mode).0 mode (mkdir w [] mode).1 refl

  -- `makePath` fails for every object of the root directory that does not exist and whose path was
  -- made by the operations of the class, whatever the file system allows.
  pub make_path-root :
      (mode : ℕ) (w : World) (o : FsObject) (name : Bytes)
      → Made o.as_path
      → name ≢ []
      → Lacks slash name
      → o.as_path.path ≡ slash ∷ name
      → (is_exist os w o).1 ≡ false
      → (make_path os mode w o).2 ≡ false
  make_path-root mode w o name m ne h p e =
      let seen = is_exist-Same os w o m in
      let above =
        directory_path-root (is_exist os w o).0.as_path name seen.made ne h (seen.text ∙ p) in
      let d : is_empty (analyze (is_exist os w o).0.as_path).directory_path ≡ false =
        ap is_empty above in
      ap (λ t. t.2) (path_make mode w o e d)
      ∙ ap (λ dir. (make_directories os mode dir w).1) above
      ∙ root_fails mode w
