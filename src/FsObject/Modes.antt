-- ===== src/FsObject/Modes.antt =====
-- `getAbsolutePath`, `changeMode` and `create` of an object that exists.
use cpp_temp_learn.Prelude.{
  none, ℕ, suc, ◌+◌, ◌%◌, ◌^◌, Bool, true, false, Option, some, ◌≡◌, refl, ap, ◌∙◌, ◌⊎◌, inl, inr,
  arith, Bytes, Bool-cases, if◌then◌else◌,
}
use cpp_temp_learn.FilePath.{analyze}
use cpp_temp_learn.FilePath.Coherence.{Made}
use cpp_temp_learn.FileSystem.{directory, regular_file, type_of, permissions, Stat, Holds, Os}
use cpp_temp_learn.FsObject.{FsObject, get_stat}
use cpp_temp_learn.FsObject.Making.{
  make_path, create, matches, resolve_real, get_absolute_path, change_found, change_mode,
}
use cpp_temp_learn.FsObject.Existence.{Suits}
use cpp_temp_learn.FsObject.Found.{found, is_exist-again, is_exist-found, get_stat-found}
use cpp_temp_learn.FsObject.Creation.{is_other, made, seen, matched}
use cpp_temp_learn.FsObject.Parents.{path_there, make_path-Same}

-- The mode that `changeMode` asks for: the object's type, and the new permissions.
asked_mode : (s m : ℕ) → (type_of s + permissions m) % 2 ^ 9 ≡ m % 2 ^ 9
asked_mode s m = omega arith

module _ (os : Os) where
  open os use {World, stat, realpath, chmod, chmod_sets}

  make_path-found :
      (mode : ℕ) (w : World) (o : FsObject) → make_path os mode w (found o) ≡ (w, found o, true)
  make_path-found mode w o =
      path_there os mode w (found o) (ap (λ t. t.1) (is_exist-again os w o))
      ∙ ap (λ t. (w, t.0, true)) (is_exist-again os w o)

  pub get_absolute_path-found :
      (w : World) (o : FsObject) (r : Bytes)
      → realpath w (analyze o.as_path).full_path ≡ some r
      → get_absolute_path os w (found o) ≡ (w, record (found o) { real_path = r }, r)
  unfolding get_absolute_path resolve_real
  get_absolute_path-found w o r h =
      let set : World × FsObject × Bool → World × FsObject × Bytes = λ t.
        let q =
          resolve_real os (realpath t.0 t.1.as_path.full_path)
            (realpath t.0 t.1.as_path.directory_path) t.1 in
        (t.0, q, q.real_path) in
      ap set (make_path-found 0x1ff w o)
      ∙ ap
          (λ f.
            let q = resolve_real os f (realpath w (found o).as_path.directory_path) (found o) in
            (w, q, q.real_path))
          h

  -- Where neither the path nor its directory has a real path once `makePath` is done,
  -- `getAbsolutePath` of an object whose path was made by the operations of the class returns the
  -- real path that the object had before, whatever its path was then, and the object counts as
  -- relative from then on.
  pub get_absolute_path-real_path :
      (w : World) (o : FsObject)
      → Made o.as_path
      → realpath (make_path os 0x1ff w o).0 (make_path os 0x1ff w o).1.as_path.full_path ≡ none
      → realpath (make_path os 0x1ff w o).0 (make_path os 0x1ff w o).1.as_path.directory_path ≡ none
      → ((get_absolute_path os w o).2 ≡ o.real_path)
        × ((get_absolute_path os w o).1.as_path.absolute ≡ false)
  unfolding get_absolute_path resolve_real
  get_absolute_path-real_path w o m none_here none_above =
      let t = make_path os 0x1ff w o in
      let stale =
        ap (λ f. resolve_real os f (realpath t.0 t.1.as_path.directory_path) t.1) none_here
        ∙ ap (λ f. resolve_real os none f t.1) none_above in
      (
        ap (λ q. q.real_path) stale ∙ (make_path-Same os 0x1ff w o m).real,
        ap (λ q. q.as_path.absolute) stale,
      )

  -- What `changeMode` comes to: the call of `chmod` at the real path.
  change_mode-found :
      (mode : ℕ) (w : World) (o : FsObject) (s : Stat) (r : Bytes)
      → Made o.as_path
      → o.as_path.exists ≡ false
      → stat w (analyze o.as_path).full_path ≡ some s
      → Suits o.object_type s
      → realpath w (analyze o.as_path).full_path ≡ some r
      → change_mode os mode w o ≡ (
        (chmod w r (type_of s.mode + permissions mode)).0,
        record (found o) { real_path = r },
        (chmod w r (type_of s.mode + permissions mode)).1,
      )
  unfolding change_mode change_found
  change_mode-found mode w o s r m x at suits h =
      let from : FsObject × Bool → World × FsObject × Bool = λ t.
        let g = get_stat os w false t.0 in
        if t.1 then change_found os mode w g.0 g.1 else (w, t.0, false) in
      let call : World × FsObject × Bytes → World × FsObject × Bool =
        λ t. let c = chmod t.0 t.2 (type_of s.mode + permissions mode) in (c.0, t.1, c.1) in
      ap from (is_exist-found os w o s m at x suits)
      ∙ ap (λ t. change_found os mode w t.0 t.1) (get_stat-found os w o s m at)
      ∙ ap call (get_absolute_path-found w o r h)

  -- `changeMode` of an object whose path was made by the operations of the class, that is not marked
  -- as seen, that stands at its path with a type that suits it and that has a real path returns what
  -- `chmod` at that real path returns; it fails, or leaves the object with the nine permission bits
  -- that were asked for and with its type.
  pub change_mode-chmod :
      (mode : ℕ) (w : World) (o : FsObject) (s : Stat) (r : Bytes)
      → Made o.as_path
      → o.as_path.exists ≡ false
      → stat w (analyze o.as_path).full_path ≡ some s
      → Suits o.object_type s
      → realpath w (analyze o.as_path).full_path ≡ some r
      → ((change_mode os mode w o).2 ≡ (chmod w r (type_of s.mode + permissions mode)).1)
        × (((change_mode os mode w o).2 ≡ false)
            ⊎ ((s' : Stat) × (stat (change_mode os mode w o).0 (analyze o.as_path).full_path
                  ≡ some s')
                × (type_of s'.mode ≡ type_of s.mode)
                × (s'.mode % 2 ^ 9 ≡ mode % 2 ^ 9)))
  change_mode-chmod mode w o s r m x at suits h =
      rw (change_mode-found mode w o s r m x at suits h) (
        refl,
        elim (Bool-cases done.1) [
          | inr e ↦ inl e
          | inl e ↦
              let (s', at', t, bits) =
                chmod_sets w done.0 (analyze o.as_path).full_path r
                  (type_of s.mode + permissions mode) s at h (ap (λ b. (done.0, b)) e) in
              inr (s', at', t, bits ∙ asked_mode s.mode mode)
        ],
      )
    where
      done : World × Bool
      done = chmod w r (type_of s.mode + permissions mode)

  matches-Holds :
      (t : ℕ) (s : Stat)
      → (t ≡ directory) ⊎ (t ≡ regular_file)
      → type_of s.mode ≡ t
      → matches os t s ≡ true
  unfolding matches
  matches-Holds t s h e = ground (arith, h, e)

  -- Where a directory or a regular file is asked for and an object of that type stands at the path
  -- of an object that is not marked as seen, whose path was made by the operations of the class,
  -- `create` reports success, makes nothing, and keeps the path.
  pub create-found :
      (fuel mode : ℕ) (w : World) (o : FsObject)
      → Made o.as_path
      → o.as_path.exists ≡ false
      → (o.object_type ≡ directory) ⊎ (o.object_type ≡ regular_file)
      → Holds (stat w (analyze o.as_path).full_path) o.object_type
      → create os (suc fuel) mode w o ≡ some (w, found o, true)
  create-found fuel mode w o m x t (s, at, e) =
      let suits : Suits o.object_type s = ground (arith, e) in
      let go : made os mode w o ≡ (w, found o, true) =
        path_there os 0x1ff w o (ap (λ t. t.1) (is_exist-found os w o s m at x suits))
        ∙ ap (λ t. (w, t.0, true)) (is_exist-found os w o s m at x suits) in
      let known : is_other o.object_type ≡ false = ground (arith, t) in
      let look : World × FsObject × Bool → FsObject × Option Stat =
        λ t. get_stat os t.0 false t.1 in
      let there : seen os mode w o ≡ (found o, some s) =
        ap look go ∙ get_stat-found os w o s m at in
      matched os mode w o fuel s (ap (λ t. is_other t.1.object_type) go ∙ known)
        (ap (λ t. t.1) there)
        (ap (λ t. matches os t.0.object_type s) there ∙ matches-Holds o.object_type s t e)
      ∙ ap (λ t. some (t.0, (look t).0, true)) go
      ∙ ap (λ t. some (w, t.0, true)) (get_stat-found os w o s m at)
