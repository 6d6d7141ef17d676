-- ===== src/FsDir/Listing.antt =====
-- What `getEntries` lists.
use cpp_temp_learn.Prelude.{
  ℕ, true, false, List, [], ◌∷◌, ◌++◌, Option, none, some, ◌≡◌, refl, sym, ap, ◌∙◌, inl, inr, Bytes,
  codes, is_empty, All, Bool-cases, Option-cases, subst,
}
use cpp_temp_learn.Strings.{trim}
use cpp_temp_learn.FilePath.{slash, analyze}
use cpp_temp_learn.FileSystem.{Stat, Os}
use cpp_temp_learn.Shell.Execution.{ShellOs}
use cpp_temp_learn.FsObject.{ℤ, FsObject, fs_object, is_exist, get_last_update_time}
use cpp_temp_learn.FsObject.Making.{get_absolute_path}
use cpp_temp_learn.FsObject.Commands.{exec_command}
use cpp_temp_learn.FsObject.Existence.{is_exist-Suits}
use cpp_temp_learn.FsObject.Found.{fs_object-Made, fs_object-exists, found, is_exist-found}
use cpp_temp_learn.FsDir.{Dir, same_time, entries_of, list_entries, get_entries}

module _ (os : Os) where
  open os use {World, stat}

  -- An object as `isExist` leaves it where something stands at its path.
  abbrev pub Stands : World → FsObject → Type 0
  Stands w e =
      (p : Bytes) × (s : Stat) × (e ≡ found (fs_object p))
      × (stat w (analyze (fs_object p).as_path).full_path ≡ some s)

  is_exist-Stands :
      (w : World) (p : Bytes)
      → (is_exist os w (fs_object p)).1 ≡ true
      → Stands w (is_exist os w (fs_object p)).0
  is_exist-Stands w p e =
      let m = fs_object-Made p in
      let x = fs_object-exists p in
      let (s, at, suits) = (is_exist-Suits os w (fs_object p) m x).0 e in
      (p, s, ap (λ t. t.0) (is_exist-found os w (fs_object p) s m at x suits), at)

  entries_of-Stands :
      (w : World) (real : Bytes) (lines : List Bytes) → All (Stands w) (entries_of os w real lines)
  unfolding entries_of
  entries_of-Stands w real [] = tt
  entries_of-Stands w real (line ∷ lines) =
      let rest = entries_of-Stands w real lines in
      let p = real ++ (slash ∷ trim line) in
      elim (Bool-cases (is_empty (trim line))) [
        | inl e ↦ rw e rest
        | inr e ↦ elim (Bool-cases (is_exist os w (fs_object p)).1) [
          | inl f ↦ rw (e, f) (is_exist-Stands w p f, rest)
          | inr f ↦ rw (e, f) rest
        ]
      ]

  -- What a listing leaves, if it comes back.
  abbrev Listed : Option (World × Dir) → Type 0
  Listed none = Unit
  Listed (some (w, d)) = All (Stands w) d.entries

  list_entries-Listed :
      (sh : ShellOs World) (fuel : ℕ) (w : World) (d : Dir) (mtime : ℤ)
      → Listed (list_entries os sh fuel w d mtime)
  unfolding list_entries
  list_entries-Listed sh fuel w d mtime =
      let (w', o, real) = get_absolute_path os w d.as_object in
      elim (Option-cases (exec_command os sh fuel w' (codes "ls " ++ (o.real_path ++ codes "/")))) [
        | inl e ↦ rw (e, list_entries) tt
        | inr ((w'', ok, lines), e) ↦ elim (Bool-cases ok) [
          | inl f ↦ rw (e, f, list_entries) (entries_of-Stands w'' real lines)
          | inr f ↦ rw (e, f, list_entries) tt
        ]
      ]

  -- Where the time of the last update of a directory is another than at the last listing and
  -- `getEntries` comes back, each of its entries is an object at which something stands in the file
  -- system that the listing leaves.
  pub get_entries-Stands :
      (sh : ShellOs World) (fuel : ℕ) (w w' : World) (d d' : Dir)
      → same_time d.last_update (get_last_update_time os w d.as_object).1 ≡ false
      → get_entries os sh fuel w d ≡ some (w', d')
      → All (Stands w') d'.entries
  unfolding get_entries
  get_entries-Stands sh fuel w w' d d' changed done =
      let (o, mtime) = get_last_update_time os w d.as_object in
      let seen = record d { as_object = o } in
      let afresh : get_entries os sh fuel w d ≡ list_entries os sh fuel w seen mtime =
        rw changed refl in
      subst Listed (sym afresh ∙ done) (list_entries-Listed sh fuel w seen mtime)
