-- ===== src/FsObject/Making.antt =====
-- libsrc/libfs/FsObject.cpp: what makes objects of the file system and looks for their real paths.
use cpp_temp_learn.Prelude.{
  ℕ, zero, suc, ◌+◌, Bool, true, false, not, ◌&&◌, ◌||◌, [], ◌∷◌, ◌++◌, Option, none, some, Bytes,
  take, drop, is_empty, without_last, ◌==◌, if◌then◌else◌,
}
use cpp_temp_learn.FilePath.{slash, analyze}
use cpp_temp_learn.FileSystem.{
  directory, regular_file, type_of, permissions, Stat, is_dir, is_reg, Os,
}
use cpp_temp_learn.FsObject.{FsObject, analyzed, renamed, get_stat, is_exist}

module _ (os : Os) where
  open os use {World, stat, realpath, mkdir, create_file, chmod}

  -- The test of `makePath` that a directory stands at a path, which makes it where nothing does.
  unfoldable pub ensure_directory : ℕ → Bytes → World → World × Bool
  ensure_directory mode p w = elim (stat w p) [ none ↦ mkdir w p mode | some s ↦ (w, is_dir s) ]

  -- One round of the loop of `makePath`, at a byte with the text in front of it.
  unfoldable pub visit : ℕ → Bytes → ℕ → World → World × Bool
  unfolding ensure_directory
  visit mode seen c w = if c == slash then ensure_directory mode seen w else (w, true)

  -- The loop of `makePath`, over the bytes from `p` on.
  unfoldable pub make_parents : ℕ → Bytes → Bytes → World → World × Bool
  unfolding visit
  make_parents mode seen [] w = (w, true)
  make_parents mode seen (c ∷ rest) w =
      let (w', ok) = visit mode seen c w in
      elim ok [ true ↦ make_parents mode (seen ++ c ∷ []) rest w' | false ↦ (w', false) ]

  -- `makePath` behind its first test of the directory
  unfoldable pub make_all : ℕ → Bytes → World → World × Bool
  unfolding make_parents ensure_directory
  make_all mode dir w =
      let (w', ok) = make_parents mode (take 1 dir) (drop 1 dir) w in
      elim ok [ true ↦ ensure_directory mode dir w' | false ↦ (w', false) ]

  -- `makePath` on a directory's path, which is not empty
  unfoldable pub make_directories : ℕ → Bytes → World → World × Bool
  unfolding make_all
  make_directories mode path w =
      let dir = without_last slash path in
      elim (stat w dir) [
        | none ↦ make_all mode dir w
        | some s ↦ elim (is_dir s) [ true ↦ (w, true) | false ↦ make_all mode dir w ]
      ]

  unfoldable pub make_path : ℕ → World → FsObject → World × FsObject × Bool
  unfolding is_exist make_directories analyzed
  make_path mode w o =
      let (o', exists_already) = is_exist os w o in
      let dir = (analyze o'.as_path).directory_path in
      let (w', ok) = make_directories mode dir w in
      if exists_already
      then (w, o', true)
      else if is_empty dir
      then (w, analyzed o', false)
      else (w', analyzed o', ok)

  -- The call of `create` that makes the object, where nothing stands at its path.
  unfoldable pub create_missing : ℕ → World → FsObject → World × FsObject × Bool
  unfolding analyzed
  create_missing mode w o =
      let full = (analyze o.as_path).full_path in
      let (w', ok) =
        if o.object_type == directory then mkdir w full mode else create_file w full mode in
      (w', analyzed o, ok)

  -- An object of the type that is asked for.
  unfoldable pub matches : ℕ → Stat → Bool
  matches t s = (is_dir s && t == directory) || (is_reg s && t == regular_file)

  -- `create` calls itself with a new name; it does so on fuel, and `none` is that it ran out.
  unfoldable pub create : ℕ → ℕ → World → FsObject → Option (World × FsObject × Bool)
  unfolding create_missing matches make_path get_stat renamed
  create zero mode w o = none
  create (suc fuel) mode w o =
      let (w', o', made) = make_path 0x1ff w o in
      let (o'', found) = get_stat os w' false o' in
      elim (not (o'.object_type == regular_file) && not (o'.object_type == directory)) [
        | true ↦ some (w', analyzed o', false)
        | false ↦ elim found [
          | none ↦ some (create_missing mode w' o'')
          | some s ↦ elim (matches o''.object_type s) [
            | true ↦ some (w', o'', true)
            | false ↦ create fuel mode w' (renamed o'')
          ]
        ]
      ]

  -- what `getAbsolutePath` sets by the two results of `realpath`
  unfoldable pub resolve_real : Option Bytes → Option Bytes → FsObject → FsObject
  resolve_real (some r) parent o = record o { real_path = r }
  resolve_real none (some r) o = record o { real_path = r ++ (slash ∷ o.as_path.filename) }
  resolve_real none none o = record o { as_path = record o.as_path { absolute = false } }

  -- `getAbsolutePath`
  unfoldable pub get_absolute_path : World → FsObject → World × FsObject × Bytes
  unfolding resolve_real make_path
  get_absolute_path w o =
      let (w', o', made) = make_path 0x1ff w o in
      let p = o'.as_path in
      let o'' = resolve_real (realpath w' p.full_path) (realpath w' p.directory_path) o' in
      (w', o'', o''.real_path)

  -- `changeMode` from its `getStat` on
  unfoldable pub change_found : ℕ → World → FsObject → Option Stat → World × FsObject × Bool
  unfolding get_absolute_path
  change_found mode w o none = (w, o, false)
  change_found mode w o (some s) =
      let (w', q, real) = get_absolute_path w o in
      let (w'', ok) = chmod w' real (type_of s.mode + permissions mode) in (w'', q, ok)

  unfoldable pub change_mode : ℕ → World → FsObject → World × FsObject × Bool
  unfolding change_found is_exist get_stat
  change_mode mode w o =
      let (o', there) = is_exist os w o in
      let (o'', found) = get_stat os w false o' in
      let (w', q, ok) = change_found mode w o'' found in
      if there then (w', q, ok) else (w, o', false)
