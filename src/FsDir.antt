-- ===== src/FsDir.antt =====
-- libsrc/libfs/Dir.cpp: the class `Dir`, a directory with a listing that it keeps.
--
-- `none` is that the command `ls` does not come back or ran out of fuel.
pub mod Listing
mod Tests
use cpp_temp_learn.Prelude.{
  ℕ, Bool, true, false, ◌==◌, List, [], ◌∷◌, ◌++◌, Option, none, some, Bytes, codes, is_empty,
  if◌then◌else◌,
}
use cpp_temp_learn.Strings.{trim}
use cpp_temp_learn.FilePath.{slash}
use cpp_temp_learn.FileSystem.{directory, Os}
use cpp_temp_learn.Shell.Execution.{ShellOs}
use cpp_temp_learn.FsObject.{
  ℤ, pos, negsuc, FsObject, fs_object, assign_object, is_exist, get_last_update_time,
}
use cpp_temp_learn.FsObject.Making.{get_absolute_path}
use cpp_temp_learn.FsObject.Commands.{exec_command}

pub record Dir : Type 0 where
  pub as_object : FsObject
  pub entries : List FsObject
  pub last_update : ℤ

-- `Dir(const std::string &)`, `Dir(std::string &&)` and `Dir(const char *)`
unfoldable pub new_dir : Bytes → Dir
unfolding fs_object
new_dir s = record {
  as_object = record (fs_object s) { object_type = directory };
  entries = [];
  last_update = pos 0;
}

-- `operator=` of a constant and of a moved directory: the entries are kept.
unfoldable pub assign_dir : Dir → Dir → Dir
unfolding assign_object
assign_dir this source = record this {
  as_object = assign_object this.as_object source.as_object;
  last_update = source.last_update;
}

unfoldable pub move_dir : Dir → Dir → Dir
unfolding assign_object
move_dir this source = record this {
  as_object = assign_object this.as_object source.as_object;
  last_update = pos 0;
}

unfoldable pub same_time : ℤ → ℤ → Bool
same_time (pos m) (pos n) = m == n
same_time (negsuc m) (negsuc n) = m == n
same_time (pos m) (negsuc n) = false
same_time (negsuc m) (pos n) = false

module _ (os : Os) where
  open os use {World}

  -- The loop of `getEntries` over the lines.
  unfoldable pub entries_of : World → Bytes → List Bytes → List FsObject
  unfolding trim fs_object is_exist
  entries_of w real [] = []
  entries_of w real (line ∷ lines) =
      let rest = entries_of w real lines in
      let (fo, there) = is_exist os w (fs_object (real ++ (slash ∷ trim line))) in
      if is_empty (trim line) then rest else if there then fo ∷ rest else rest

  -- `getEntries` of a directory that has changed
  unfoldable pub list_entries : ShellOs World → ℕ → World → Dir → ℤ → Option (World × Dir)
  unfolding get_absolute_path exec_command entries_of
  list_entries sh fuel w d mtime =
      let (w', o, real) = get_absolute_path os w d.as_object in
      elim (exec_command os sh fuel w' (codes "ls " ++ (o.real_path ++ codes "/"))) [
        | none ↦ none
        | some (w'', ok, lines) ↦ some (
          w'',
          record {
            as_object = o;
            entries = if ok then entries_of w'' real lines else [];
            last_update = mtime;
          },
        )
      ]

  unfoldable pub get_entries : ShellOs World → ℕ → World → Dir → Option (World × Dir)
  unfolding get_last_update_time list_entries same_time
  get_entries sh fuel w d =
      let (o, mtime) = get_last_update_time os w d.as_object in
      let seen = record d { as_object = o } in
      let listed = list_entries sh fuel w seen mtime in
      if same_time d.last_update mtime then some (w, seen) else listed
