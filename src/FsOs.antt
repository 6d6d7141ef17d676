-- ===== src/FsOs.antt =====
-- libsrc/libfs/Fs.cpp: the functions of `Os`, which make an object of a path and call its operations.
--
-- `none` is undefined behaviour, or that a shell command does not come back or ran out of fuel.
use cpp_temp_learn.Prelude.{ℕ, Bool, [], Option, none, some, Bytes, codes}
use cpp_temp_learn.FileSystem.{Os}
use cpp_temp_learn.Shell.Execution.{ShellOs}
use cpp_temp_learn.FsObject.{FsObject, fs_object}
use cpp_temp_learn.FsObject.Commands.{move, copy, remove, create_sym_link, remove_sym_link}

-- `chdir`, `getcwd` and `getenv`
pub record ProcessOs (World : Type 0) : Type 0 where
  pub chdir : World → Bytes → World × Bool
  pub getcwd : World → Option Bytes
  pub getenv : World → Bytes → Option Bytes

-- The object is dropped on the way out.
unfoldable pub outcome_of :
    {World : Type 0} → Option (World × FsObject × Bool) → Option (World × Bool)
outcome_of none = none
outcome_of (some (w, o, ok)) = some (w, ok)

module _ (os : Os) (sh : ShellOs os.World) (process : ProcessOs os.World) where
  open os use {World}

  unfoldable pub copy_path : ℕ → World → Bytes → Bytes → Option (World × Bool)
  unfolding outcome_of copy fs_object
  copy_path fuel w src dst = outcome_of (copy os sh fuel w (fs_object src) dst)

  unfoldable pub move_path : ℕ → World → Bytes → Bytes → Option (World × Bool)
  unfolding outcome_of move fs_object
  move_path fuel w src dst = outcome_of (move os sh fuel w (fs_object src) dst)

  unfoldable pub link_path : World → Bytes → Bytes → Option (World × Bool)
  unfolding outcome_of create_sym_link fs_object
  link_path w target path = outcome_of (create_sym_link os w (fs_object target) path)

  unfoldable pub remove_path : ℕ → World → Bytes → Option (World × Bool)
  unfolding outcome_of remove fs_object
  remove_path fuel w path = outcome_of (remove os sh fuel w (fs_object path))

  unfoldable pub remove_link_path : World → Bytes → World × Bool
  unfolding remove_sym_link fs_object
  remove_link_path w path = let (w', o, ok) = remove_sym_link os w (fs_object path) in (w', ok)

  unfoldable pub set_current_working_dir : World → Bytes → World × Bool
  set_current_working_dir w path = process.chdir w path

  unfoldable pub get_current_working_dir : World → Bytes
  get_current_working_dir w = elim (process.getcwd w) [ none ↦ [] | some path ↦ path ]

  -- A string of a null pointer is undefined behaviour.
  unfoldable pub get_user : World → Option Bytes
  get_user w = process.getenv w (codes "USER")

  unfoldable pub get_home_dir : World → Option Bytes
  get_home_dir w = process.getenv w (codes "HOME")
