-- ===== src/FileIo/Files.antt =====
-- libsrc/libcpputils/file.cpp: the functions that take a path.
--
-- `errno` is kept by the calls that clean up, and shows only in the texts of errors. A path holds no
-- NUL byte.
use cpp_temp_learn.Prelude.{
  ℕ, zero, suc, ◌*◌, Bool, true, false, not, ◌||◌, ◌==◌, [], Option, none, some, ◌≡◌, Bytes, length,
  take, codes, ltb, if◌then◌else◌,
}
use cpp_temp_learn.FileSystem.{Stat, is_reg, is_link}
use cpp_temp_learn.FileIo.{FdOs, read_fd_to_string, write_string_to_fd}

-- What a call on a path reports: a result or an error's number.
pub data Reply (A : Type 0) : Type 0 where
  found : A → Reply A
  failed : ℕ → Reply A

-- ENOENT and ENOTDIR
abbrev pub no_entry : ℕ
no_entry = 2

abbrev pub not_directory : ℕ
not_directory = 20

-- The calls on paths. `file` is what the file at a path holds. `open_read` is `open` with O_RDONLY,
-- `open_write` with O_WRONLY, O_CREAT and O_TRUNC; the Boolean says whether a symbolic link is
-- followed. `IsOpen` is that a descriptor writes the file at a path from its beginning: what it has
-- taken is then what the file holds once it is closed.
pub record FileOs (World : Type 0) : Type 1 where
  pub fds : FdOs World
  pub open_read : World → Bytes → Bool → World × Option ℕ
  pub open_write : World → Bytes → ℕ → Bool → World × Option ℕ
  pub close : World → ℕ → World
  pub fchmod : World → ℕ → ℕ → World × Bool
  pub fchown : World → ℕ → ℕ → ℕ → World × Bool
  pub unlink : World → Bytes → World × Option ℕ
  pub lstat : World → Bytes → Reply Stat
  pub link : World → Bytes → Option Bytes
  pub readlink : World → Bytes → ℕ → Option Bytes
  pub strerror : ℕ → Bytes
  pub file : World → Bytes → Option Bytes
  pub IsOpen : World → ℕ → Bytes → Type 0
  pub open_read_pending :
      (w w' : World) (path : Bytes) (follow : Bool) (fd : ℕ)
      → open_read w path follow ≡ (w', some fd)
      → file w path ≡ some (fds.pending w' fd)
  pub open_write_IsOpen :
      (w w' : World) (path : Bytes) (mode : ℕ) (follow : Bool) (fd : ℕ)
      → open_write w path mode follow ≡ (w', some fd)
      → IsOpen w' fd path × (fds.written w' fd ≡ [])
  pub write_IsOpen :
      (w w' : World) (fd : ℕ) (path bs : Bytes) (r : Option ℕ)
      → fds.write w fd bs ≡ (w', r)
      → IsOpen w fd path
      → IsOpen w' fd path
  pub fchmod_IsOpen :
      (w w' : World) (fd mode : ℕ) (path : Bytes) (ok : Bool)
      → fchmod w fd mode ≡ (w', ok)
      → IsOpen w fd path
      → IsOpen w' fd path × (fds.written w' fd ≡ fds.written w fd)
  pub fchown_IsOpen :
      (w w' : World) (fd owner group : ℕ) (path : Bytes) (ok : Bool)
      → fchown w fd owner group ≡ (w', ok)
      → IsOpen w fd path
      → IsOpen w' fd path × (fds.written w' fd ≡ fds.written w fd)
  pub close_file :
      (w : World) (fd : ℕ) (path : Bytes)
      → IsOpen w fd path
      → file (close w fd) path ≡ some (fds.written w fd)
  pub unlink_gone :
      (w w' : World) (path : Bytes) → unlink w path ≡ (w', none) → lstat w' path ≡ failed no_entry
  pub readlink_takes :
      (w : World) (path target : Bytes) (size : ℕ)
      → link w path ≡ some target
      → readlink w path size ≡ some (take size target)
  pub readlink_fails :
      (w : World) (path : Bytes) (size : ℕ) → link w path ≡ none → readlink w path size ≡ none

module _ {World : Type 0} (os : FileOs World) where
  open os use {fds, open_read, open_write, close, fchmod, fchown, unlink, lstat, readlink, strerror}

  -- `CleanUpAfterFailedWrite`, whose result is always false
  unfoldable pub clean_up_after_failed_write : World → Bytes → World × Bool
  clean_up_after_failed_write w path = ((unlink w path).0, false)

  -- The descriptor is closed on the way out.
  unfoldable pub read_file_to_string : ℕ → World → Bytes → Bool → Option (World × Bytes × Bool)
  unfolding read_fd_to_string
  read_file_to_string fuel w path follow =
      let (w1, r) = open_read w path follow in
      elim r [
        | none ↦ some (w1, [], false)
        | some fd ↦ elim (read_fd_to_string fds fuel w1 fd) [
          | none ↦ none
          | some (w2, content, ok) ↦ some (close w2 fd, content, ok)
        ]
      ]

  -- The write to an open descriptor with what is done where it fails, and the closing.
  unfoldable pub write_checked : ℕ → World → Bytes → Bytes → ℕ → Option (World × Bool)
  unfolding write_string_to_fd clean_up_after_failed_write
  write_checked fuel w content path fd = elim (write_string_to_fd fds fuel w content fd) [
    | none ↦ none
    | some (w', ok) ↦
        let (w'', result) = if ok then (w', true) else clean_up_after_failed_write w' path in
        some (close w'' fd, result)
  ]

  unfoldable pub write_string_to_file : ℕ → World → Bytes → Bytes → Bool → Option (World × Bool)
  unfolding write_checked
  write_string_to_file fuel w content path follow =
      let (w1, r) = open_write w path 0x1b6 follow in
      elim r [ none ↦ some (w1, false) | some fd ↦ write_checked fuel w1 content path fd ]

  -- `WriteStringToFile` with a mode, an owner and a group
  unfoldable pub write_owned : ℕ → World → Bytes → Bytes → ℕ → ℕ → ℕ → ℕ → Option (World × Bool)
  unfolding write_checked clean_up_after_failed_write
  write_owned fuel w content path mode owner group fd =
      let (w1, moded) = fchmod w fd mode in
      let (w2, owned) = fchown w1 fd owner group in
      let rest = write_checked fuel w2 content path fd in
      if not moded
      then some (close (clean_up_after_failed_write w1 path).0 fd, false)
      else if not owned
      then some (close (clean_up_after_failed_write w2 path).0 fd, false)
      else rest

  unfoldable pub write_string_to_file_as :
      ℕ → World → Bytes → Bytes → ℕ → ℕ → ℕ → Bool → Option (World × Bool)
  unfolding write_owned
  write_string_to_file_as fuel w content path mode owner group follow =
      let (w1, r) = open_write w path mode follow in
      elim r [
        | none ↦ some (w1, false)
        | some fd ↦ write_owned fuel w1 content path mode owner group fd
      ]

  -- `RemoveFileIfExists`, with the text that it assigns to `err` where that is given
  unfoldable pub remove_file_if_exists : World → Bytes → World × Bool × Option Bytes
  remove_file_if_exists w path = elim (lstat w path) [
    | failed e ↦
        if e == no_entry || e == not_directory
        then (w, true, none)
        else (w, false, some (strerror e))
    | found s ↦
        let (w', r) = unlink w path in
        if not (is_reg s || is_link s)
        then (w, false, some (codes "is not a regular file or symbolic link"))
        else elim r [ none ↦ (w', true, none) | some e ↦ (w', false, some (strerror e)) ]
  ]

  -- The loop of `Readlink`; the inner `none` is that `readlink` fails.
  unfoldable pub readlink_from : ℕ → World → Bytes → ℕ → Option (Option Bytes)
  readlink_from zero w path size = none
  readlink_from (suc fuel) w path size = elim (readlink w path size) [
    | none ↦ some none
    | some target ↦
        let again = readlink_from fuel w path (size * 2) in
        if ltb (length target) size then some (some target) else again
  ]

  unfoldable pub read_link : ℕ → World → Bytes → Option (Option Bytes)
  unfolding readlink_from
  read_link fuel w path = readlink_from fuel w path 4096

  -- `GetExecutablePath`
  unfoldable pub get_executable_path : ℕ → World → Option Bytes
  unfolding read_link
  get_executable_path fuel w = elim (read_link fuel w (codes "/proc/self/exe")) [
    | none ↦ none
    | some none ↦ some []
    | some (some path) ↦ some path
  ]
