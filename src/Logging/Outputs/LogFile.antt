-- ===== src/Logging/Outputs/LogFile.antt =====
-- libsrc/libcpputils/logging.cpp: the directories of the log file.
use cpp_temp_learn.Prelude.{
  ℕ, ◌<◌, Bool, true, false, ◌||◌, none, some, ◌≡◌, refl, ap, ◌⊎◌, inl, inr, arith, Bytes, length,
  is_empty, leb, without_last, Bool-cases,
}
use cpp_temp_learn.FilePath.{slash}
use cpp_temp_learn.FileSystem.{directory, Holds, Os}
use cpp_temp_learn.FsObject.Making.{make_directories}
use cpp_temp_learn.FsObject.Directories.{make_directories-Holds}
use cpp_temp_learn.Logging.{get_file_basename}
use cpp_temp_learn.Logging.Outputs.{
  PrintOs, path_max_string_size, is_here, create_dir_path, make_log_directory, get_log_file,
}

module _ (os : Os) where
  open os use {World, stat}

  -- A path that is empty or does not fit the buffer is refused before anything is done.
  refused : Bytes → Bool
  refused dir = is_empty dir || leb path_max_string_size (length dir)

  create_goes :
      (dir : Bytes) (mode : ℕ) (w : World)
      → refused dir ≡ false
      → create_dir_path os dir mode w ≡ make_directories os mode dir w
  unfolding create_dir_path refused
  create_goes dir mode w e = rw (e, create_dir_path) refl

  create_refuses :
      (dir : Bytes) (mode : ℕ) (w : World)
      → refused dir ≡ true
      → create_dir_path os dir mode w ≡ (w, false)
  unfolding create_dir_path refused
  create_refuses dir mode w e = rw (e, create_dir_path) refl

  refused-lt : (dir : Bytes) → refused dir ≡ false → length dir < path_max_string_size
  unfolding refused
  refused-lt dir e = ground (arith, e)

  create_dir_path-Holds :
      (dir : Bytes) (mode : ℕ) (w : World)
      → (create_dir_path os dir mode w).1 ≡ true
      → Holds (stat (create_dir_path os dir mode w).0 (without_last slash dir)) directory
        × (length dir < path_max_string_size)
  create_dir_path-Holds dir mode w h = elim (Bool-cases (refused dir)) [
    | inl e ↦ absurd (cc (rw (create_refuses dir mode w e) at h))
    | inr e ↦ (
      rw (create_goes dir mode w e)
          (make_directories-Holds os mode dir w (rw (create_goes dir mode w e) at h)),
      refused-lt dir e,
    )
  ]

  module _ (out : PrintOs World) where
    open out use {dirname, fopen}

    -- The directory of the log file is one that is not made, or it stands.
    abbrev pub Stands : World → Bytes → Type 0
    Stands w path =
        (is_here (dirname path) ≡ true)
        ⊎ (Holds (stat w (without_last slash (dirname path))) directory
            × (length (dirname path) < path_max_string_size))

    make_log_directory-Stands :
        (path : Bytes) (w : World)
        → (make_log_directory os out path w).1 ≡ true
        → Stands (make_log_directory os out path w).0 path
    unfolding make_log_directory
    make_log_directory-Stands path w h = elim (Bool-cases (is_here (dirname path))) [
      | inl e ↦ inl e
      | inr e ↦ inr (
          rw (e, make_log_directory)
            (create_dir_path-Holds (dirname path) 0x1ff w (rw (e, make_log_directory) at h)))
    ]

    -- `GetLogFile` opens the file, when it has not done so before, only where the directory of its path
    -- stands at that time, if it is not "." or "/".
    pub get_log_file-Stands :
        (path : Bytes) (w w' : World) (f : ℕ)
        → get_log_file os out (some path) none w ≡ (w', some f)
        → (w1 : World) × Stands w1 path × (fopen w1 path ≡ (w', some f))
    unfolding get_log_file
    get_log_file-Stands path w w' f h = elim (Bool-cases (is_empty path)) [
      | inl e ↦ absurd (cc (ap (λ r. r.1) (rw (e, get_log_file) at h)))
      | inr e ↦ elim (Bool-cases (is_empty (get_file_basename path))) [
        | inl b ↦ absurd (cc (ap (λ r. r.1) (rw (e, b, get_log_file) at h)))
        | inr b ↦ elim (Bool-cases (make_log_directory os out path w).1) [
          | inl m ↦ (
            (make_log_directory os out path w).0,
            make_log_directory-Stands path w m,
            rw (e, b, m, get_log_file) at h,
          )
          | inr m ↦ absurd (cc (ap (λ r. r.1) (rw (e, b, m, get_log_file) at h)))
        ]
      ]
    ]
