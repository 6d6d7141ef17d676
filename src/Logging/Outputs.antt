-- ===== src/Logging/Outputs.antt =====
-- libsrc/libcpputils/logging.cpp: the loggers that print, and the file that they print to.
--
-- The build sets `LOG_FILE`, or does not. `dirname` is the C library's; `fopen` is in append mode. The
-- loop of `CreateDirPath` is text for text that of `FsObject::makePath`, and so is its definition.
pub mod LogFile
use cpp_temp_learn.Prelude.{
  ℕ, zero, suc, ◌-◌, ◌+◌, Bool, true, false, not, ◌&&◌, ◌||◌, ◌==◌, [], ◌∷◌, ◌++◌, Option, none,
  some, Bytes, codes, length, is_empty, leb, ltb, decimal, c_text, if◌then◌else◌,
}
use cpp_temp_learn.FilePath.{slash}
use cpp_temp_learn.FileSystem.{Os}
use cpp_temp_learn.FsObject.Making.{make_directories}
use cpp_temp_learn.Logging.{
  LogSeverity, verbose, debug, info, warning, error, fatal_without_abort, fatal, LogId, rank,
  get_file_basename,
}

-- PATH_MAX_STRING_SIZE
abbrev pub path_max_string_size : ℕ
path_max_string_size = 256

-- `log_characters`
unfoldable pub log_character : LogSeverity → ℕ
log_character verbose = b'V'
log_character debug = b'D'
log_character info = b'I'
log_character warning = b'W'
log_character error = b'E'
log_character fatal_without_abort = b'F'
log_character fatal = b'F'

pub data Stream : Type 0 where
  log_file : ℕ → Stream
  standard_error standard_output : Stream

-- `outfile ? outfile : other`
unfoldable pub stream_or : Option ℕ → Stream → Stream
stream_or none other = other
stream_or (some f) other = log_file f

-- `%5d` of a number that is not negative
unfoldable pub padded : ℕ → Bytes
unfolding decimal
padded n = pad (5 - length (decimal n)) (decimal n)
  where
    pad : ℕ → Bytes → Bytes
    pad zero s = s
    pad (suc k) s = b' ' ∷ pad k s

-- `len == 1 && *dname == c`
unfoldable pub is_byte : ℕ → Bytes → Bool
is_byte c [] = false
is_byte c (d ∷ []) = d == c
is_byte c (d ∷ e ∷ s) = false

-- The names of directories that `GetLogFile` does not make.
unfoldable pub is_here : Bytes → Bool
unfolding is_byte
is_here name = is_empty name || is_byte b'.' name || is_byte b'/' name

-- What the printing loggers take from the system, beyond the calls on files.
pub record PrintOs (World : Type 0) : Type 0 where
  pub dirname : Bytes → Bytes
  pub fopen : World → Bytes → World × Option ℕ
  pub print : World → Stream → Bytes → World
  pub flush : World → Stream → World
  pub timestamp : World → Bytes
  pub pid : ℕ
  pub thread_id : ℕ
  pub getprogname : Bytes

module _ (os : Os) where
  open os use {World}

  -- `CreateDirPath`
  unfoldable pub create_dir_path : Bytes → ℕ → World → World × Bool
  unfolding make_directories
  create_dir_path dir mode w =
      if is_empty dir || leb path_max_string_size (length dir)
      then (w, false)
      else make_directories os mode dir w

  module _ (out : PrintOs World) where
    open out use {dirname, fopen, print, flush, timestamp, pid, thread_id, getprogname}

    -- The directory that is made before the file is opened, if it is neither "." nor "/".
    unfoldable pub make_log_directory : Bytes → World → World × Bool
    unfolding create_dir_path is_here
    make_log_directory path w =
        let name = dirname path in if is_here name then (w, true) else create_dir_path name 0x1ff w

    -- `GetLogFile`, on `LOG_FILE` and `ret`: `ret` is what it returns, but where `LOG_FILE` is empty.
    unfoldable pub get_log_file : Option Bytes → Option ℕ → World → World × Option ℕ
    unfolding make_log_directory get_file_basename
    get_log_file none ret w = (w, none)
    get_log_file (some path) ret w =
        let (w', made) = make_log_directory path w in
        let (w'', f) = fopen w' path in
        if is_empty path then (w, none) else elim ret [
          | some f' ↦ (w, some f')
          | none ↦
              if is_empty (get_file_basename path)
              then (w, none)
              else if made
              then (w'', f)
              else (w', none)
        ]

    -- The line that `StderrLogger` prints.
    unfoldable pub stderr_line : LogSeverity → Option Bytes → Bytes → ℕ → Bytes → World → Bytes
    unfolding log_character padded decimal c_text
    stderr_line severity tag file line message w =
        let name : Bytes = elim tag [ none ↦ codes "nullptr" | some t ↦ c_text t ] in
        let place = c_text file ++ (b':' ∷ (decimal line ++ codes "] ")) in
        let process = padded pid ++ (b' ' ∷ padded thread_id) in
        let stamp = timestamp w ++ (b' ' ∷ (process ++ (b' ' ∷ place))) in
        name ++ (b' ' ∷ log_character severity ∷ b' ' ∷ (stamp ++ (c_text message ++ 10 ∷ [])))

    -- `StderrLogger`: `ret` of `GetLogFile` and the world
    unfoldable pub stderr_logger :
        Option Bytes
        → LogSeverity
        → Option Bytes
        → Bytes
        → ℕ
        → Bytes
        → Option ℕ × World
        → Option ℕ × World
    unfolding get_log_file stream_or stderr_line
    stderr_logger path severity tag file line message (ret, w) =
        let (w', f) = get_log_file path ret w in
        let to = stream_or f standard_error in
        (f, flush (print w' to (stderr_line severity tag file line message w)) to)

    -- `StdioLogger`
    unfoldable pub stdio_logger :
        Option Bytes → LogSeverity → Bytes → Option ℕ × World → Option ℕ × World
    unfolding get_log_file stream_or rank get_file_basename c_text
    stdio_logger path severity message (ret, w) =
        let (w', f) = get_log_file path ret w in
        let to_error = stream_or f standard_error in
        let to_output = stream_or f standard_output in
        let named = get_file_basename getprogname ++ (codes ": " ++ (c_text message ++ 10 ∷ [])) in
        if leb (rank warning) (rank severity)
        then (f, flush (print w' to_error named) to_error)
        else (f, flush (print w' to_output (c_text message ++ 10 ∷ [])) to_output)
