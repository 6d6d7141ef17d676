-- ===== src/Logging.antt =====
-- libsrc/libcpputils/logging.cpp and libsrc/libcpputils/cpputils-base/logging.h: the state of the
-- logger, messages and how they are delivered, and the macros that make them.
--
-- The statics of logging.cpp are a record. `World` is all that the loggers, the aborter and errno
-- change. An aborter returns none where it does not return. Texts that a function gets as `const
-- char *` end at their first NUL byte. The locks are not modelled: a logger that logs would wait for
-- itself.
pub mod Messages
pub mod Macros
pub mod Configuration
pub mod Kernel
pub mod Outputs
pub mod Delivery
pub mod Errno
pub mod Levels
mod Tests
use cpp_temp_learn.Prelude.{
  ℕ, suc, Bool, true, false, List, [], ◌∷◌, ◌++◌, Option, none, some, ◌≡◌, Bytes, drop, leb, equal,
  codes, is_empty, find_last_byte, if◌then◌else◌, ◌==◌,
}

pub data LogSeverity : Type 0 where
  verbose debug info warning error fatal_without_abort fatal : LogSeverity

pub data LogId : Type 0 where
  default main system : LogId

-- the value of the enumerator
unfoldable pub rank : LogSeverity → ℕ
rank verbose = 0
rank debug = 1
rank info = 2
rank warning = 3
rank error = 4
rank fatal_without_abort = 5
rank fatal = 6

-- `GetFileBasename`
unfoldable pub get_file_basename : Bytes → Bytes
get_file_basename file = elim (find_last_byte b'/' file) [
  | some i ↦ drop (suc i) file
  | none ↦ file
]

-- The arguments are the log, the severity, the tag, with none for nullptr, the file, the line and
-- the message.
abbrev pub LogFunction : Type 0 → Type 0
LogFunction World = LogId → LogSeverity → Option Bytes → Bytes → ℕ → Bytes → World → World

abbrev pub AbortFunction : Type 0 → Type 0
AbortFunction World = Bytes → World → Option World

-- `DefaultAborter`
unfoldable pub default_aborter : {World : Type 0} → AbortFunction World
default_aborter abort_message w = none

-- What the code takes from the system.
pub record Host (World : Type 0) : Type 0 where
  pub strerror : ℕ → Bytes
  pub getprogname : Bytes
  pub errno : World → ℕ
  pub set_errno : World → ℕ → World
  pub errno_set : (w : World) (e : ℕ) → errno (set_errno w e) ≡ e

pub record Logging (World : Type 0) : Type 0 where
  pub logger : LogFunction World
  pub aborter : AbortFunction World
  pub default_tag : Option Bytes
  pub initialized : Bool
  pub minimum : LogSeverity

module _ {World : Type 0} where
  -- `GetDefaultTag`
  unfoldable pub get_default_tag : Logging World → Bytes
  get_default_tag s = elim s.default_tag [ none ↦ [] | some tag ↦ tag ]

  -- `SetDefaultTag`
  unfoldable pub set_default_tag : Logging World → Bytes → Logging World
  set_default_tag s tag = record s { default_tag = if is_empty tag then none else some tag }

  -- `SetMinimumLogSeverity`: the old severity is returned
  unfoldable pub set_minimum : Logging World → LogSeverity → Logging World × LogSeverity
  set_minimum s severity = (record s { minimum = severity }, s.minimum)

  -- `SetLogger` and `SetAborter`
  unfoldable pub set_logger : Logging World → LogFunction World → Logging World
  set_logger s logger = record s { logger = logger }

  unfoldable pub set_aborter : Logging World → AbortFunction World → Logging World
  set_aborter s aborter = record s { aborter = aborter }

  -- `WOULD_LOG`
  unfoldable pub would_log : Logging World → LogSeverity → Bool
  unfolding rank
  would_log s severity = leb (rank s.minimum) (rank severity)

  -- A block with a `ScopedLogSeverity` in front of it.
  unfoldable pub scoped_severity :
      {A : Type 0}
      → LogSeverity
      → (Logging World → Logging World × A)
      → Logging World
      → Logging World × A
  unfolding set_minimum
  scoped_severity severity block s =
      let (s', old) = set_minimum s severity in
      let (s'', a) = block s' in ((set_minimum s'' old).0, a)
