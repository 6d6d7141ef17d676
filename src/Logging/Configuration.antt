-- ===== src/Logging/Configuration.antt =====
-- libsrc/libcpputils/logging.cpp: `InitLogging`.
use cpp_temp_learn.Prelude.{
  ℕ, true, false, List, [], ◌∷◌, ◌++◌, Option, none, some, ◌&&◌, Bytes, codes, length, ◌==◌, get_or,
  if◌then◌else◌,
}
use cpp_temp_learn.Strings.{split, starts_with}
use cpp_temp_learn.Logging.{
  LogSeverity, verbose, debug, info, warning, error, fatal_without_abort, fatal, LogFunction,
  AbortFunction, Host, Logging, set_default_tag, set_logger, set_aborter,
}
use cpp_temp_learn.Logging.Macros.{Place, log}

-- The `switch` on the letter.
unfoldable pub letter_severity : ℕ → Option LogSeverity
letter_severity c =
    if c == b'v'
    then some verbose
    else if c == b'd'
    then some debug
    else if c == b'i'
    then some info
    else if c == b'w'
    then some warning
    else if c == b'e'
    then some error
    else if c == b'f'
    then some fatal_without_abort
    else if c == b's'
    then some fatal_without_abort
    else none

-- The severity of a spec, where it is supported.
unfoldable pub spec_severity : Bytes → Option LogSeverity
unfolding letter_severity starts_with
spec_severity spec = elim (length spec == 3 && starts_with spec (codes "*:")) [
  | true ↦ letter_severity (get_or spec 2 0)
  | false ↦ none
]

module _ {World : Type 0} (host : Host World) where
  -- `LOG(FATAL)` on a spec that is not supported
  unfoldable pub unsupported :
      Place → Bytes → Bytes → Logging World → World → Option (Logging World × World)
  unfolding log
  unsupported at tags spec s w =
      log host at fatal
        (codes "unsupported '"
          ++ (spec ++ (codes "' in ANDROID_LOG_TAGS (" ++ (tags ++ codes ")"))))
        s w

  -- the loop over the specs
  unfoldable pub configure :
      Place → Bytes → List Bytes → Logging World → World → Option (Logging World × World)
  unfolding spec_severity unsupported
  configure at tags [] s w = some (s, w)
  configure at tags (spec ∷ specs) s w = elim (spec_severity spec) [
    | some severity ↦ configure at tags specs (record s { minimum = severity }) w
    | none ↦ elim (unsupported at tags spec s w) [
      | none ↦ none
      | some (s', w') ↦ configure at tags specs s' w'
    ]
  ]

  -- `InitLogging`, where `argv` is none for nullptr and the basename of `argv[0]` otherwise, and
  -- `tags` is what `getenv` gives.
  unfoldable pub init_logging :
      Place
      → Option Bytes
      → LogFunction World
      → AbortFunction World
      → Option Bytes
      → Logging World
      → World
      → Option (Logging World × World)
  unfolding set_logger set_aborter set_default_tag split configure
  init_logging at argv logger aborter tags s w =
      let s1 = set_aborter (set_logger s logger) aborter in
      let s2 : Logging World = record s1 { initialized = true } in
      let s3 : Logging World = elim argv [ none ↦ s2 | some name ↦ set_default_tag s2 name ] in
      elim s.initialized [
        | true ↦ some (s1, w)
        | false ↦ elim tags [
          | none ↦ some (s3, w)
          | some text ↦ elim (split text (codes " ")) [
            | none ↦ none
            | some specs ↦ configure at text specs s3 w
          ]
        ]
      ]
