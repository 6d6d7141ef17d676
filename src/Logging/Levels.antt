-- ===== src/Logging/Levels.antt =====
-- libsrc/libcpputils/logging.cpp: the minimum severity that `InitLogging` sets.
use cpp_temp_learn.Prelude.{
  true, false, equal, if◌then◌else◌, List, [], ◌∷◌, Option, none, some, ◌≡◌, refl, sym, ap, arith,
  ◌∙◌, inl, inr, ◌>>=◌, Bytes, codes, Option-cases,
}
use cpp_temp_learn.Strings.{split, split_from, starts_with}
use cpp_temp_learn.Logging.{
  LogSeverity, verbose, debug, info, warning, error, fatal_without_abort, LogFunction, Host,
  Logging, default_aborter, set_default_tag, set_logger, set_aborter,
}
use cpp_temp_learn.Logging.Errno.{log-default}
use cpp_temp_learn.Logging.Macros.{Place}
use cpp_temp_learn.Logging.Configuration.{
  letter_severity, spec_severity, unsupported, configure, init_logging,
}

-- The specs that the code supports, each with its severity.
abbrev pub levels : List (Bytes × LogSeverity)
levels =
    (codes "*:v", verbose)
    ∷ (codes "*:d", debug)
    ∷ (codes "*:i", info)
    ∷ (codes "*:w", warning)
    ∷ (codes "*:e", error)
    ∷ (codes "*:f", fatal_without_abort)
    ∷ (codes "*:s", fatal_without_abort)
    ∷ []

-- The severity of a spec in such a list.
abbrev pub level_in : List (Bytes × LogSeverity) → Bytes → Option LogSeverity
level_in [] spec = none
level_in ((name, v) ∷ rest) spec = if equal name spec then some v else level_in rest spec

-- The severity of the last of some specs, or the one before where there is none; none where some spec
-- is not in the list.
abbrev pub last_severity : LogSeverity → List Bytes → Option LogSeverity
last_severity v [] = some v
last_severity v (spec ∷ specs) = level_in levels spec >>= λ u. last_severity u specs

-- The code's test of the length, the prefix and the letter finds what is in the list.
spec_severity-level_in : (spec : Bytes) → spec_severity spec ≡ level_in levels spec
unfolding spec_severity letter_severity starts_with equal
spec_severity-level_in [] = refl
spec_severity-level_in (a ∷ []) = ground arith
spec_severity-level_in (a ∷ b ∷ []) = ground arith
spec_severity-level_in (a ∷ b ∷ c ∷ []) = ground arith
spec_severity-level_in (a ∷ b ∷ c ∷ d ∷ s) = ground arith

-- The default tag behind the setting of a program's name, if there is one.
abbrev pub new_tag : Option Bytes → Option Bytes → Option Bytes
new_tag none old = old
new_tag (some []) old = none
new_tag (some (c ∷ n)) old = some (c ∷ n)

module _ {World : Type 0} (host : Host World) where
  -- `LOG(FATAL)` does not come back from the default aborter.
  unsupported-default :
      (at : Place) (tags spec : Bytes) (s : Logging World) (w : World)
      → s.aborter ≡ default_aborter
      → unsupported host at tags spec s w ≡ none
  unfolding unsupported
  unsupported-default at tags spec s w e = log-default host at _ s w e

  configure_stops :
      (at : Place) (tags spec : Bytes) (specs : List Bytes) (s : Logging World) (w : World)
      → s.aborter ≡ default_aborter
      → spec_severity spec ≡ none
      → configure host at tags (spec ∷ specs) s w ≡ none
  unfolding configure
  configure_stops at tags spec specs s w e h =
      rw (h, unsupported-default at tags spec s w e, configure) refl

  configure_goes :
      (at : Place) (tags spec : Bytes) (specs : List Bytes) (s : Logging World) (w : World)
      (v : LogSeverity)
      → spec_severity spec ≡ some v
      → configure host at tags (spec ∷ specs) s w
        ≡ configure host at tags specs (record s { minimum = v }) w
  unfolding configure
  configure_goes at tags spec specs s w v h = rw (h, configure) refl

  after :
      (spec : Bytes) (specs : List Bytes) (s : Logging World) (w : World) (r : Option LogSeverity)
      → r ≡ level_in levels spec
      → ◌≡◌ {A = Option (Logging World × World)}
          ((r >>= λ u. last_severity u specs) >>= λ v. some (record s { minimum = v }, w))
          (last_severity s.minimum (spec ∷ specs) >>= λ v. some (record s { minimum = v }, w))
  after spec specs s w r e =
      ap
        (λ (q : Option LogSeverity).
          (q >>= λ u. last_severity u specs) >>= λ v. some (record s { minimum = v }, w))
        e

  configure-last_severity :
      (at : Place) (tags : Bytes) (specs : List Bytes) (s : Logging World) (w : World)
      → s.aborter ≡ default_aborter
      → configure host at tags specs s w
        ≡ (last_severity s.minimum specs >>= λ v. some (record s { minimum = v }, w))
  unfolding configure
  configure-last_severity at tags [] s w e = refl
  configure-last_severity at tags (spec ∷ specs) s w e = elim (Option-cases (spec_severity spec)) [
    | inl h ↦
        configure_stops at tags spec specs s w e h
        ∙ after spec specs s w none (sym h ∙ spec_severity-level_in spec)
    | inr (v, h) ↦
        configure_goes at tags spec specs s w v h
        ∙ configure-last_severity at tags specs (record s { minimum = v }) w e
        ∙ after spec specs s w (some v) (sym h ∙ spec_severity-level_in spec)
  ]

  -- The state behind the first call, with a minimum.
  abbrev pub first : Option Bytes → LogFunction World → LogSeverity → Logging World → Logging World
  first argv logger v s = record {
    logger = logger;
    aborter = default_aborter;
    default_tag = new_tag argv s.default_tag;
    initialized = true;
    minimum = v;
  }

  init_logging-configure :
      (at : Place) (argv : Option Bytes) (logger : LogFunction World) (tags : Bytes)
      (s : Logging World) (w : World)
      → s.initialized ≡ false
      → init_logging host at argv logger default_aborter (some tags) s w
        ≡ configure host at tags (split_from (codes " ") [] tags) (first argv logger s.minimum s) w
  unfolding init_logging set_logger set_aborter set_default_tag
  init_logging-configure at none logger tags s w e = rw (e, init_logging) refl
  init_logging-configure at (some []) logger tags s w e = rw (e, init_logging) refl
  init_logging-configure at (some (c ∷ n)) logger tags s w e = rw (e, init_logging) refl

  -- On its first call, with the default aborter, `InitLogging` sets the severity of the last spec
  -- of ANDROID_LOG_TAGS, and the program goes on just where each spec between the blanks is one of
  -- '*:v' (verbose), '*:d' (debug), '*:i' (info), '*:w' (warning), '*:e' (error), and '*:f' and
  -- '*:s' (both fatal without abort). Nothing but the state of the logger changes.
  pub init_logging-last_severity :
      (at : Place) (argv : Option Bytes) (logger : LogFunction World) (tags : Bytes)
      (s : Logging World) (w : World)
      → s.initialized ≡ false
      → (specs : List Bytes) × (split tags (codes " ") ≡ some specs)
        × (init_logging host at argv logger default_aborter (some tags) s w
            ≡ (last_severity s.minimum specs >>= λ v. some (first argv logger v s, w)))
  init_logging-last_severity at argv logger tags s w e =
      let specs = split_from (codes " ") [] tags in
      (
        specs,
        unfold split in refl,
        init_logging-configure at argv logger tags s w e
            ∙ configure-last_severity at tags specs (first argv logger s.minimum s) w refl,
      )
