-- ===== src/Logging/Macros.antt =====
-- libsrc/libcpputils/cpputils-base/logging.h: the macros that log.
--
-- A text that is streamed in is evaluated only where a message is made; here it is an argument, since
-- its evaluation changes nothing. `__FILE__`, `__LINE__` and `LOG_TAG` are a record.
use cpp_temp_learn.Prelude.{
  c_text, ℕ, zero, suc, Bool, true, false, not, ◌++◌, Option, none, some, Bytes, codes, equal, ◌==◌,
  if◌then◌else◌,
}
use cpp_temp_learn.Logging.{LogSeverity, fatal, LogId, default, Host, Logging, would_log}
use cpp_temp_learn.Logging.Messages.{log_message, insert_text, destroy_message}

-- The place of a macro's use.
pub record Place : Type 0 where
  pub file : Bytes
  pub line : ℕ
  pub log_tag : Option Bytes

module _ {World : Type 0} (host : Host World) where
  open host use {errno, set_errno}

  -- `LOG_STREAM_TO` with the texts that are streamed in, up to the end of the full expression
  unfoldable pub log_stream_to :
      Place → LogId → LogSeverity → Bytes → Logging World → World → Option (Logging World × World)
  unfolding log_message insert_text destroy_message
  log_stream_to at dest severity text s w =
      destroy_message host
        (insert_text (log_message at.file at.line dest severity at.log_tag none) text) s w

  -- `~ErrnoRestorer`
  unfoldable pub restore_errno : ℕ → Option (Logging World × World) → Option (Logging World × World)
  restore_errno saved none = none
  restore_errno saved (some (s, w)) = some (s, set_errno w saved)

  -- `LOG_TO`
  unfoldable pub log_to :
      Place → LogId → LogSeverity → Bytes → Logging World → World → Option (Logging World × World)
  unfolding would_log log_stream_to restore_errno
  log_to at dest severity text s w =
      if would_log s severity
      then restore_errno (errno w) (log_stream_to at dest severity text s w)
      else some (s, w)

  -- `PLOG_TO`
  unfoldable pub plog_to :
      Place → LogId → LogSeverity → Bytes → Logging World → World → Option (Logging World × World)
  unfolding would_log log_message insert_text destroy_message restore_errno
  plog_to at dest severity text s w =
      if would_log s severity
      then restore_errno (errno w) (
          destroy_message host
            (insert_text (log_message at.file at.line dest severity at.log_tag (some (errno w)))
              text)
            s w)
      else some (s, w)

  -- `LOG` and `PLOG`
  unfoldable pub log :
      Place → LogSeverity → Bytes → Logging World → World → Option (Logging World × World)
  unfolding log_to
  log at severity text s w = log_to at default severity text s w

  unfoldable pub plog :
      Place → LogSeverity → Bytes → Logging World → World → Option (Logging World × World)
  unfolding plog_to
  plog at severity text s w = plog_to at default severity text s w

  -- the message of a failed check, which goes to `LogMessage` directly
  unfoldable pub fail_check : Place → Bytes → Logging World → World → Option (Logging World × World)
  unfolding log_stream_to
  fail_check at text s w = log_stream_to at default fatal text s w

  -- `CHECK(x)`, where `shown` is `#x` and `extra` what is streamed in
  unfoldable pub check :
      Place → Bool → Bytes → Bytes → Logging World → World → Option (Logging World × World)
  unfolding fail_check
  check at x shown extra s w =
      if x
      then some (s, w)
      else fail_check at (codes "Check failed: " ++ (shown ++ (codes " " ++ extra))) s w

  -- The loops of `CHECK_OP` and `CHECK_STROP`, whose condition does not change. They run on fuel;
  -- the first none is that it ran out, the second that the program does not go on.
  unfoldable pub check_loop :
      ℕ → Place → Bool → Bytes → Logging World → World → Option (Option (Logging World × World))
  unfolding fail_check
  check_loop zero at holds text s w = if holds then some (some (s, w)) else none
  check_loop (suc fuel) at holds text s w = elim holds [
    | true ↦ some (some (s, w))
    | false ↦ elim (fail_check at text s w) [
      | none ↦ some none
      | some (s', w') ↦ check_loop fuel at false text s' w'
    ]
  ]

  -- `CHECK_OP(LHS, RHS, OP)`: the texts are `#LHS`, `#OP` and `#RHS`, and `show` is `<<` on the
  -- values, which `MakeEagerEvaluator` has evaluated once.
  unfoldable pub check_op :
      {A : Type 0}
      → (A → Bytes)
      → (A → A → Bool)
      → ℕ
      → Place
      → A
      → A
      → Bytes
      → Bytes
      → Bytes
      → Bytes
      → Logging World
      → World
      → Option (Option (Logging World × World))
  unfolding check_loop
  check_op show op fuel at lhs rhs lhs_text op_text rhs_text extra s w =
      check_loop fuel at (op lhs rhs)
        (codes "Check failed: "
          ++ (lhs_text
              ++ (codes " "
                  ++ (op_text
                      ++ (codes " "
                          ++ (rhs_text
                              ++ (codes " ("
                                  ++ (lhs_text
                                      ++ (codes "="
                                          ++ (show lhs
                                              ++ (codes ", "
                                                  ++ (rhs_text
                                                      ++ (codes "="
                                                          ++ (show rhs
                                                            ++ (codes ") " ++ extra)))))))))))))))
        s w

  -- `CHECK_STROP(s1, s2, sense)`
  unfoldable pub check_strop :
      ℕ
      → Place
      → Bytes
      → Bytes
      → Bool
      → Bytes
      → Logging World
      → World
      → Option (Option (Logging World × World))
  unfolding check_loop c_text equal
  check_strop fuel at s1 s2 sense extra s w =
      check_loop fuel at
        (if sense then equal (c_text s1) (c_text s2) else not (equal (c_text s1) (c_text s2)))
        (codes "Check failed: "
          ++ (codes "\""
              ++ (c_text s1
                  ++ (codes "\""
                      ++ ((if sense then codes " == " else codes " != ")
                          ++ (codes "\"" ++ (c_text s2 ++ (codes "\"" ++ extra))))))))
        s w

  -- `CHECK_PTHREAD_CALL`, behind the call, which returned `rc`
  unfoldable pub check_pthread_call :
      Place → ℕ → Bytes → Bytes → Logging World → World → Option (Logging World × World)
  unfolding plog
  check_pthread_call at rc call what s w =
      if rc == 0
      then some (s, w)
      else plog at fatal (call ++ (codes " failed for " ++ what)) s (set_errno w rc)

  -- `DCHECK(x)`, with `kEnableDChecks`
  unfoldable pub dcheck :
      Bool → Place → Bool → Bytes → Bytes → Logging World → World → Option (Logging World × World)
  unfolding check
  dcheck enable_d_checks at x shown extra s w =
      if enable_d_checks then check at x shown extra s w else some (s, w)
