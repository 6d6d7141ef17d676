-- ===== src/Logging/Errno.antt =====
-- libsrc/libcpputils/cpputils-base/logging.h: what the macros leave of errno and of the program.
use cpp_temp_learn.Prelude.{
  ℕ, suc, Bool, true, false, none, some, ◌≡◌, refl, sym, ap, ◌∙◌, inl, inr, Option, some_inj, Bytes,
  Bool-cases, if◌then◌else◌,
}
use cpp_temp_learn.Logging.{
  LogSeverity, fatal, LogId, default, Host, Logging, would_log, default_aborter,
}
use cpp_temp_learn.Logging.Messages.{log_message, insert_text}
use cpp_temp_learn.Logging.Delivery.{destroy_message-fatal, would_log-fatal}
use cpp_temp_learn.Logging.Macros.{
  Place, restore_errno, log_to, plog_to, log_stream_to, fail_check, check_loop, check_op, log,
}

module _ {World : Type 0} (host : Host World) where
  open host use {errno, set_errno, errno_set}

  restore_errno-errno :
      (saved : ℕ) (r : Option (Logging World × World)) (s' : Logging World) (w' : World)
      → restore_errno host saved r ≡ some (s', w')
      → errno w' ≡ saved
  unfolding restore_errno
  restore_errno-errno saved none s' w' h = absurd cc
  restore_errno-errno saved (some (s, w)) s' w' h =
      ap (λ r. errno r.1) (sym (some_inj h)) ∙ errno_set w saved

  log_to-errno :
      (at : Place) (dest : LogId) (severity : LogSeverity) (text : Bytes) (s s' : Logging World)
      (w w' : World)
      → log_to host at dest severity text s w ≡ some (s', w')
      → errno w' ≡ errno w
  unfolding log_to
  log_to-errno at dest severity text s s' w w' h = elim (Bool-cases (would_log s severity)) [
    | inl e ↦ restore_errno-errno (errno w) _ s' w' (rw (e, log_to) at h)
    | inr e ↦ ap (λ r. errno r.1) (sym (some_inj (rw (e, log_to) at h)))
  ]

  plog_to-errno :
      (at : Place) (dest : LogId) (severity : LogSeverity) (text : Bytes) (s s' : Logging World)
      (w w' : World)
      → plog_to host at dest severity text s w ≡ some (s', w')
      → errno w' ≡ errno w
  unfolding plog_to
  plog_to-errno at dest severity text s s' w w' h = elim (Bool-cases (would_log s severity)) [
    | inl e ↦ restore_errno-errno (errno w) _ s' w' (rw (e, plog_to) at h)
    | inr e ↦ ap (λ r. errno r.1) (sym (some_inj (rw (e, plog_to) at h)))
  ]

  -- Where `LOG` and `PLOG` let the program go on, `errno` is what it was, whatever the logger and the
  -- aborter do to it, and whether the message is logged or not.
  pub log_to-plog_to-errno :
      (at : Place) (dest : LogId) (severity : LogSeverity) (text : Bytes) (s : Logging World)
      (w : World)
      → ((s' : Logging World) (w' : World)
          → log_to host at dest severity text s w ≡ some (s', w')
          → errno w' ≡ errno w)
        × ((s' : Logging World) (w' : World)
            → plog_to host at dest severity text s w ≡ some (s', w')
            → errno w' ≡ errno w)
  log_to-plog_to-errno at dest severity text s w = (
    (λ s' w'. log_to-errno at dest severity text s s' w w'),
    (λ s' w'. plog_to-errno at dest severity text s s' w w'),
  )

  fail_check-default :
      (at : Place) (text : Bytes) (s : Logging World) (w : World)
      → s.aborter ≡ default_aborter
      → fail_check host at text s w ≡ none
  unfolding fail_check log_stream_to log_message insert_text default_aborter
  fail_check-default at text s w e =
      let m = insert_text (log_message at.file at.line default fatal at.log_tag none) text in
      let (ps, msg, h, i, d) = destroy_message-fatal host m s w refl in d ∙ rw e refl

  log_to_logged :
      (at : Place) (dest : LogId) (severity : LogSeverity) (text : Bytes) (s : Logging World)
      (w : World)
      → would_log s severity ≡ true
      → log_to host at dest severity text s w
        ≡ restore_errno host (errno w) (log_stream_to host at dest severity text s w)
  unfolding log_to
  log_to_logged at dest severity text s w e = rw (e, log_to) refl

  -- `LOG(FATAL)` does not come back from the default aborter.
  pub log-default :
      (at : Place) (text : Bytes) (s : Logging World) (w : World)
      → s.aborter ≡ default_aborter
      → log host at fatal text s w ≡ none
  unfolding log fail_check restore_errno
  log-default at text s w e =
      log_to_logged at default fatal text s w (would_log-fatal host s)
      ∙ ap (restore_errno host (errno w)) (fail_check-default at text s w e)

  check_loop-default :
      (fuel : ℕ) (at : Place) (holds : Bool) (text : Bytes) (s : Logging World) (w : World)
      → s.aborter ≡ default_aborter
      → check_loop host (suc fuel) at holds text s w ≡ some (if holds then some (s, w) else none)
  unfolding check_loop
  check_loop-default fuel at true text s w e = refl
  check_loop-default fuel at false text s w e =
      rw (fail_check-default at text s w e, check_loop) refl

  -- With the default aborter one round of the loop is enough for `CHECK_OP`: it changes nothing where
  -- the comparison holds, and the program does not go on where it does not.
  pub check_op-default :
      {A : Type 0}
      → (show : A → Bytes) (op : A → A → Bool) (fuel : ℕ) (at : Place) (lhs rhs : A)
      → (lhs_text op_text rhs_text extra : Bytes) (s : Logging World) (w : World)
      → s.aborter ≡ default_aborter
      → check_op host show op (suc fuel) at lhs rhs lhs_text op_text rhs_text extra s w
        ≡ some (if op lhs rhs then some (s, w) else none)
  unfolding check_op
  check_op-default show op fuel at lhs rhs lhs_text op_text rhs_text extra s w e =
      check_loop-default fuel at (op lhs rhs) _ s w e
