-- ===== src/Logging/Delivery.antt =====
-- libsrc/libcpputils/logging.cpp: what `~LogMessage` hands to the logger and to the aborter.
use cpp_temp_learn.Prelude.{
  c_text, ℕ, zero, suc, ◌≤◌, true, List, [], ◌∷◌, ◌++◌, Option, none, some, ◌≡◌, refl, sym, ap,
  subst, ◌>>=◌, ◌∙◌, subst, ◌>>=◌, ◌⊎◌, inl, inr, arith, leb, Bytes, length, find_byte,
  find_byte-none, find_byte-append, append_assoc, length-append, All, Lacks, Option-cases,
  take-append_of_length, drop-append-cons,
}
use cpp_temp_learn.Strings.{split, join}
use cpp_temp_learn.Strings.Parts.{split-Lacks, join-cons, join-single, join-split}
use cpp_temp_learn.Logging.{
  LogSeverity, verbose, debug, info, warning, error, fatal_without_abort, fatal, rank, Host,
  Logging, would_log,
}
use cpp_temp_learn.Logging.Messages.{
  line_feed, LogMessageData, is_fatal, log_line, complete, log_lines, deliver, abort_if_fatal,
  destroy_message,
}

module _ {World : Type 0} (host : Host World) where
  -- Lines that are logged one after the other.
  abbrev pub log_all : LogMessageData → List Bytes → Logging World → World → Logging World × World
  log_all m [] s w = (s, w)
  log_all m (p ∷ ps) s w = log_all m ps (log_line host m p s w).0 (log_line host m p s w).1

  log_lines-suc :
      (fuel : ℕ) (m : LogMessageData) (p rest : Bytes) (s : Logging World) (w : World)
      → Lacks line_feed p
      → log_lines host (suc fuel) m (p ++ (line_feed ∷ rest)) s w
        ≡ log_lines host fuel m rest (log_line host m p s w).0 (log_line host m p s w).1
  unfolding log_lines
  log_lines-suc fuel m [] rest s w h = rw (find_byte-append line_feed [] rest h, log_lines) refl
  log_lines-suc fuel m (c ∷ p) rest s w h =
      rw (find_byte-append line_feed (c ∷ p) rest h, log_lines)
        (rw (take-append_of_length p (line_feed ∷ rest), drop-append-cons p line_feed rest) refl)

  -- On as much fuel as there are parts, the loop logs each part of the text.
  log_lines-join :
      (fuel : ℕ) (m : LogMessageData) (p : Bytes) (ps : List Bytes) (s : Logging World) (w : World)
      → All (Lacks line_feed) (p ∷ ps)
      → length (p ∷ ps) ≤ fuel
      → log_lines host fuel m (join (p ∷ ps) line_feed ++ line_feed ∷ []) s w
        ≡ some (log_all m (p ∷ ps) s w)
  log_lines-join zero m p ps s w h l = absurd (omega arith)
  log_lines-join (suc fuel) m p [] s w h l =
      ap (λ t. log_lines host (suc fuel) m (t ++ line_feed ∷ []) s w) (join-single p line_feed)
      ∙ log_lines-suc fuel m p [] s w h.0
      ∙ unfold log_lines in refl
  log_lines-join (suc fuel) m p (q ∷ ps) s w h l =
      ap (λ t. log_lines host (suc fuel) m (t ++ line_feed ∷ []) s w)
        (join-cons p (q ∷ ps) line_feed (λ k. absurd cc))
      ∙ ap (λ t. log_lines host (suc fuel) m t s w)
          (append_assoc p (line_feed ∷ join (q ∷ ps) line_feed) (line_feed ∷ []))
      ∙ log_lines-suc fuel m p (join (q ∷ ps) line_feed ++ line_feed ∷ []) s w h.0
      ∙ log_lines-join fuel m q ps _ _ h.1 (omega arith)

  length-join : (ps : List Bytes) (d : ℕ) → length ps ≤ suc (length (join ps d))
  unfolding join
  length-join [] d = omega arith
  length-join (p ∷ []) d = omega arith
  length-join (p ∷ q ∷ ps) d =
      omega (arith, length-join (q ∷ ps) d, length-append p (d ∷ join (q ∷ ps) d))

  deliver_one :
      (m : LogMessageData) (msg : Bytes) (s : Logging World) (w : World)
      → find_byte line_feed msg ≡ none
      → deliver host m msg s w ≡ (msg, some (log_line host m msg s w))
  unfolding deliver
  deliver_one m msg s w e = rw (e, deliver) refl

  deliver_more :
      (m : LogMessageData) (msg : Bytes) (nl : ℕ) (s : Logging World) (w : World)
      → find_byte line_feed msg ≡ some nl
      → deliver host m msg s w
        ≡ (msg ++ line_feed ∷ [], log_lines host (suc (length msg)) m (msg ++ line_feed ∷ []) s w)
  unfolding deliver
  deliver_more m msg nl s w e = rw (e, deliver) refl

  -- The text that is left for the aborter.
  abbrev pub IsLeft : Bytes → Bytes → Type 0
  IsLeft msg text = (msg ≡ text) ⊎ (msg ≡ text ++ line_feed ∷ [])

  lines :
      (m : LogMessageData) (ps : List Bytes) (text : Bytes) (nl : ℕ) (s : Logging World) (w : World)
      → find_byte line_feed text ≡ some nl
      → join ps line_feed ≡ text
      → All (Lacks line_feed) ps
      → log_lines host (suc (length text)) m (text ++ line_feed ∷ []) s w ≡ some (log_all m ps s w)
  lines m [] text nl s w e j l = absurd (unfold join find_byte in cc (e, j))
  lines m (p ∷ ps) text nl s w e j l =
      ap (λ t. log_lines host (suc (length text)) m (t ++ line_feed ∷ []) s w) (sym j)
      ∙ log_lines-join (suc (length text)) m p ps s w l
          (subst (λ t. length (p ∷ ps) ≤ suc (length t)) j (length-join (p ∷ ps) line_feed))

  deliver-log_all :
      (m : LogMessageData) (text : Bytes) (s : Logging World) (w : World)
      → (ps : List Bytes) × (msg : Bytes) × (split text (line_feed ∷ []) ≡ some ps)
        × (deliver host m text s w ≡ (msg, some (log_all m ps s w)))
        × All (Lacks line_feed) ps
        × IsLeft msg text
  deliver-log_all m text s w = elim (Option-cases (find_byte line_feed text)) [
    | inl e ↦
        let h = find_byte-none line_feed text e in
        (text ∷ [], text, split-Lacks line_feed text h, deliver_one m text s w e, (h, tt), inl refl)
    | inr (nl, e) ↦
        let (ps, h, j, l) = join-split text line_feed in
        (
          ps,
          text ++ line_feed ∷ [],
          h,
          deliver_more m text nl s w e
              ∙ ap (λ r. (text ++ line_feed ∷ [], r)) (lines m ps text nl s w e j l),
          l,
          inr refl,
        )
  ]

  -- A message that reaches the minimum severity when it is destroyed hands the parts of its text
  -- between the newlines to `LogLine`, each once and in their order; then, where it is FATAL, the
  -- aborter gets the text, with a newline more at most.
  pub destroy_message-split :
      (m : LogMessageData) (s : Logging World) (w : World)
      → would_log s m.severity ≡ true
      → (ps : List Bytes) × (msg : Bytes) × (split (complete host m) (line_feed ∷ []) ≡ some ps)
        × (destroy_message host m s w ≡ abort_if_fatal host m msg (some (log_all m ps s w)))
        × All (Lacks line_feed) ps
        × IsLeft msg (complete host m)
  unfolding destroy_message
  destroy_message-split m s w h =
      let (ps, msg, e, d, l, i) = deliver-log_all m (complete host m) s w in
      (ps, msg, e, rw (h, d) refl, l, i)

  -- No severity is above FATAL.
  rank-fatal : (v : LogSeverity) → leb (rank v) (rank fatal) ≡ true
  unfolding rank
  rank-fatal verbose = refl
  rank-fatal debug = refl
  rank-fatal info = refl
  rank-fatal warning = refl
  rank-fatal error = refl
  rank-fatal fatal_without_abort = refl
  rank-fatal fatal = refl

  pub would_log-fatal : (s : Logging World) → would_log s fatal ≡ true
  unfolding would_log
  would_log-fatal s = rank-fatal s.minimum

  log_line-aborter :
      (m : LogMessageData) (p : Bytes) (s : Logging World) (w : World)
      → (log_line host m p s w).0.aborter ≡ s.aborter
  unfolding log_line
  log_line-aborter m p s w = elim (Option-cases m.tag) [
    | inr (t, e) ↦ rw (e, log_line) refl
    | inl e ↦ elim (Option-cases s.default_tag) [
      | inr (t, d) ↦ rw (e, d, log_line) refl
      | inl d ↦ rw (e, d, log_line) refl
    ]
  ]

  log_all-aborter :
      (m : LogMessageData) (ps : List Bytes) (s : Logging World) (w : World)
      → (log_all m ps s w).0.aborter ≡ s.aborter
  log_all-aborter m [] s w = refl
  log_all-aborter m (p ∷ ps) s w = log_all-aborter m ps _ _ ∙ log_line-aborter m p s w

  abort_fatal :
      (m : LogMessageData) (msg : Bytes) (s : Logging World) (w : World)
      → m.severity ≡ fatal
      → abort_if_fatal host m msg (some (s, w)) ≡ (s.aborter (c_text msg) w >>= λ w'. some (s, w'))
  unfolding abort_if_fatal is_fatal
  abort_fatal m msg s w e = elim (Option-cases (s.aborter (c_text msg) w)) [
    | inl a ↦ rw (e, a, abort_if_fatal) refl
    | inr (w', a) ↦ rw (e, a, abort_if_fatal) refl
  ]

  -- A FATAL message is never left out, whatever minimum is set: behind the logging of its lines the
  -- aborter that the program had gets its text as a C string, with a newline more at most, and the
  -- program goes on only as the aborter lets it.
  pub destroy_message-fatal :
      (m : LogMessageData) (s : Logging World) (w : World)
      → m.severity ≡ fatal
      → (ps : List Bytes) × (msg : Bytes) × (split (complete host m) (line_feed ∷ []) ≡ some ps)
        × IsLeft msg (complete host m)
        × (destroy_message host m s w ≡ (
            s.aborter (c_text msg) (log_all m ps s w).1 >>= λ w'. some ((log_all m ps s w).0, w')))
  destroy_message-fatal m s w e =
      let (ps, msg, h, d, l, i) =
        destroy_message-split m s w (ap (would_log s) e ∙ would_log-fatal s) in
      (
        ps,
        msg,
        h,
        i,
        d
            ∙ abort_fatal m msg _ _ e
            ∙ ap
                (λ (a : Bytes → World → Option World).
                  a (c_text msg) (log_all m ps s w).1 >>= λ w'. some ((log_all m ps s w).0, w'))
                (log_all-aborter m ps s w),
      )
