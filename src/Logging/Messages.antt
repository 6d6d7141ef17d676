-- ===== src/Logging/Messages.antt =====
-- libsrc/libcpputils/logging.cpp: `LogMessage`.
use cpp_temp_learn.Prelude.{
  c_text, ℕ, zero, suc, Bool, true, false, [], ◌∷◌, ◌++◌, Option, none, some, Bytes, codes, length,
  take, drop, find_byte, if◌then◌else◌,
}
use cpp_temp_learn.Logging.{LogSeverity, fatal, LogId, get_file_basename, Host, Logging, would_log}

abbrev pub line_feed : ℕ
line_feed = 10

-- `LogMessageData`, with none for an `error` of -1
pub record LogMessageData : Type 0 where
  pub buffer : Bytes
  pub file : Bytes
  pub line_number : ℕ
  pub id : LogId
  pub severity : LogSeverity
  pub tag : Option Bytes
  pub error : Option ℕ

-- `LogMessage::LogMessage`
unfoldable pub log_message :
    Bytes → ℕ → LogId → LogSeverity → Option Bytes → Option ℕ → LogMessageData
unfolding get_file_basename
log_message file line id severity tag error = record {
  buffer = [];
  file = get_file_basename file;
  line_number = line;
  id = id;
  severity = severity;
  tag = tag;
  error = error;
}

-- `stream() << text`
unfoldable pub insert_text : LogMessageData → Bytes → LogMessageData
insert_text m text = record m { buffer = m.buffer ++ text }

-- is it `FATAL`?
unfoldable pub is_fatal : LogSeverity → Bool
is_fatal fatal = true
is_fatal _ = false

module _ {World : Type 0} (host : Host World) where
  open host use {strerror, getprogname}

  -- `LogLine`
  unfoldable pub log_line : LogMessageData → Bytes → Logging World → World → Logging World × World
  unfolding c_text
  log_line m text s w = elim m.tag [
    | some tag ↦ (s, s.logger m.id m.severity (some tag) m.file m.line_number (c_text text) w)
    | none ↦ elim s.default_tag [
      | some tag ↦ (s, s.logger m.id m.severity (some tag) m.file m.line_number (c_text text) w)
      | none ↦ (
        record s { default_tag = some getprogname },
        s.logger m.id m.severity (some getprogname) m.file m.line_number (c_text text) w,
      )
    ]
  ]

  -- The text of the message when it is complete.
  unfoldable pub complete : LogMessageData → Bytes
  complete m = elim m.error [ none ↦ m.buffer | some e ↦ m.buffer ++ (codes ": " ++ strerror e) ]

  -- The loop over the lines, over the text from `i` on. It runs on fuel, and none is that it ran out,
  -- or that no newline was left, where the source would write outside the text.
  unfoldable pub log_lines :
      ℕ → LogMessageData → Bytes → Logging World → World → Option (Logging World × World)
  unfolding log_line
  log_lines fuel m [] s w = some (s, w)
  log_lines zero m (c ∷ rest) s w = none
  log_lines (suc fuel) m (c ∷ rest) s w = elim (find_byte line_feed (c ∷ rest)) [
    | none ↦ none
    | some nl ↦
        let (s', w') = log_line m (take nl (c ∷ rest)) s w in
        log_lines fuel m (drop (suc nl) (c ∷ rest)) s' w'
  ]

  -- The block with the lock held, on `msg`: what `msg` is then, and the results of the logging.
  unfoldable pub deliver :
      LogMessageData → Bytes → Logging World → World → Bytes × Option (Logging World × World)
  unfolding log_line log_lines
  deliver m msg s w = elim (find_byte line_feed msg) [
    | none ↦ (msg, some (log_line m msg s w))
    | some nl ↦ (msg ++ line_feed ∷ [], log_lines (suc (length msg)) m (msg ++ line_feed ∷ []) s w)
  ]

  -- "Abort if necessary."
  unfoldable pub abort_if_fatal :
      LogMessageData → Bytes → Option (Logging World × World) → Option (Logging World × World)
  unfolding is_fatal c_text
  abort_if_fatal m msg none = none
  abort_if_fatal m msg (some (s, w)) = elim (is_fatal m.severity) [
    | false ↦ some (s, w)
    | true ↦ elim (s.aborter (c_text msg) w) [ none ↦ none | some w' ↦ some (s, w') ]
  ]

  -- `~LogMessage`: none is that the program does not go on.
  unfoldable pub destroy_message :
      LogMessageData → Logging World → World → Option (Logging World × World)
  unfolding would_log complete deliver abort_if_fatal
  destroy_message m s w =
      let (msg, logged) = deliver m (complete m) s w in
      if would_log s m.severity then abort_if_fatal m msg logged else some (s, w)
