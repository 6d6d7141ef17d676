-- ===== src/RecordStream/Stream.antt =====
-- `record_stream_get_next` cuts the stream of bytes into records, however the reads cut it.
use cpp_temp_learn.Prelude.{
  ℕ, ◌-◌, [], ◌∷◌, ◌++◌, ◌≡◌, refl, ap, ◌∙◌, inl, inr, Option-cases, Bool-cases, Bytes, length,
  append_assoc,
}
use cpp_temp_learn.RecordStream.{
  RecordStream, Reader, ReadResult, received, failed, Outcome, got, end_of_stream, read_error,
  try_again, too_big, get_next_record, compact, is_full, second_look, after_read, fill,
  record_stream_get_next,
}
use cpp_temp_learn.RecordStream.Bounds.{
  IsValid, held, IsHeader, Takes, get_next_record-Takes, Compacted, compact-Compacted, grow,
}

-- What a call does to the bytes of the stream that are not consumed yet: it takes the record in
-- front, with its header, or nothing.
pub data Consumes (before after : Bytes) : Outcome → Type 0 where
  record_taken :
      (h r : Bytes)
      → IsHeader h (length r)
      → before ≡ h ++ (r ++ after)
      → Consumes before after (got r)
  ended : before ≡ after → Consumes before after end_of_stream
  erred : {e : ℕ} → before ≡ after → Consumes before after (read_error e)
  waiting : before ≡ after → Consumes before after try_again
  overflow : before ≡ after → Consumes before after too_big

module _ (os : Reader) where
  open os use {World, read, pending, read_fits, read_takes, read_fails}

  -- the bytes of the stream that are not consumed yet
  abbrev pub content : World → RecordStream → Bytes
  content w rs = held rs ++ pending w rs.fd

  pub record Call (w : World) (rs : RecordStream) (result : World × RecordStream × Outcome)
      : Type 0 where
    pub valid : IsValid result.1
    pub same_fd : result.1.fd ≡ rs.fd
    pub same_max : result.1.max_record_len ≡ rs.max_record_len
    pub consumes : Consumes (content w rs) (content result.0 result.1) result.2

  got_record :
      (w : World) (rs : RecordStream) {rs' : RecordStream} {r : Bytes}
      → Takes rs rs' r
      → Call w rs (w, rs', got r)
  got_record w rs {rs'} {r} t = record {
    valid = t.valid;
    same_fd = t.same_fd;
    same_max = t.same_max;
    consumes = record_taken t.header r t.is_header (
        rw (t.same_fd, t.taken)
          (append_assoc t.header _ _ ∙ ap (◌++◌ t.header) (append_assoc r _ _)));
  }

  second_look-Call :
      (w : World) (rs : RecordStream)
      → IsValid rs
      → Call w rs (w, (second_look rs).0, (second_look rs).1)
  unfolding second_look
  second_look-Call w rs v = elim (Option-cases (get_next_record rs)) [
    | inl n ↦
        rw (n, second_look)
          (record { valid = v; same_fd = refl; same_max = refl; consumes = waiting refl })
    | inr (t, n) ↦ rw (n, second_look) (got_record w rs (get_next_record-Takes rs v n))
  ]

  after_read-Call :
      (w w' : World) (rs : RecordStream) (result : ReadResult)
      → IsValid rs
      → rs.unconsumed ≡ 0
      → read w rs.fd (rs.buffer_end - rs.read_end) ≡ (w', result)
      → Call w rs (w', (after_read rs result).0, (after_read rs result).1)
  unfolding after_read
  after_read-Call w w' rs (failed e) v z eq = record {
    valid = v;
    same_fd = refl;
    same_max = refl;
    consumes = erred (ap (◌++◌ (held rs)) (read_fails w w' rs.fd _ e eq));
  }
  after_read-Call w w' rs (received []) v z eq = record {
    valid = v;
    same_fd = refl;
    same_max = refl;
    consumes = ended (ap (◌++◌ (held rs)) (read_takes w w' rs.fd _ [] eq));
  }
  after_read-Call w w' rs (received (c ∷ bs)) v z eq =
      let g = grow rs (c ∷ bs) v z (read_fits w w' rs.fd _ (c ∷ bs) eq) in
      let call = second_look-Call w' _ g.valid in
      record {
        valid = call.valid;
        same_fd = call.same_fd;
        same_max = call.same_max;
        consumes =
            rw
              (
                read_takes w w' rs.fd _ (c ∷ bs) eq,
                ← append_assoc (held rs) (c ∷ bs) (pending w' rs.fd),
                ← g.more,
              )
              call.consumes;
      }

  fill-Call :
      (w : World) (rs : RecordStream) → IsValid rs → rs.unconsumed ≡ 0 → Call w rs (fill os w rs)
  unfolding fill
  fill-Call w rs v z = after_read-Call w _ rs _ v z refl

  compacted :
      (w : World) (rs : RecordStream) (result : World × RecordStream × Outcome) {rs' : RecordStream}
      → Compacted rs rs'
      → Call w rs' result
      → Call w rs result
  compacted w rs result {rs'} c call = record {
    valid = call.valid;
    same_fd = call.same_fd ∙ c.same_fd;
    same_max = call.same_max ∙ c.same_max;
    consumes = rw (← c.same_fd, ← c.same_held) call.consumes;
  }

  -- A call of `record_stream_get_next` keeps the offsets within the buffer, and takes from the
  -- stream the record in front, with its header of four bytes, which holds its length in 32 bits,
  -- or nothing.
  pub record_stream_get_next-Call :
      (w : World) (rs : RecordStream) → IsValid rs → Call w rs (record_stream_get_next os w rs)
  unfolding record_stream_get_next
  record_stream_get_next-Call w rs v = elim (Option-cases (get_next_record rs)) [
    | inr (t, n) ↦ rw (n, record_stream_get_next) (got_record w rs (get_next_record-Takes rs v n))
    | inl n ↦ elim (Bool-cases (is_full rs)) [
      | inl f ↦
          rw (n, f, record_stream_get_next)
            (record { valid = v; same_fd = refl; same_max = refl; consumes = overflow refl })
      | inr f ↦
          rw (n, f, record_stream_get_next)
            (compacted w rs _ (compact-Compacted rs v) (
              fill-Call w (compact rs) (compact-Compacted rs v).valid
                (compact-Compacted rs v).at_start))
    ]
  ]
