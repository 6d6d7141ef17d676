-- ===== src/RecordStream/Limit.antt =====
-- When a call gives up on a record, and what a client reads in all.
use cpp_temp_learn.Prelude.{
  ℕ, zero, suc, ◌<◌, true, List, [], ◌∷◌, ◌++◌, ◌≡◌, ◌≢◌, inl, inr, arith, none, Option-cases,
  Bool-cases, Bytes, length,
}
use cpp_temp_learn.RecordStream.{
  RecordStream, Reader, ReadResult, received, failed, Outcome, got, too_big, ntohl,
  get_end_of_record, get_next_record, compact, is_full, second_look, after_read, fill,
  record_stream_get_next,
}
use cpp_temp_learn.RecordStream.Bounds.{IsValid, IsHeader}
use cpp_temp_learn.RecordStream.Stream.{
  Consumes, record_taken, ended, erred, waiting, overflow, content, record_stream_get_next-Call,
}

second_look-ne : (rs : RecordStream) → (second_look rs).1 ≢ too_big
unfolding second_look
second_look-ne rs h = elim (Option-cases (get_next_record rs)) [
  | inl n ↦ cc (rw (n, second_look) at h)
  | inr (t, n) ↦ cc (rw (n, second_look) at h)
]

after_read-ne : (rs : RecordStream) (result : ReadResult) → (after_read rs result).1 ≢ too_big
unfolding after_read
after_read-ne rs (failed e) h = cc h
after_read-ne rs (received []) h = cc h
after_read-ne rs (received (c ∷ bs)) h = second_look-ne _ h

full_header :
    (rs : RecordStream)
    → IsValid rs
    → is_full rs ≡ true
    → get_next_record rs ≡ none
    → rs.max_record_len < ntohl rs.buffer rs.unconsumed
unfolding is_full get_next_record get_end_of_record
full_header rs v f n = ground arith

-- The bytes are the records, each behind its header, and what is left.
pub data Frames : Bytes → List Bytes → Bytes → Type 0 where
  none_left : {s : Bytes} → Frames s [] s
  frame :
      {s t u : Bytes} {records : List Bytes} (h r : Bytes)
      → IsHeader h (length r)
      → s ≡ h ++ (r ++ t)
      → Frames t records u
      → Frames s (r ∷ records) u

module _ (os : Reader) where
  open os use {World}

  fill-ne : (w : World) (rs : RecordStream) → (fill os w rs).2 ≢ too_big
  unfolding fill
  fill-ne w rs = after_read-ne rs _

  -- `record_stream_get_next` gives up on a record only if the header of four bytes in front says,
  -- as a number of 32 bits, that it is longer than the limit of the stream.
  pub record_stream_get_next-too_big :
      (w : World) (rs : RecordStream)
      → IsValid rs
      → (record_stream_get_next os w rs).2 ≡ too_big
      → rs.max_record_len < ntohl rs.buffer rs.unconsumed
  unfolding record_stream_get_next
  record_stream_get_next-too_big w rs v h = elim (Option-cases (get_next_record rs)) [
    | inr (t, n) ↦ cc (rw (n, record_stream_get_next) at h)
    | inl n ↦ elim (Bool-cases (is_full rs)) [
      | inl f ↦ full_header rs v f n
      | inr f ↦ absurd (fill-ne w (compact rs) (rw (n, f, record_stream_get_next) at h))
    ]
  ]

  -- `n` calls, and the records that they return.
  unfoldable pub read_records : ℕ → World → RecordStream → World × RecordStream × List Bytes
  read_records zero w rs = (w, rs, [])
  read_records (suc n) w rs =
      let (w', rs', outcome) = record_stream_get_next os w rs in
      let (w'', rs'', records) = read_records n w' rs' in
      (w'', rs'', elim outcome [ got r ↦ r ∷ records | _ ↦ records ])

  Consumes-Frames :
      {before after u : Bytes} {records : List Bytes} (o : Outcome)
      → Consumes before after o
      → Frames after records u
      → Frames before (elim o [ got r ↦ r ∷ records | _ ↦ records ]) u
  Consumes-Frames _ (record_taken h r is e) f = frame h r is e f
  Consumes-Frames _ (ended e) f = rw e f
  Consumes-Frames _ (erred e) f = rw e f
  Consumes-Frames _ (waiting e) f = rw e f
  Consumes-Frames _ (overflow e) f = rw e f

  -- The records that any number of calls of `record_stream_get_next` return are those that the
  -- bytes of the stream spell, each behind a header of four bytes with its length, in order and
  -- with no byte lost or read twice, whatever sizes the reads deliver.
  pub read_records-Frames :
      (n : ℕ) (w : World) (rs : RecordStream)
      → IsValid rs
      → Frames
          (content os w rs)
          (read_records n w rs).2
          (content os (read_records n w rs).0 (read_records n w rs).1)
  unfolding read_records
  read_records-Frames zero w rs v = none_left
  read_records-Frames (suc n) w rs v =
      let call = record_stream_get_next-Call os w rs v in
      let (w', rs', outcome) = record_stream_get_next os w rs in
      Consumes-Frames outcome call.consumes (read_records-Frames n w' rs' call.valid)
