-- ===== src/RecordStream/Tests.antt =====
-- A stream that is read in small pieces, and the theorems at it.
use cpp_temp_learn.Prelude.{
  ℕ, ◌≤◌, ◌<◌, min, [], ◌∷◌, ◌++◌, ◌≡◌, refl, sym, arith, Bytes, length, take, drop,
  take-append-drop, length-take,
}
use cpp_temp_learn.RecordStream.{
  RecordStream, Reader, ReadResult, received, failed, too_big, ntohl, get_end_of_record,
  get_next_record, compact, is_full, second_look, after_read, fill, record_stream_get_next,
}
use cpp_temp_learn.RecordStream.Bounds.{IsValid}
use cpp_temp_learn.RecordStream.Stream.{Call, content, record_stream_get_next-Call}
use cpp_temp_learn.RecordStream.Limit.{
  Frames, read_records, read_records-Frames, record_stream_get_next-too_big,
}

-- A descriptor that delivers at most three bytes in a call.
abbrev small_read : Bytes → ℕ → ℕ → Bytes × ReadResult
small_read w fd count = (drop (min 3 count) w, received (take (min 3 count) w))

small_fits :
    (w w' : Bytes) (fd count : ℕ) (bs : Bytes)
    → small_read w fd count ≡ (w', received bs)
    → length bs ≤ count
small_fits w w' fd count bs h =
    let e : take (min 3 count) w ≡ bs = cc h in
    rw (← e) (omega (arith, length-take (min 3 count) w))

small_takes :
    (w w' : Bytes) (fd count : ℕ) (bs : Bytes)
    → small_read w fd count ≡ (w', received bs)
    → w ≡ bs ++ w'
small_takes w w' fd count bs h =
    let e : take (min 3 count) w ≡ bs = cc h in
    let d : drop (min 3 count) w ≡ w' = cc h in
    rw (← e, ← d) (sym (take-append-drop (min 3 count) w))

small_never_fails :
    (w w' : Bytes) (fd count e : ℕ) → small_read w fd count ≡ (w', failed e) → w ≡ w'
small_never_fails w w' fd count e h = cc h

abbrev small_reader : Reader
small_reader = record {
  World = Bytes;
  read = small_read;
  pending = λ w _. w;
  read_fits = small_fits;
  read_takes = small_takes;
  read_fails = small_never_fails;
}

abbrev stream : RecordStream
stream = record {
  fd = 5;
  max_record_len = 4;
  buffer = 9 ∷ 9 ∷ 9 ∷ 9 ∷ 9 ∷ 9 ∷ 9 ∷ 9 ∷ [];
  unconsumed = 0;
  read_end = 0;
  buffer_end = 8;
}

abbrev input : Bytes
input = 0 ∷ 0 ∷ 0 ∷ 2 ∷ 70 ∷ 71 ∷ 0 ∷ 0 ∷ 0 ∷ 0 ∷ 0 ∷ 0 ∷ 0 ∷ 1 ∷ 72 ∷ []

records_read : (read_records small_reader 12 input stream).2 ≡ (70 ∷ 71 ∷ []) ∷ [] ∷ (72 ∷ []) ∷ []
unfolding read_records record_stream_get_next get_next_record get_end_of_record ntohl compact
    is_full second_look after_read fill
records_read = refl

stream-IsValid : IsValid stream
stream-IsValid = omega arith

read_records-Frames_example :
    Frames (content small_reader input stream) (read_records small_reader 12 input stream).2 (
      content small_reader
        (read_records small_reader 12 input stream).0
        (read_records small_reader 12 input stream).1)
read_records-Frames_example = read_records-Frames small_reader 12 input stream stream-IsValid

record_stream_get_next-Call_example :
    Call small_reader input stream (record_stream_get_next small_reader input stream)
record_stream_get_next-Call_example =
    record_stream_get_next-Call small_reader input stream stream-IsValid

-- A full buffer whose header says 5, over the limit of 4.
abbrev stuck : RecordStream
stuck = record stream { buffer = 0 ∷ 0 ∷ 0 ∷ 5 ∷ 1 ∷ 2 ∷ 3 ∷ 4 ∷ []; read_end = 8 }

stuck_gives_up : (record_stream_get_next small_reader [] stuck).2 ≡ too_big
unfolding record_stream_get_next get_next_record get_end_of_record ntohl is_full
stuck_gives_up = refl

record_stream_get_next-too_big_example : stuck.max_record_len < ntohl stuck.buffer stuck.unconsumed
record_stream_get_next-too_big_example =
    record_stream_get_next-too_big small_reader [] stuck (omega arith) stuck_gives_up
