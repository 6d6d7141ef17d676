-- ===== src/RecordStream.antt =====
-- libsrc/libcutils/record_stream.cpp: records read from a descriptor through a fixed
-- buffer, each behind a header of four bytes with its length, 32 bits in big-endian order.
--
-- The pointers `unconsumed`, `read_end` and `buffer_end` are offsets from `buffer`, whose bytes are
-- those of the allocated block. The system's `read` is a parameter.
mod Tests
pub mod Bounds
pub mod Stream
pub mod Limit
use cpp_temp_learn.Prelude.{
  ℕ, ◌+◌, ◌-◌, ◌*◌, ◌^◌, ◌≤◌, Bool, ◌&&◌, List, [], ◌∷◌, ◌++◌, ◌≡◌, Option, none, some, Bytes,
  length, get_or, slice, overwrite, drop, leb, ltb, ◌==◌, if◌then◌else◌,
}

abbrev pub header_size : ℕ
header_size = 4

pub record RecordStream : Type 0 where
  pub fd : ℕ
  pub max_record_len : ℕ
  pub buffer : Bytes
  pub unconsumed : ℕ
  pub read_end : ℕ
  pub buffer_end : ℕ

-- What `read(fd, buf, count)` gives; no byte means that the input has ended.
pub data ReadResult : Type 0 where
  received : Bytes → ReadResult
  failed : ℕ → ReadResult

-- The system's `read`, as POSIX documents it: it delivers at most `count` of the bytes that are to
-- come, in their order, and a failed call takes none.
pub record Reader : Type 1 where
  pub World : Type 0
  pub read : World → ℕ → ℕ → World × ReadResult
  pub pending : World → ℕ → Bytes
  pub read_fits :
      (w w' : World) (fd count : ℕ) (bs : Bytes)
      → read w fd count ≡ (w', received bs)
      → length bs ≤ count
  pub read_takes :
      (w w' : World) (fd count : ℕ) (bs : Bytes)
      → read w fd count ≡ (w', received bs)
      → pending w fd ≡ bs ++ pending w' fd
  pub read_fails :
      (w w' : World) (fd count e : ℕ)
      → read w fd count ≡ (w', failed e)
      → pending w fd ≡ pending w' fd

-- `record_stream_new`, on the block that `malloc` returned; `none` is the failed assertion.
unfoldable pub record_stream_new : ℕ → ℕ → Bytes → Option RecordStream
record_stream_new fd max block =
    if leb max 0xffff
    then some (record {
      fd = fd;
      max_record_len = max;
      buffer = block;
      unconsumed = 0;
      read_end = 0;
      buffer_end = max + header_size;
    })
    else none

-- `ntohl` of the four bytes at an offset
pub ntohl : Bytes → ℕ → ℕ
ntohl b at =
    let s = drop at b in
    get_or s 0 0 * 2 ^ 24 + get_or s 1 0 * 2 ^ 16 + get_or s 2 0 * 2 ^ 8 + get_or s 3 0

-- `getEndOfRecord`
pub get_end_of_record : Bytes → ℕ → ℕ → Option ℕ
get_end_of_record b p_begin p_end =
    let p_ret = p_begin + header_size + ntohl b p_begin in
    if ltb p_end (p_begin + header_size) then none else if ltb p_end p_ret then none else some p_ret

-- `getNextRecord`: the stream behind the record, and the record's bytes, which the caller reads
-- through the returned pointer and length.
pub get_next_record : RecordStream → Option (RecordStream × Bytes)
unfolding get_end_of_record
get_next_record rs = elim (get_end_of_record rs.buffer rs.unconsumed rs.read_end) [
  | none ↦ none
  | some record_end ↦ some (
    record rs { unconsumed = record_end },
    slice rs.buffer (rs.unconsumed + header_size) record_end,
  )
]

pub data Outcome : Type 0 where
  got : Bytes → Outcome
  end_of_stream : Outcome
  read_error : ℕ → Outcome
  try_again : Outcome
  too_big : Outcome

-- The remainder is moved to the beginning of the buffer.
pub compact : RecordStream → RecordStream
compact rs =
    let to_move = rs.read_end - rs.unconsumed in
    if rs.unconsumed == 0 then rs else record rs {
      buffer = overwrite rs.buffer 0 (slice rs.buffer rs.unconsumed rs.read_end);
      read_end = to_move;
      unconsumed = 0;
    }

-- The buffer is full, and the record in it is not.
pub is_full : RecordStream → Bool
is_full rs = rs.unconsumed == 0 && rs.read_end == rs.buffer_end

-- what the second look into the buffer returns
pub second_look : RecordStream → RecordStream × Outcome
second_look rs = elim (get_next_record rs) [ none ↦ (rs, try_again) | some (rs', r) ↦ (rs', got r) ]

-- `record_stream_get_next` behind its `read`
pub after_read : RecordStream → ReadResult → RecordStream × Outcome
after_read rs (failed e) = (rs, read_error e)
after_read rs (received []) = (rs, end_of_stream)
after_read rs (received (c ∷ bs)) = second_look (record rs {
  buffer = overwrite rs.buffer rs.read_end (c ∷ bs);
  read_end = rs.read_end + length (c ∷ bs);
})

module _ (os : Reader) where
  open os use {World, read}

  -- from its `read` on, where the buffer has room
  pub fill : World → RecordStream → World × RecordStream × Outcome
  fill w rs =
      let (w', result) = read w rs.fd (rs.buffer_end - rs.read_end) in
      let (rs', outcome) = after_read rs result in (w', rs', outcome)

  -- `too_big` is `assert(0)`.
  pub record_stream_get_next : World → RecordStream → World × RecordStream × Outcome
  record_stream_get_next w rs = elim (get_next_record rs) [
    | some (rs', r) ↦ (w, rs', got r)
    | none ↦ let filled = fill w (compact rs) in if is_full rs then (w, rs, too_big) else filled
  ]
