-- ===== src/FileIo.antt =====
-- libsrc/libcpputils/file.cpp: the functions that read and write a descriptor.
--
-- A call under TEMP_FAILURE_RETRY is repeated until no signal interrupts it. A loop runs on fuel, and
-- `none` is that it ran out.
pub mod Reading
pub mod Filling
pub mod Writing
pub mod Files
pub mod Saving
pub mod RoundTrip
pub mod Links
mod Disk
mod Tests
use cpp_temp_learn.Prelude.{
  ℕ, zero, suc, ◌-◌, ◌+◌, ◌≤◌, ◌<◌, Bool, true, false, [], ◌∷◌, ◌++◌, Option, none, some, ◌≡◌,
  Bytes, length, take, drop, is_empty, if◌then◌else◌,
}

-- The calls on descriptors. `pending` is what a descriptor still delivers up to the end of the file,
-- `written` is what it has taken, and `content` is what the file holds; the laws are those of POSIX
-- for a regular file that nobody else has open.
pub record FdOs (World : Type 0) : Type 0 where
  pub read : World → ℕ → ℕ → World × Option Bytes
  pub pread : World → ℕ → ℕ → ℕ → World × Option Bytes
  pub write : World → ℕ → Bytes → World × Option ℕ
  pub pending : World → ℕ → Bytes
  pub written : World → ℕ → Bytes
  pub content : World → ℕ → Bytes
  pub read_takes :
      (w w' : World) (fd count : ℕ) (bs : Bytes)
      → read w fd count ≡ (w', some bs)
      → (pending w fd ≡ bs ++ pending w' fd) × (length bs ≤ count)
  pub read_ends :
      (w w' : World) (fd count : ℕ)
      → 0 < count
      → read w fd count ≡ (w', some [])
      → pending w fd ≡ []
  pub pread_takes :
      (w w' : World) (fd count offset : ℕ) (bs : Bytes)
      → pread w fd count offset ≡ (w', some bs)
      → (drop offset (content w fd) ≡ bs ++ drop (offset + length bs) (content w fd))
        × (length bs ≤ count)
  pub pread_keeps :
      (w w' : World) (fd count offset : ℕ) (r : Option Bytes)
      → pread w fd count offset ≡ (w', r)
      → content w' fd ≡ content w fd
  pub write_adds :
      (w w' : World) (fd n : ℕ) (bs : Bytes)
      → write w fd bs ≡ (w', some n)
      → (written w' fd ≡ written w fd ++ take n bs) × (n ≤ length bs)
  pub write_goes_on :
      (w w' : World) (fd n : ℕ) (bs : Bytes) → 0 < length bs → write w fd bs ≡ (w', some n) → 0 < n
  pub write_fails :
      (w w' : World) (fd : ℕ) (bs : Bytes)
      → write w fd bs ≡ (w', none)
      → written w' fd ≡ written w fd

-- `BUFSIZ`
abbrev pub buffer_size : ℕ
buffer_size = 8192

module _ {World : Type 0} (os : FdOs World) where
  open os use {read, pread, write}

  -- the loop of `ReadFdToString`
  unfoldable pub read_on : ℕ → World → ℕ → Bytes → Option (World × Bytes × Bool)
  read_on zero w fd acc = none
  read_on (suc fuel) w fd acc =
      let (w', r) = read w fd buffer_size in
      elim r [
        | none ↦ some (w', acc, false)
        | some bs ↦ elim bs [
          | [] ↦ some (w', acc, true)
          | c ∷ rest ↦ read_on fuel w' fd (acc ++ (c ∷ rest))
        ]
      ]

  unfoldable pub read_fd_to_string : ℕ → World → ℕ → Option (World × Bytes × Bool)
  unfolding read_on
  read_fd_to_string fuel w fd = read_on fuel w fd []

  -- `ReadFully`, with the bytes that it has stored. A round takes one byte at least.
  unfoldable pub read_more : ℕ → World → ℕ → ℕ → Bytes → Option (World × Bytes × Bool)
  read_more fuel w fd zero stored = some (w, stored, true)
  read_more zero w fd (suc n) stored = none
  read_more (suc fuel) w fd (suc n) stored =
      let (w', r) = read w fd (suc n) in
      elim r [
        | none ↦ some (w', stored, false)
        | some bs ↦ elim bs [
          | [] ↦ some (w', stored, false)
          | c ∷ rest ↦ read_more fuel w' fd (suc n - length (c ∷ rest)) (stored ++ (c ∷ rest))
        ]
      ]

  unfoldable pub read_fully : ℕ → World → ℕ → ℕ → Option (World × Bytes × Bool)
  unfolding read_more
  read_fully fuel w fd byte_count = read_more fuel w fd byte_count []

  unfoldable pub read_more_at : ℕ → World → ℕ → ℕ → ℕ → Bytes → Option (World × Bytes × Bool)
  read_more_at fuel w fd zero offset stored = some (w, stored, true)
  read_more_at zero w fd (suc n) offset stored = none
  read_more_at (suc fuel) w fd (suc n) offset stored =
      let (w', r) = pread w fd (suc n) offset in
      elim r [
        | none ↦ some (w', stored, false)
        | some bs ↦ elim bs [
          | [] ↦ some (w', stored, false)
          | c ∷ rest ↦
              read_more_at fuel w' fd (suc n - length (c ∷ rest)) (offset + length (c ∷ rest))
                (stored ++ (c ∷ rest))
        ]
      ]

  unfoldable pub read_fully_at_offset : ℕ → World → ℕ → ℕ → ℕ → Option (World × Bytes × Bool)
  unfolding read_more_at
  read_fully_at_offset fuel w fd byte_count offset = read_more_at fuel w fd byte_count offset []

  -- the loop of `WriteStringToFd` and of `WriteFully`, from a place in the data on
  unfoldable pub write_on : ℕ → World → ℕ → Bytes → ℕ → Option (World × Bool)
  write_on fuel w fd p zero = some (w, true)
  write_on zero w fd p (suc left) = none
  write_on (suc fuel) w fd p (suc left) =
      let (w', r) = write w fd (take (suc left) p) in
      elim r [ none ↦ some (w', false) | some n ↦ write_on fuel w' fd (drop n p) (suc left - n) ]

  unfoldable pub write_string_to_fd : ℕ → World → Bytes → ℕ → Option (World × Bool)
  unfolding write_on
  write_string_to_fd fuel w content fd = write_on fuel w fd content (length content)

  unfoldable pub write_fully : ℕ → World → ℕ → Bytes → ℕ → Option (World × Bool)
  unfolding write_on
  write_fully fuel w fd stored byte_count = write_on fuel w fd stored byte_count
