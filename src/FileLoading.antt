-- ===== src/FileLoading.antt =====
-- libsrc/libcutils/load_file.cpp: a file as a block of memory.
--
-- The calls are a record, with laws on the descriptors that are open. `int` has 32 bits; a file of
-- 2^31 - 1 bytes, whose size and one more overflow it, is left out by `malloc`, which gives nothing.
-- `_sz` is not nullptr.
pub mod Closing
mod Tests
use cpp_temp_learn.Prelude.{
  ℕ, suc, ◌%◌, ◌^◌, Bool, true, false, not, List, [], ◌∷◌, ◌++◌, Option, none, some, ◌≡◌, Bytes,
  length, leb, ltb, ◌==◌, if◌then◌else◌,
}

-- `seek_end` and `seek_start` give the offset that `lseek` returns, with none for -1.
pub record LoadOs (World : Type 0) : Type 0 where
  pub opened : World → List ℕ
  pub open_read : World → Bytes → World × Option ℕ
  pub seek_end : World → ℕ → World × Option ℕ
  pub seek_start : World → ℕ → World × Option ℕ
  pub malloc : ℕ → Bool
  pub read : World → ℕ → ℕ → World × Option Bytes
  pub close : World → ℕ → World
  pub open_opens :
      (w w' : World) (path : Bytes) (fd : ℕ)
      → open_read w path ≡ (w', some fd)
      → opened w' ≡ fd ∷ opened w
  pub open_fails :
      (w w' : World) (path : Bytes) → open_read w path ≡ (w', none) → opened w' ≡ opened w
  pub seek_end_keeps : (w : World) (fd : ℕ) → opened (seek_end w fd).0 ≡ opened w
  pub seek_start_keeps : (w : World) (fd : ℕ) → opened (seek_start w fd).0 ≡ opened w
  pub read_keeps : (w : World) (fd n : ℕ) → opened (read w fd n).0 ≡ opened w
  pub close_closes :
      (w : World) (fd : ℕ) (rest : List ℕ) → opened w ≡ fd ∷ rest → opened (close w fd) ≡ rest

-- An offset as an `int`, with none for one below 0.
unfoldable pub to_int : ℕ → Option ℕ
to_int n = if leb (2 ^ 31) (n % 2 ^ 32) then none else some (n % 2 ^ 32)

module _ {World : Type 0} (os : LoadOs World) where
  open os use {open_read, seek_end, seek_start, malloc, read, close}

  -- `load_file` behind `read`: the block and `*_sz`
  unfoldable pub judge_read : ℕ → ℕ → World → Option Bytes → World × Option (Bytes × ℕ)
  judge_read fd sz w none = (close w fd, none)
  judge_read fd sz w (some bytes) =
      if length bytes == sz then (close w fd, some (bytes ++ 0 ∷ [], sz)) else (close w fd, none)

  -- `load_file` behind the second `lseek`
  unfoldable pub judge_start : ℕ → ℕ → World → Option ℕ → World × Option (Bytes × ℕ)
  unfolding judge_read
  judge_start fd sz w none = (close w fd, none)
  judge_start fd sz w (some offset) =
      let (w', bytes) = read w fd sz in
      if not (offset == 0)
      then (close w fd, none)
      else if malloc (suc sz)
      then judge_read fd sz w' bytes
      else (close w fd, none)

  -- `load_file` behind the size
  unfoldable pub judge_int : ℕ → World → Option ℕ → World × Option (Bytes × ℕ)
  unfolding judge_start
  judge_int fd w none = (close w fd, none)
  judge_int fd w (some sz) = let (w', offset) = seek_start w fd in judge_start fd sz w' offset

  -- `load_file` behind the first `lseek`
  unfoldable pub judge_end : ℕ → World → Option ℕ → World × Option (Bytes × ℕ)
  unfolding judge_int to_int
  judge_end fd w none = (close w fd, none)
  judge_end fd w (some size) = judge_int fd w (to_int size)

  -- `load_file` behind `open`
  unfoldable pub load_opened : World → Option ℕ → World × Option (Bytes × ℕ)
  unfolding judge_end
  load_opened w none = (w, none)
  load_opened w (some fd) = let (w', size) = seek_end w fd in judge_end fd w' size

  -- `load_file`
  unfoldable pub load_file : Bytes → World → World × Option (Bytes × ℕ)
  unfolding load_opened
  load_file path w = let (w', fd) = open_read w path in load_opened w' fd
