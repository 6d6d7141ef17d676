-- ===== src/MappedFile.antt =====
-- libsrc/libcpputils/mapped_file.cpp and libsrc/libcpputils/cpputils-base/mapped_file.h: a part of a
-- file in memory.
--
-- An address is a number, and nullptr is none. Lengths and offsets are those of a file, so that
-- nothing wraps around; an offset is not negative.
pub mod Mapping
mod Tests
use cpp_temp_learn.Prelude.{
  ℕ, ◌+◌, ◌-◌, ◌*◌, ◌%◌, ◌≤◌, Bool, true, false, ◌&&◌, List, [], ◌∷◌, Option, none, some, ◌≡◌,
  Bytes, slice, length, ◌==◌, if◌then◌else◌,
}

-- What `mmap` gives: an address, or `errno`.
pub data Mapped : Type 0 where
  mapped unmapped : ℕ → Mapped

-- The calls of the system. `file` is what a descriptor's file holds, `memory` what stands at an
-- address on a length, and `regions` what is mapped, the newest first. A mapping whose offset is a
-- multiple of the page size shows the file from the offset on.
pub record MapOs (World : Type 0) : Type 0 where
  pub page_size : ℕ
  pub mmap : World → ℕ → ℕ → ℕ → ℕ → World × Mapped
  pub munmap : World → ℕ → ℕ → World
  pub file : World → ℕ → Bytes
  pub memory : World → ℕ → ℕ → Bytes
  pub regions : World → List (ℕ × ℕ)
  pub mmap_maps :
      (w w' : World) (size prot fd offset base : ℕ)
      → mmap w size prot fd offset ≡ (w', mapped base)
      → (regions w' ≡ (base, size) ∷ regions w)
        × (offset % page_size ≡ 0
            → offset + size ≤ length (file w fd)
            → (skip n : ℕ) → skip + n ≤ size
            → memory w' (base + skip) n ≡ slice (file w fd) (offset + skip) (offset + skip + n))
  pub mmap_fails :
      (w w' : World) (size prot fd offset e : ℕ)
      → mmap w size prot fd offset ≡ (w', unmapped e)
      → regions w' ≡ regions w
  pub munmap_removes :
      (w : World) (base size : ℕ) (rest : List (ℕ × ℕ))
      → regions w ≡ (base, size) ∷ rest
      → regions (munmap w base size) ≡ rest

-- `MappedFile`: `base_`, `size_` and `offset_`
pub record MappedFile : Type 0 where
  pub base : Option ℕ
  pub size : ℕ
  pub offset : ℕ

-- EINVAL
abbrev pub invalid_argument : ℕ
invalid_argument = 22

-- `data()`
unfoldable pub data_of : MappedFile → Option ℕ
data_of m = elim m.base [ none ↦ none | some b ↦ some (b + m.offset) ]

-- `FromFd` behind `mmap`
unfoldable pub judge_mapping : ℕ → ℕ → Mapped → Option MappedFile
judge_mapping size slop (mapped b) = some (record { base = some b; size = size; offset = slop })
judge_mapping size slop (unmapped e) =
    if e == invalid_argument && size == 0
    then some (record { base = none; size = 0; offset = 0 })
    else none

module _ {World : Type 0} (os : MapOs World) where
  open os use {page_size, mmap, munmap}

  -- `FromFd`
  unfoldable pub from_fd : ℕ → ℕ → ℕ → ℕ → World → World × Option MappedFile
  unfolding judge_mapping
  from_fd fd offset size prot w =
      let slop = offset % page_size in
      let (w', r) = mmap w (size + slop) prot fd (offset - slop) in (w', judge_mapping size slop r)

  -- `~MappedFile`
  unfoldable pub destroy_mapping : MappedFile → World → World
  destroy_mapping m w = elim m.base [ none ↦ w | some b ↦ munmap w b (m.size + m.offset) ]
