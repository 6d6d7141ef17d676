-- ===== src/MappedFile/Mapping.antt =====
-- libsrc/libcpputils/mapped_file.cpp: what `FromFd` maps, and what the destructor takes away.
use cpp_temp_learn.Prelude.{
  ℕ, ◌+◌, ◌-◌, ◌*◌, ◌/◌, ◌%◌, ◌≤◌, some, ◌≡◌, refl, ap, ◌∙◌, ◌⊎◌, inl, inr, arith, slice, length,
}
use native.Mathlib.Nat.{mul-mod_right, mod-le, mod-add-div}
use cpp_temp_learn.MappedFile.{
  Mapped, mapped, unmapped, MapOs, MappedFile, data_of, judge_mapping, from_fd, destroy_mapping,
}

Mapped-cases : (r : Mapped) → ((b : ℕ) × (r ≡ mapped b)) ⊎ ((e : ℕ) × (r ≡ unmapped e))
Mapped-cases (mapped b) = inl (b, refl)
Mapped-cases (unmapped e) = inr (e, refl)

-- The offset of the mapping is a multiple of the page size.
aligned : (o n : ℕ) → (o - o % n) % n ≡ 0
aligned o n =
    let parts : o - o % n ≡ n * (o / n) = omega (arith, mod-add-div o n) in
    ap (λ (k : ℕ). k % n) parts ∙ mul-mod_right n (o / n)

below : (o n : ℕ) → o - o % n + o % n ≡ o
below o n = omega (arith, mod-le o n)

module _ {World : Type 0} (os : MapOs World) where
  open os use {page_size, mmap, file, memory, regions, mmap_maps, mmap_fails, munmap_removes}

  -- A mapping on a part of a file, made in one world and seen in another.
  abbrev pub Shows : World → World → ℕ → ℕ → ℕ → MappedFile → Type 0
  Shows w w' fd offset size m =
      (b : ℕ) × (data_of m ≡ some b)
      × (offset + size ≤ length (file w fd)
          → memory w' b size ≡ slice (file w fd) offset (offset + size))

  from_fd_mapped :
      (fd offset size prot base : ℕ) (w : World)
      → (mmap w (size + offset % page_size) prot fd (offset - offset % page_size)).1 ≡ mapped base
      → (from_fd os fd offset size prot w).1
        ≡ some (record { base = some base; size = size; offset = offset % page_size })
  unfolding from_fd judge_mapping
  from_fd_mapped fd offset size prot base w e = rw (e, from_fd) refl

  -- Where `FromFd` gives an object for a mapping that succeeded, `data` points at the byte of the file
  -- that stands at the offset asked for, be it a multiple of the page size or not, and the bytes from
  -- there on are the file's, if the file is long enough; and the destructor takes away just what was
  -- mapped.
  pub from_fd-destroy_mapping :
      (fd offset size prot base : ℕ) (w : World)
      → (mmap w (size + offset % page_size) prot fd (offset - offset % page_size)).1 ≡ mapped base
      → (m : MappedFile) × ((from_fd os fd offset size prot w).1 ≡ some m)
        × Shows w (from_fd os fd offset size prot w).0 fd offset size m
        × (regions (destroy_mapping os m (from_fd os fd offset size prot w).0) ≡ regions w)
  unfolding from_fd destroy_mapping data_of
  from_fd-destroy_mapping fd offset size prot base w e =
      let slop = offset % page_size in
      let start = offset - slop in
      let w' = (mmap w (size + slop) prot fd start).0 in
      let (added, shown) = mmap_maps w w' (size + slop) prot fd start base (ap (λ r. (w', r)) e) in
      let at : start + slop ≡ offset = below offset page_size in
      (
        record { base = some base; size = size; offset = slop },
        from_fd_mapped fd offset size prot base w e,
        (
          base + slop,
          refl,
          λ h.
              shown (aligned offset page_size) (omega (arith, at, h)) slop size (omega arith)
              ∙ ap (λ (o : ℕ). slice (file w fd) o (o + size)) at,
        ),
        munmap_removes w' base (size + slop) (regions w) added,
      )
