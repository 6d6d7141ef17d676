-- ===== src/MappedFile/Tests.antt =====
-- The theorem on mappings at a system that has one file and maps everything at one address.
use cpp_temp_learn.Prelude.{
  ℕ, ◌+◌, ◌-◌, List, [], ◌∷◌, some, ◌≡◌, refl, sym, ap, ◌∙◌, arith, Bytes, codes, slice,
}
use cpp_temp_learn.MappedFile.{
  Mapped, mapped, unmapped, MapOs, MappedFile, from_fd, destroy_mapping,
}
use cpp_temp_learn.MappedFile.Mapping.{Shows, from_fd-destroy_mapping}

abbrev content : Bytes
content = codes "abcdefgh"

-- What is mapped, and the offset of the last mapping.
abbrev Regions : Type 0
Regions = List (ℕ × ℕ) × ℕ

abbrev tail : List (ℕ × ℕ) → List (ℕ × ℕ)
tail [] = []
tail (r ∷ rs) = rs

abbrev seen : Regions → ℕ → ℕ → Bytes
seen (rs, start) a n = slice content (start + (a - 100)) (start + (a - 100) + n)

abbrev map_at : Regions → ℕ → ℕ → Regions × Mapped
map_at w size offset = (((100, size) ∷ w.0, offset), mapped 100)

abbrev address : Mapped → ℕ
address (mapped b) = b
address (unmapped e) = 0

module _ (w w' : Regions) (size offset base : ℕ)
    (h : map_at w size offset ≡ (w', mapped base)) where
  at : 100 ≡ base
  at = ap (λ r. address r.1) h

  regions_at : w'.0 ≡ (base, size) ∷ w.0
  regions_at = sym (ap (λ r. r.0.0) h) ∙ ap (λ (b : ℕ). (b, size) ∷ w.0) at

  seen_at :
      (skip n : ℕ) → seen w' (base + skip) n ≡ slice content (offset + skip) (offset + skip + n)
  seen_at skip n =
      ap (λ (v : Regions). seen v (base + skip) n) (sym (ap (λ r. r.0) h))
      ∙ ap (λ (k : ℕ). slice content (offset + k) (offset + k + n)) (omega (arith, at))

abbrev one_file : MapOs Regions
one_file = record {
  page_size = 4;
  mmap = λ w size prot fd offset. map_at w size offset;
  munmap = λ w base size. (tail w.0, w.1);
  file = λ w fd. content;
  memory = seen;
  regions = λ w. w.0;
  mmap_maps = λ w w' size prot fd offset base h.
      (regions_at w w' size offset base h, λ a l skip n k. seen_at w w' size offset base h skip n);
  mmap_fails = λ w w' size prot fd offset e h. absurd (cc (ap (λ r. r.1) h));
  munmap_removes = λ w base size rest h. ap tail h;
}

from_fd-destroy_mapping_example :
    (m : MappedFile) × ((from_fd one_file 3 5 2 1 ([], 0)).1 ≡ some m)
    × Shows one_file ([], 0) (from_fd one_file 3 5 2 1 ([], 0)).0 3 5 2 m
    × ((destroy_mapping one_file m (from_fd one_file 3 5 2 1 ([], 0)).0).0 ≡ [])
from_fd-destroy_mapping_example = from_fd-destroy_mapping one_file 3 5 2 1 100 ([], 0) refl
