-- ===== src/FileIo/Tests.antt =====
-- The theorems on files at a disk with one file.
use cpp_temp_learn.Prelude.{
  ℕ, ◌<◌, Bool, true, false, [], ◌++◌, none, some, ◌≡◌, refl, ◌⊎◌, arith, Bytes, codes, length,
}
use cpp_temp_learn.FileIo.{read_fully, read_fully_at_offset}
use cpp_temp_learn.FileIo.Filling.{read_fully_at_offset-length, read_fully_at_offset-read_fully}
use cpp_temp_learn.FileIo.Saving.{Partial, write_string_to_file-file}
use cpp_temp_learn.FileIo.RoundTrip.{read_file_to_string-write_string_to_file}
use cpp_temp_learn.FileIo.Links.{read_link-link}
use cpp_temp_learn.FileIo.Files.{read_file_to_string, write_string_to_file, read_link}
use cpp_temp_learn.FileIo.Disk.{Disk, descriptors, disk, somewhere}

abbrev full : Disk
full = record { kept = some (codes "abc"); ahead = codes "abc"; taken = [] }

abbrev saved : Disk
saved = record full { kept = some (codes "xy"); taken = codes "xy" }

read_fully_at_offset-length_example :
    (w' : Disk) × (got : Bytes) × (rest : Bytes) × (ok : Bool) × (read_fully_at_offset descriptors 4
        full 3 4 1
      ≡ some (w', got, ok))
    × (codes "bc" ≡ got ++ rest)
    × (((ok ≡ true) × (length got ≡ 4)) ⊎ ((ok ≡ false) × (length got < 4)))
read_fully_at_offset-length_example =
    read_fully_at_offset-length descriptors 4 full 3 4 1 (omega arith)

read_fully_at_offset-read_fully_example : codes "ab" ≡ codes "ab"
read_fully_at_offset-read_fully_example =
    read_fully_at_offset-read_fully descriptors 2 full 3 2 0 (omega arith) refl
      (record full { ahead = codes "c" }) full (codes "ab") (codes "ab") (unfold read_fully in refl)
      (unfold read_fully_at_offset in refl)

write_string_to_file-file_example :
    (w' : Disk) × (ok : Bool) × (write_string_to_file disk 2 full (codes "xy") (codes "p") true
      ≡ some (w', ok))
    × (((ok ≡ true) × (w'.kept ≡ some (codes "xy")))
        ⊎ ((ok ≡ false)
            × ((((disk.open_write full (codes "p") 0x1b6 true).1 ≡ none)
                  × (w' ≡ (disk.open_write full (codes "p") 0x1b6 true).0))
                ⊎ ((fd : ℕ) × ((disk.open_write full (codes "p") 0x1b6 true).1 ≡ some fd)
                    × Partial disk 2
                        (disk.open_write full (codes "p") 0x1b6 true).0
                        w'
                        (codes "p")
                        (codes "xy")
                        fd))))
write_string_to_file-file_example =
    write_string_to_file-file disk 2 full (codes "xy") (codes "p") true (omega arith)

read_file_to_string-write_string_to_file_example :
    (w2 : Disk) × (got : Bytes) × (ok : Bool) × (read_file_to_string disk 3 saved (codes "p") true
      ≡ some (w2, got, ok))
    × ((ok ≡ false) ⊎ (got ≡ codes "xy"))
read_file_to_string-write_string_to_file_example =
    read_file_to_string-write_string_to_file disk 3 full saved (codes "xy") (codes "p") true true
      (omega arith) (unfold write_string_to_file in refl)

read_link-link_example : read_link disk 7 full (codes "l") ≡ some (some somewhere)
read_link-link_example = read_link-link disk 7 full (codes "l") somewhere refl (omega arith)
