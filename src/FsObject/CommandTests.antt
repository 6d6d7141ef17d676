-- ===== src/FsObject/CommandTests.antt =====
-- The theorems on the operations that run commands, at a small file system and a silent shell.
use cpp_temp_learn.Prelude.{
  equal, ◌∙◌, append-nil, true, false, [], ◌++◌, some, none, ◌≡◌, ◌≢◌, refl, ◌⊎◌, arith, codes, sym,
  ap,
}
use cpp_temp_learn.FilePath.{default_path, set_path, analyze, unify}
use cpp_temp_learn.FilePath.Coherence.{set}
use cpp_temp_learn.FileSystem.{regular_file, directory, type_of}
use cpp_temp_learn.Shell.Execution.{ShellOs, run}
use cpp_temp_learn.FsObject.{FsObject, fs_object}
use cpp_temp_learn.FsObject.Found.{fs_object-Made, fs_object-exists, fs_object-Suits, found}
use cpp_temp_learn.FsObject.Commands.{remove, move, copy}
use cpp_temp_learn.FsObject.Removal.{located, Commanded, Goes, remove-unlink}
use cpp_temp_learn.FsObject.Transfer.{move-copy}
use cpp_temp_learn.FsObject.SmallOs.{Entries, entry, find, small_os, object, entries, erase}

-- Commands succeed, do nothing and write nothing.
abbrev silent : ShellOs Entries
silent = record {
  ready = λ w. 1;
  system = λ w command. some (w, 0);
  pipe = λ w. (w, some (3, 4));
  get_flags = λ w fd. some 0;
  set_flags = λ w fd flags. (w, true);
  read = λ w fd count. (w, []);
  fopen = λ w path. (w, none);
  fwrite = λ w f bs. w;
  fclose = λ w f. w;
  close = λ w fd. w;
  available = λ w fd. [];
  read_takes = λ w w' fd count bs h. ap (λ r. r.1) h ∙ sym (append-nil bs);
  read_ends = λ w w' fd count l h. refl;
}

remove-unlink_example :
    let o = object regular_file (codes "/a/b") in
    ((type_of (entry 0x81a4).mode ≡ directory)
      × Commanded
          (run silent 5 entries (codes "rm -rf /a/b"))
          Goes
          (remove small_os silent 5 entries o))
    ⊎ ((type_of (entry 0x81a4).mode ≢ directory)
        × ((o' : FsObject) × (remove small_os silent 5 entries o
              ≡ some (erase (codes "/a/b") entries, o', true))
            × (o'.as_path.exists ≡ false)
            × ((true ≡ false) ⊎ (find (erase (codes "/a/b") entries) (codes "/a/b") ≡ none))))
remove-unlink_example =
    remove-unlink small_os entries (object regular_file (codes "/a/b")) (entry 0x81a4)
      (codes "/a/b") (set (default_path false) (codes "/a/b")) (unfold set_path in refl)
      (unfold analyze set_path in refl) (ground arith) (unfold analyze set_path in refl) silent 5

move-copy_example :
    let o = fs_object (codes "/a") in
    let d = codes "/a/b" in
    (((type_of (entry 0x81a4).mode ≡ directory) ⊎ (type_of (entry 0x41ff).mode ≢ directory))
      × Commanded
          (run silent 5 entries (codes "mv /a " ++ unify d))
          Goes
          (move small_os silent 5 entries o d)
      × Commanded
          (run silent 5 entries (codes "cp -rf /a " ++ unify d))
          (λ o' ok. o' ≡ located o (codes "/a"))
          (copy small_os silent 5 entries o d))
    ⊎ (((type_of (entry 0x41ff).mode ≡ directory) × (type_of (entry 0x81a4).mode ≢ directory))
        × (move small_os silent 5 entries o d ≡ some (entries, found o, false))
        × (copy small_os silent 5 entries o d ≡ some (entries, found o, false)))
move-copy_example =
    move-copy small_os entries (fs_object (codes "/a")) (entry 0x41ff) (codes "/a")
      (fs_object-Made (codes "/a")) (fs_object-exists (codes "/a"))
      (unfold fs_object analyze set_path equal in refl)
      (fs_object-Suits (codes "/a") (entry 0x41ff))
      (unfold fs_object analyze set_path equal in refl) silent 5 (codes "/a/b") (entry 0x81a4)
      (codes "/a/b") (unfold fs_object analyze set_path equal in refl)
      (unfold fs_object analyze set_path equal in refl)
