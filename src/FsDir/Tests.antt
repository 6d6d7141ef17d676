-- ===== src/FsDir/Tests.antt =====
-- The theorem on listings at a directory with one file.
use cpp_temp_learn.Prelude.{
  true, [], ◌∷◌, ◌++◌, Option, none, some, ◌≡◌, refl, sym, ap, append-nil, Bytes, codes, All, equal,
}
use cpp_temp_learn.FilePath.{analyze, set_path, full_path}
use cpp_temp_learn.FileSystem.{regular_file, Stat}
use cpp_temp_learn.Shell.Execution.{ShellOs}
use cpp_temp_learn.FsObject.{pos, is_exist, get_last_update_time}
use cpp_temp_learn.FsObject.SmallOs.{Entries, find, small_os, entries}
use cpp_temp_learn.FsDir.{Dir, new_dir, same_time, get_entries}
use cpp_temp_learn.FsDir.Listing.{Stands, get_entries-Stands}

-- That the pipe is read is an entry too.
abbrev pub waiting : Option Stat → Bytes
waiting none = codes "b"
waiting (some s) = []

abbrev pub key : Bytes
key = codes "/read"

abbrev pub taken : Entries → Entries × Bytes
taken w = ((key, regular_file) ∷ w, waiting (find w key))

pub taken_front :
    (w w' : Entries) (bs : Bytes)
    → ◌≡◌ {A = Entries × Bytes} (taken w) (w', bs)
    → waiting (find w key) ≡ bs ++ waiting (find w' key)
unfolding equal
taken_front w w' bs h =
    rw (← ap (λ r. r.0) h, ← ap (λ r. r.1) h) (sym (append-nil (waiting (find w key))))

-- A shell whose commands succeed and write the name of the file.
abbrev listing : ShellOs Entries
listing = record {
  ready = λ w. 1;
  system = λ w command. some (w, 0);
  pipe = λ w. (w, some (3, 4));
  get_flags = λ w fd. some 0;
  set_flags = λ w fd flags. (w, true);
  read = λ w fd count. taken w;
  fopen = λ w path. (w, none);
  fwrite = λ w f bs. w;
  fclose = λ w f. w;
  close = λ w fd. w;
  available = λ w fd. waiting (find w key);
  read_takes = λ w w' fd count bs h. taken_front w w' bs h;
  read_ends = λ w w' fd count l h. ap (λ r. r.1) h;
}

abbrev outcome : Option (Entries × Dir) → Entries × Dir
outcome none = ([], new_dir [])
outcome (some r) = r

abbrev before : Dir
before = record (new_dir (codes "/a")) { last_update = pos 7 }

abbrev listed : Entries × Dir
listed = outcome (get_entries small_os listing 5 entries before)

get_entries-Stands_example : All (Stands small_os listed.0) listed.1.entries
unfolding get_entries new_dir same_time get_last_update_time is_exist analyze equal set_path
    cpp_temp_learn.FsObject.query full_path
get_entries-Stands_example =
    get_entries-Stands small_os listing 5 entries listed.0 before listed.1 refl refl
