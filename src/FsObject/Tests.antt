-- ===== src/FsObject/Tests.antt =====
-- The theorems on objects at a small file system.
use cpp_temp_learn.Prelude.{Bool, false, some, ◌≡◌, refl, inr, codes, equal}
use cpp_temp_learn.FilePath.{default_path}
use cpp_temp_learn.FilePath.Coherence.{set}
use cpp_temp_learn.FileSystem.{directory, Holds}
use cpp_temp_learn.FsObject.{FsObject}
use cpp_temp_learn.FsObject.Making.{make_all, create}
use cpp_temp_learn.FsObject.Directories.{make_all-ensure_directory}
use cpp_temp_learn.FsObject.Creation.{Created, create-Created}
use cpp_temp_learn.FsObject.SmallOs.{Entries, find, small_os, object, entries}

create-Created_example :
    (r : Entries × FsObject × Bool) × (create small_os 4097 0x1ff entries
        (object directory (codes "/a/b.c"))
      ≡ some r)
    × Created small_os directory r
create-Created_example =
    create-Created small_os 0x1ff entries (object directory (codes "/a/b.c"))
      (set (default_path false) (codes "/a/b.c"))

make_all-ensure_directory_example :
    Holds (find (make_all small_os 0x1ff (codes "/p/q") entries).0 (codes "/p")) directory
unfolding equal make_all
make_all-ensure_directory_example =
    make_all-ensure_directory small_os 0x1ff (codes "/p/q") (codes "/p") entries
      (inr (b'/', codes "p", codes "q", refl, refl)) refl

-- An object that was found at "/old" once and now has another path.
abbrev moved_on : FsObject
moved_on = record (object directory (codes "/x")) { real_path = codes "/old" }
