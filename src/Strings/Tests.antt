-- ===== src/Strings/Tests.antt =====
-- The theorems on texts at concrete ones.
use cpp_temp_learn.Prelude.{List, [], ◌∷◌, some, ◌≡◌, Bytes, codes, All, Lacks}
use cpp_temp_learn.Strings.{split, join}
use cpp_temp_learn.Strings.Parts.{join-split}

join-split_example :
    (ps : List Bytes) × (split (codes "a,,b,") (b',' ∷ []) ≡ some ps)
    × (join ps b',' ≡ codes "a,,b,")
    × All (Lacks b',') ps
join-split_example = join-split (codes "a,,b,") b','
