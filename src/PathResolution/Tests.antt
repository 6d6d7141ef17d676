-- ===== src/PathResolution/Tests.antt =====
-- Runs of `resolved`, and the theorems at concrete paths.
use cpp_temp_learn.Prelude.{◌≡◌, refl, true, false, some, [], ◌∷◌, Bytes, codes, getlines}
use cpp_temp_learn.FilePath.{FilePath, slash, is_root, set_path, default_path, resolve}
use cpp_temp_learn.FilePath.Coherence.{set}
use cpp_temp_learn.PathResolution.{Resolving, resolve_parts, initial, resolved}
use cpp_temp_learn.PathResolution.Normal.{IsNormal, IsName, resolve_parts-getlines}
use cpp_temp_learn.PathResolution.Walk.{walk_path}
use cpp_temp_learn.PathResolution.Text.{walk-resolved}
use cpp_temp_learn.PathResolution.Combine.{walk-resolve}

resolved_runs :
    (resolved (codes "a/b/../c") ≡ some (codes "a/c"))
    × (resolved (codes "../../a") ≡ some (codes "../../a"))
    × (resolved (codes "a/../../b") ≡ some (codes "../b"))
    × (resolved (codes "/a/../b/") ≡ some (codes "/b"))
    × (resolved (codes "a/..") ≡ some (codes "."))
    × (resolved (codes ".//a") ≡ some (codes "/a"))
    × (resolved (codes "a//../b") ≡ some (codes "a/b"))
unfolding resolved
resolved_runs = (refl, refl, refl, refl, refl, refl, refl)

walk-resolved_example :
    (t : Bytes) × (resolved (codes "a/../../b") ≡ some t)
    × (walk_path t (codes "home" ∷ []) ≡ walk_path (codes "a/../../b") (codes "home" ∷ []))
walk-resolved_example =
    walk-resolved (codes "a/../../b") (codes "home" ∷ [])
      (unfold getlines is_root in (refl, (refl, (refl, tt))))

resolve_parts-getlines_example :
    (r : Resolving) × (resolve_parts true (getlines slash (codes "/a/./../..")) initial ≡ some r)
    × IsNormal IsName r
resolve_parts-getlines_example = resolve_parts-getlines (codes "/a/./../..")

abbrev base : FilePath
base = set_path (default_path false) (codes "/home/me")

abbrev relative_path : FilePath
relative_path = set_path base (codes "../you")

walk-resolve_example :
    walk_path (resolve base relative_path).2.path []
    ≡ walk_path relative_path.path (walk_path base.path [])
walk-resolve_example =
    walk-resolve base relative_path [] (set (default_path false) (codes "/home/me"))
      (set base (codes "../you"))
