-- ===== src/FsObject/Found.antt =====
-- An object that `isExist` has just found.
use cpp_temp_learn.Prelude.{
  Bytes, true, false, ◌||◌, some, ◌≡◌, refl, ap, ◌∙◌, inl, inr, arith, is_empty, Bool-cases,
}
use cpp_temp_learn.FilePath.{
  FilePath, analyze, analyze_fresh, full_path, default_path, from_text, set_path,
}
use cpp_temp_learn.FilePath.FullPath.{analyze-of_fresh}
use cpp_temp_learn.FilePath.Coherence.{Made, set, analyze-of_done}
use cpp_temp_learn.FileSystem.{Stat, Os}
use cpp_temp_learn.FsObject.{fs_object, FsObject, note, get_stat, check_if_exists, is_exist}
use cpp_temp_learn.FsObject.Existence.{
  Suits, mismatch-Suits, analyze-path, full_path-empty, stat_something, check_new,
}

-- What is known of such an object.
abbrev pub found : FsObject → FsObject
found o = record o { as_path = record (analyze o.as_path) { exists = true } }

note-Suits :
    (o : FsObject) (s : Stat)
    → Suits o.object_type s
    → note (record o { as_path = analyze o.as_path }) (some s) ≡ found o
unfolding note
note-Suits o s h = rw ((mismatch-Suits o.object_type s).1 h) refl

analyze-details : (p : FilePath) → (analyze p).details ≡ true
unfolding analyze_fresh
analyze-details p = elim (Bool-cases p.details) [
  | inl e ↦ ap (λ q. q.details) (analyze-of_done p e) ∙ e
  | inr e ↦ ap (λ q. q.details) (analyze-of_fresh p e)
]

pub analyze-found : (o : FsObject) → analyze (found o).as_path ≡ (found o).as_path
analyze-found o = analyze-of_done (found o).as_path (analyze-details o.as_path)

-- An object made of a text, of no type.
pub fs_object-Suits : (d : Bytes) (s : Stat) → Suits (fs_object d).object_type s
unfolding fs_object
fs_object-Suits d s = ground arith

pub fs_object-Made : (d : Bytes) → Made (fs_object d).as_path
unfolding fs_object from_text
fs_object-Made d = set (default_path false) d

pub fs_object-exists : (d : Bytes) → (fs_object d).as_path.exists ≡ false
unfolding fs_object from_text set_path
fs_object-exists d = refl

module _ (os : Os) where
  open os use {World, stat, lstat, stat_empty}

  stat_link :
      (w : World) (o : FsObject)
      → is_empty o.as_path.path ≡ false
      → get_stat os w true o
        ≡ (record o { as_path = analyze o.as_path }, lstat w (analyze o.as_path).full_path)
  unfolding get_stat full_path
  stat_link w o e = rw e refl

  pub is_exist-again : (w : World) (o : FsObject) → is_exist os w (found o) ≡ (found o, true)
  unfolding is_exist check_if_exists
  is_exist-again w o = refl

  module _ (w : World) (o : FsObject) (s : Stat) (m : Made o.as_path)
      (at : stat w (analyze o.as_path).full_path ≡ some s) where
    not_empty : is_empty o.as_path.path ≡ false
    not_empty = elim (Bool-cases (is_empty o.as_path.path)) [
      | inr e ↦ e
      | inl e ↦ absurd (cc (at, ap (stat w) (full_path-empty o.as_path m e), stat_empty w))
    ]

    pub is_exist-found :
        o.as_path.exists ≡ false → Suits o.object_type s → is_exist os w o ≡ (found o, true)
    unfolding is_exist
    is_exist-found x h =
        let c : (o.as_path.exists || is_empty o.as_path.path) ≡ false =
          ground (arith, x, not_empty) in
        let seen =
          check_new os w o c
          ∙ ap (λ t. note t.0 t.1) (stat_something os w o not_empty)
          ∙ ap (λ t. note (record o { as_path = analyze o.as_path }) t) at
          ∙ note-Suits o s h in
        ap (λ t. (t, t.as_path.exists)) seen

    pub get_stat-found : get_stat os w false (found o) ≡ (found o, some s)
    get_stat-found =
        stat_something os w (found o) (ap is_empty (analyze-path o.as_path) ∙ not_empty)
        ∙ ap (λ p. (record (found o) { as_path = p }, stat w p.full_path)) (analyze-found o)
        ∙ ap (λ t. (found o, t)) at

    pub get_stat-found_link :
        get_stat os w true (found o) ≡ (found o, lstat w (analyze o.as_path).full_path)
    get_stat-found_link =
        stat_link w (found o) (ap is_empty (analyze-path o.as_path) ∙ not_empty)
        ∙ ap (λ p. (record (found o) { as_path = p }, lstat w p.full_path)) (analyze-found o)
