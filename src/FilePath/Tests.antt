-- ===== src/FilePath/Tests.antt =====
-- Runs of the path operations, and the theorems at concrete paths.
use cpp_temp_learn.Prelude.{
  ◌≡◌, refl, true, false, ◌++◌, [], ◌∷◌, codes, getlines, without_last, if◌then◌else◌,
}
use cpp_temp_learn.FilePath.{FilePath, slash, from_text, set_path, default_path, analyze, resolve}
use cpp_temp_learn.FilePath.FullPath.{is_lone_root, full_path-analyze}
use cpp_temp_learn.FilePath.Coherence.{set, analyzed, content, Made-analyze}

abbrev archive : FilePath
archive = from_text (codes "/path/to\\some.tar.gz/")

archive_names :
    ((analyze archive).full_path ≡ codes "/path/to/some.tar.gz")
    × ((analyze archive).directory_path ≡ codes "/path/to/")
    × ((analyze archive).basename ≡ codes "some")
    × ((analyze archive).extension ≡ codes ".tar.gz")
unfolding from_text analyze
archive_names = (refl, refl, refl, refl)

drive : (analyze (from_text (codes "C:/path/to"))).drive_letter ≡ codes "C:"
unfolding from_text analyze
drive = refl

-- Two slashes at the end leave one.
two_slashes : (analyze (from_text (codes "a/b//"))).full_path ≡ codes "a/b/"
unfolding from_text analyze
two_slashes = refl

resolve_at_root : (resolve (from_text (codes "/")) (from_text (codes "a"))).2.path ≡ codes "//a"
unfolding resolve analyze
resolve_at_root = refl

-- The empty path counts as pointing to content, as an empty text and not as `Path()`.
empty_path :
    ((from_text []).points_to_content ≡ true) × ((default_path false).points_to_content ≡ false)
unfolding from_text default_path
empty_path = (refl, refl)

fresh : archive.details ≡ false
unfolding from_text
fresh = refl

full_path-analyze_example :
    (analyze archive).full_path
    ≡ without_last slash archive.path
      ++ (if is_lone_root (getlines slash archive.path) then slash ∷ [] else [])
full_path-analyze_example = full_path-analyze archive fresh

abbrev earlier : FilePath
earlier = analyze (set_path (default_path false) (codes "x/y"))

abbrev later : FilePath
later = set_path earlier (codes "a.b")

abbrev direct : FilePath
direct = set_path (default_path true) (codes "a.b")

same_text : (analyze later).path ≡ direct.path
unfolding analyze set_path
same_text = refl

Made-analyze_example : content (analyze (analyze later)) ≡ content (analyze direct)
Made-analyze_example =
    Made-analyze (analyze later) direct (analyzed (set earlier (codes "a.b")))
      (set (default_path true) (codes "a.b")) same_text
