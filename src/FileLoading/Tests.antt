-- ===== src/FileLoading/Tests.antt =====
-- The theorem on loaded files at a system with one file.
use cpp_temp_learn.Prelude.{
  ℕ, suc, true, List, [], ◌∷◌, some, refl, sym, ap, ◌∙◌, Bytes, codes, take, length, some_inj,
}
use cpp_temp_learn.FileLoading.{LoadOs, load_file}
use cpp_temp_learn.FileLoading.Closing.{Done, load_file-Done}

abbrev content : Bytes
content = codes "key=1"

abbrev tail : List ℕ → List ℕ
tail [] = []
tail (fd ∷ w) = w

abbrev loading : LoadOs (List ℕ)
loading = record {
  opened = λ w. w;
  open_read = λ w path. (suc (length w) ∷ w, some (suc (length w)));
  seek_end = λ w fd. (w, some (length content));
  seek_start = λ w fd. (w, some 0);
  malloc = λ n. true;
  read = λ w fd n. (w, some (take n content));
  close = λ w fd. tail w;
  open_opens =
      λ w w' path fd h. sym (ap (λ r. r.0) h) ∙ ap (λ (n : ℕ). n ∷ w) (some_inj (ap (λ r. r.1) h));
  open_fails = λ w w' path h. absurd (cc (ap (λ r. r.1) h));
  seek_end_keeps = λ w fd. refl;
  seek_start_keeps = λ w fd. refl;
  read_keeps = λ w fd n. refl;
  close_closes = λ w fd rest h. ap tail h;
}

load_file-Done_example : Done loading (4 ∷ []) (load_file loading (codes "/etc/conf") (4 ∷ []))
load_file-Done_example = load_file-Done loading (codes "/etc/conf") (4 ∷ [])
