-- ===== src/FsFile/Tests.antt =====
-- The theorem on streams at a file that is opened, and opened again at another path.
use cpp_temp_learn.Prelude.{true, [], codes}
use cpp_temp_learn.FsObject.SmallOs.{Entries, small_os}
use cpp_temp_learn.FsFile.{StreamOs, new_file, set_file_path, read_mode, open_init}
use cpp_temp_learn.FsFile.Tracking.{text_of, IsTracked, Step, Steps, Steps-IsTracked}

abbrev streams : StreamOs Entries
streams = record { open_stream = λ w path mode. (w, true); close_stream = λ w. w }

Steps-IsTracked_example :
    let s = open_init small_os streams [] (new_file (codes "/f")) (read_mode true) in
    let r = set_file_path small_os streams s.0 s.1 (codes "/g") in
    IsTracked (text_of r.1) (open_init small_os streams r.0 r.1 (read_mode true)).1
Steps-IsTracked_example =
    let f = new_file (codes "/f") in
    let s = open_init small_os streams [] f (read_mode true) in
    let r = set_file_path small_os streams s.0 s.1 (codes "/g") in
    let u = open_init small_os streams r.0 r.1 (read_mode true) in
    Steps-IsTracked small_os streams [] (codes "/f") [] u.0 u.1 (text_of r.1) (
      Steps.next
        (Steps.next (Steps.next Steps.start (Step.opens [] f [] (read_mode true)))
          (Step.sets s.0 s.1 (text_of f) (codes "/g")))
        (Step.opens r.0 r.1 (text_of f) (read_mode true)))
