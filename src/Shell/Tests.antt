-- ===== src/Shell/Tests.antt =====
-- The theorems on commands at concrete ones.
use cpp_temp_learn.Prelude.{
  ℕ, zero, suc, ◌<◌, ◌==◌, true, [], ◌∷◌, ◌++◌, some, none, ◌≡◌, refl, sym, ap, arith, Bytes, codes,
  take, drop, take-append-drop, get_or, getlines, if◌then◌else◌,
}
use cpp_temp_learn.Strings.{trim}
use cpp_temp_learn.Shell.{shell_of}
use cpp_temp_learn.Shell.Execution.{
  ShellOs, newline, is_null_device, open_pipe, piped_command, exec_command,
}
use cpp_temp_learn.Shell.Output.{cleared, exec_command-getlines}
use cpp_temp_learn.Shell.Termination.{EndsUnless, Blocks, exec_command-some}

writing_takes :
    (w w' : Bytes) (fd count : ℕ) (bs : Bytes)
    → ◌≡◌ {A = Bytes × Bytes} (drop count w, take count w) (w', bs)
    → w ≡ bs ++ w'
writing_takes w w' fd count bs h =
    rw (← ap (λ r. r.0) h, ← ap (λ r. r.1) h) (sym (take-append-drop count w))

writing_ends :
    (w w' : Bytes) (fd count : ℕ)
    → 0 < count
    → ◌≡◌ {A = Bytes × Bytes} (drop count w, take count w) (w', [])
    → w ≡ []
writing_ends w w' fd zero l h = absurd (omega arith)
writing_ends [] w' fd (suc n) l h = refl
writing_ends (c ∷ s) w' fd (suc n) l h = absurd (cc (ap (λ r. r.1) h))

-- A shell that writes two lines, and fails at a command that starts with 'f'. The state is what
-- waits in the pipe.
abbrev writing : ShellOs Bytes
writing = record {
  ready = λ w. 1;
  system = λ w command.
      some (codes "a" ++ (newline ∷ codes "b"), if get_or command 0 0 == b'f' then 1 else 0);
  pipe = λ w. (w, some (3, 4));
  get_flags = λ w fd. some 2;
  set_flags = λ w fd flags. (w, true);
  read = λ w fd count. (drop count w, take count w);
  fopen = λ w path. (w, none);
  fwrite = λ w f bs. w;
  fclose = λ w f. w;
  close = λ w fd. w;
  available = λ w fd. w;
  read_takes = writing_takes;
  read_ends = writing_ends;
}

exec_command-getlines_example :
    (w' : Bytes) × (exec_command writing 4 [] (shell_of 1 (codes "ls"))
      ≡ some (
        w',
        record (shell_of 1 (codes "ls")) {
          output_lines = getlines newline (codes "a" ++ (newline ∷ codes "b"));
          exec_status = true;
        },
      ))
exec_command-getlines_example =
    exec_command-getlines writing 4 [] (shell_of 1 (codes "ls")) (unfold shell_of in refl)
      (unfold shell_of trim in refl) (unfold shell_of is_null_device in refl) []
      (codes "a" ++ (newline ∷ codes "b")) 3 4 (unfold open_pipe in refl)
      (unfold shell_of trim piped_command in refl)
      (ground arith, (ground arith, (ground arith, tt))) (omega arith)

exec_command-some_example :
    EndsUnless writing
      (Blocks writing [] (cleared writing (shell_of 1 (codes "ls"))))
      (λ fuel. exec_command writing fuel [] (shell_of 1 (codes "ls")))
exec_command-some_example = exec_command-some writing [] (shell_of 1 (codes "ls"))
