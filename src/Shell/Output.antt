-- ===== src/Shell/Output.antt =====
-- What `execute` reports of a command, and which lines it keeps.
use cpp_temp_learn.Prelude.{
  c_text, ℕ, zero, suc, ◌<◌, true, false, [], ◌∷◌, ◌++◌, Option, none, some, ◌≡◌, refl, sym, ap,
  ◌∙◌, inl, inr, arith, Bytes, length, length-append, is_empty, getlines, Lacks, All, append-nil,
  append_assoc, List-cases, subst,
}
use cpp_temp_learn.Shell.{Shell}
use cpp_temp_learn.Shell.Execution.{
  ShellOs, newline, buffer_room, piped_command, is_null_device, open_pipe, collect, read_error,
  read_output, finish, after_system, run_piped, exec_command,
}

c_text-Lacks : (s : Bytes) → Lacks 0 s → c_text s ≡ s
unfolding c_text
c_text-Lacks [] h = refl
c_text-Lacks (c ∷ s) h = ground (arith, h.0, c_text-Lacks s h.1)

All-append_both : (P : ℕ → Type 0) (a b : Bytes) → All P (a ++ b) → All P a × All P b
All-append_both P [] b h = (tt, h)
All-append_both P (x ∷ a) b h = let (h', k) = All-append_both P a b h.1 in ((h.0, h'), k)

module _ {World : Type 0} (os : ShellOs World) where
  open os use {system, read, available, read_takes, read_ends}

  pub collect_end :
      (n : ℕ) (w : World) (fd : ℕ) (acc : Bytes)
      → (read w fd buffer_room).1 ≡ []
      → collect os (suc n) w fd acc ≡ some ((read w fd buffer_room).0, acc)
  unfolding collect
  collect_end n w fd acc e = rw (e, collect) refl

  pub collect_more :
      (n : ℕ) (w : World) (fd : ℕ) (acc : Bytes) (c : ℕ) (rest : Bytes)
      → (read w fd buffer_room).1 ≡ c ∷ rest
      → collect os (suc n) w fd acc
        ≡ collect os n (read w fd buffer_room).0 fd (acc ++ c_text (c ∷ rest))
  unfolding collect
  collect_more n w fd acc c rest e = rw (e, collect) refl

  -- The loop reads all that waits in the pipe.
  collect-available :
      (fuel : ℕ) (w : World) (fd : ℕ) (acc : Bytes)
      → Lacks 0 (available w fd)
      → length (available w fd) < fuel
      → (w' : World) × (collect os fuel w fd acc ≡ some (w', acc ++ available w fd))
  collect-available zero w fd acc h l = absurd (omega (arith, l))
  collect-available (suc n) w fd acc h l = elim (List-cases (read w fd buffer_room).1) [
    | inl e ↦
        let w' = (read w fd buffer_room).0 in
        let nothing = read_ends w w' fd buffer_room (omega arith) (ap (λ b. (w', b)) e) in
        (w', rw nothing (collect_end n w fd acc e ∙ ap (λ b. some (w', b)) (sym (append-nil acc))))
    | inr (c, rest, e) ↦
        let w' = (read w fd buffer_room).0 in
        let front = read_takes w w' fd buffer_room (c ∷ rest) (ap (λ b. (w', b)) e) in
        let (plain, plain') =
          All-append_both _ (c ∷ rest) (available w' fd) (subst (Lacks 0) front h) in
        let (w'', ih) =
          collect-available n w' fd (acc ++ (c ∷ rest)) plain'
            (omega (arith, ap length front, length-append (c ∷ rest) (available w' fd))) in
        (
          w'',
          collect_more n w fd acc c rest e
              ∙ ap (λ t. collect os n w' fd (acc ++ t)) (c_text-Lacks (c ∷ rest) plain)
              ∙ ih
              ∙ ap (λ t. some (w'', t))
                  (append_assoc acc (c ∷ rest) (available w' fd) ∙ ap (λ t. acc ++ t) (sym front)),
        )
  ]

  -- What `execCommand` goes on with once the command has run.
  after_system-zero :
      (fuel : ℕ) (w : World) (sh : Shell) (r t : ℕ)
      → Lacks 0 (available w r)
      → length (available w r) < fuel
      → (w' : World) × (after_system os fuel w sh r t 0
          ≡ some (
            w',
            record sh { output_lines = getlines newline (available w r); exec_status = true },
          ))
  unfolding after_system read_output finish
  after_system-zero fuel w sh r t h l =
      let (w', e) = collect-available fuel w r [] h l in
      ((finish os w' sh (available w r) r t 0).0, rw (e, after_system) refl)

  pub after_system-suc :
      (fuel : ℕ) (w : World) (sh : Shell) (r t e : ℕ)
      → (w' : World) × (sh' : Shell) × (after_system os fuel w sh r t (suc e) ≡ some (w', sh'))
        × (sh'.exec_status ≡ false)
        × (sh'.output_lines ≡ [])
  unfolding after_system read_output finish getlines
  after_system-suc fuel w sh r t e =
      let (w', sh') = read_error os w r sh in
      (
        (finish os w' sh' [] r t (suc e)).0,
        (finish os w' sh' [] r t (suc e)).1,
        refl,
        ground arith,
        refl,
      )

  abbrev pub cleared : Shell → Shell
  cleared sh = record sh { exec_status = false; output_lines = [] }

  module _ (fuel : ℕ) (w : World) (sh : Shell) (ready : sh.shell_available ≡ true)
      (given : is_empty sh.command ≡ false) (kept : is_null_device sh.output_path ≡ false) where
    pub goes_piped : exec_command os fuel w sh ≡ run_piped os fuel w (cleared sh)
    unfolding exec_command
    goes_piped = rw (ready, given, kept, exec_command) refl

    module _ (w1 w2 : World) (r t ret : ℕ) (opened : open_pipe os w ≡ (w1, some (r, t)))
        (ran : system w1 (piped_command sh t) ≡ some (w2, ret)) where
      goes_on : exec_command os fuel w sh ≡ after_system os fuel w2 (cleared sh) r t ret
      unfolding run_piped piped_command
      goes_on =
          goes_piped
          ∙ ap
              (λ p. elim p.1 as (λ x. Option (World × Shell)) [
                | none ↦ some (p.0, cleared sh)
                | some (r, t) ↦
                    elim (system p.0 (piped_command (cleared sh) t))
                      as (λ x. Option (World × Shell)) [
                        | none ↦ none
                        | some q ↦ after_system os fuel q.0 (cleared sh) r t q.1
                      ]
              ])
              opened
          ∙ ap
              (λ (s : Option (World × ℕ)). elim s as (λ x. Option (World × Shell)) [
                | none ↦ none
                | some q ↦ after_system os fuel q.0 (cleared sh) r t q.1
              ])
              ran

  -- Where a shell is available, the command is not empty, its output does not go to '/dev/null', a
  -- pipe can be opened, and the system runs the command with success, then `execCommand` with fuel
  -- for the bytes that wait in the pipe ends, reports success, and keeps as its lines those of all
  -- the bytes that the command wrote, where none of them is NUL.
  pub exec_command-getlines :
      (fuel : ℕ) (w : World) (sh : Shell)
      → sh.shell_available ≡ true
      → is_empty sh.command ≡ false
      → is_null_device sh.output_path ≡ false
      → (w1 w2 : World) (r t : ℕ) → open_pipe os w ≡ (w1, some (r, t))
      → system w1 (piped_command sh t) ≡ some (w2, 0)
      → Lacks 0 (available w2 r)
      → length (available w2 r) < fuel
      → (w' : World) × (exec_command os fuel w sh
          ≡ some (
            w',
            record sh { output_lines = getlines newline (available w2 r); exec_status = true },
          ))
  exec_command-getlines fuel w sh ready given kept w1 w2 r t opened ran plain enough =
      let (w', e) = after_system-zero fuel w2 (cleared sh) r t plain enough in
      (w', goes_on fuel w sh ready given kept w1 w2 r t 0 opened ran ∙ e)

  -- Where a shell is available, the command is not empty, its output does not go to '/dev/null', a
  -- pipe can be opened, and the system runs the command without success, then `execCommand` ends with
  -- any fuel, reports failure, and keeps no line.
  pub exec_command-exec_status :
      (fuel : ℕ) (w : World) (sh : Shell)
      → sh.shell_available ≡ true
      → is_empty sh.command ≡ false
      → is_null_device sh.output_path ≡ false
      → (w1 w2 : World) (r t e : ℕ) → open_pipe os w ≡ (w1, some (r, t))
      → system w1 (piped_command sh t) ≡ some (w2, suc e)
      → (w' : World) × (sh' : Shell) × (exec_command os fuel w sh ≡ some (w', sh'))
        × (sh'.exec_status ≡ false)
        × (sh'.output_lines ≡ [])
  exec_command-exec_status fuel w sh ready given kept w1 w2 r t e opened ran =
      let (w', sh', eq, status, lines) = after_system-suc fuel w2 (cleared sh) r t e in
      (w', sh', goes_on fuel w sh ready given kept w1 w2 r t (suc e) opened ran ∙ eq, status, lines)
