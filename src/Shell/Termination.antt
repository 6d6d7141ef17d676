-- ===== src/Shell/Termination.antt =====
-- `execCommand` ends: its loop takes bytes from the pipe in each round but the last, and the
-- only thing that can keep it is the call of `system`.
use cpp_temp_learn.Prelude.{
  c_text, ℕ, zero, suc, ◌<◌, ◌==◌, true, false, [], ◌∷◌, ◌++◌, codes, Option, none, some, ◌⊎◌, ◌≡◌,
  refl, ap, ◌∙◌, inl, inr, arith, Bytes, length, length-append, is_empty, List-cases, Option-cases,
  Bool-cases,
}
use cpp_temp_learn.Shell.{Shell}
use cpp_temp_learn.Shell.Execution.{
  ShellOs, buffer_room, piped_command, is_null_device, open_pipe, collect, read_output, finish,
  after_system, run_piped, run_null, exec_command,
}
use cpp_temp_learn.Shell.Output.{collect_end, collect_more, after_system-suc, cleared, goes_piped}

module _ {World : Type 0} (os : ShellOs World) where
  open os use {system, read, available, read_takes}

  collect-ends :
      (fuel : ℕ) (w : World) (fd : ℕ) (acc : Bytes)
      → length (available w fd) < fuel
      → (r : World × Bytes) × (collect os fuel w fd acc ≡ some r)
  collect-ends zero w fd acc l = absurd (omega (arith, l))
  collect-ends (suc n) w fd acc l = elim (List-cases (read w fd buffer_room).1) [
    | inl e ↦ (_, collect_end os n w fd acc e)
    | inr (c, rest, e) ↦
        let w' = (read w fd buffer_room).0 in
        let front = read_takes w w' fd buffer_room (c ∷ rest) (ap (λ b. (w', b)) e) in
        let (r, ih) =
          collect-ends n w' fd (acc ++ c_text (c ∷ rest))
            (omega (arith, ap length front, length-append (c ∷ rest) (available w' fd))) in
        (r, collect_more os n w fd acc c rest e ∙ ih)
  ]

  after_system-ends :
      (fuel : ℕ) (w : World) (sh : Shell) (r t ret : ℕ)
      → length (available w r) < fuel
      → (q : World × Shell) × (after_system os fuel w sh r t ret ≡ some q)
  unfolding after_system read_output
  after_system-ends fuel w sh r t zero l =
      let ((w', out), e) = collect-ends fuel w r [] l in
      (finish os w' sh out r t 0, rw (e, after_system) refl)
  after_system-ends fuel w sh r t (suc e) l =
      let (w', sh', eq, _, _) = after_system-suc os fuel w sh r t e in ((w', sh'), eq)

  -- What `execCommand` comes to: it ends, or it waits for the system for ever.
  abbrev pub EndsUnless : Type 0 → (ℕ → Option (World × Shell)) → Type 0
  EndsUnless blocked run =
      ((fuel : ℕ) × (q : World × Shell) × (run fuel ≡ some q))
      ⊎ (blocked × ((fuel : ℕ) → run fuel ≡ none))

  -- The command in a pipe that was opened does not come back.
  abbrev pub PipedBlocks : World → Shell → Type 0
  PipedBlocks w sh =
      (w' : World) × (r : ℕ) × (t : ℕ) × (open_pipe os w ≡ (w', some (r, t)))
      × (system w' (piped_command sh t) ≡ none)

  abbrev pub Blocks : World → Shell → Type 0
  Blocks w sh =
      ((is_null_device sh.output_path ≡ true)
        × (system w (sh.command ++ codes " > /dev/null") ≡ none))
      ⊎ ((is_null_device sh.output_path ≡ false) × PipedBlocks w sh)

  run_piped-EndsUnless :
      (w : World) (sh : Shell) → EndsUnless (PipedBlocks w sh) (λ fuel. run_piped os fuel w sh)
  unfolding run_piped
  run_piped-EndsUnless w sh = elim (Option-cases (open_pipe os w).1) [
    | inl e ↦ inl (0, ((open_pipe os w).0, sh), rw (e, run_piped) refl)
    | inr ((r, t), e) ↦
        let w1 = (open_pipe os w).0 in
        elim (Option-cases (system w1 (piped_command sh t))) [
          | inl n ↦ inr ((w1, r, t, ap (λ p. (w1, p)) e, n), λ fuel. rw (e, n, run_piped) refl)
          | inr (ran, n) ↦
              let fuel = suc (length (available ran.0 r)) in
              let (q, h) = after_system-ends fuel ran.0 sh r t ran.1 (omega arith) in
              inl (fuel, q, rw (e, n, run_piped) h)
        ]
  ]

  run_null-EndsUnless :
      (w : World) (sh : Shell)
      → ((q : World × Shell) × (run_null os w sh ≡ some q))
        ⊎ ((system w (sh.command ++ codes " > /dev/null") ≡ none) × (run_null os w sh ≡ none))
  unfolding run_null
  run_null-EndsUnless w sh = elim (Option-cases (system w (sh.command ++ codes " > /dev/null"))) [
    | inl n ↦ inr (n, rw (n, run_null) refl)
    | inr (r, n) ↦ inl ((r.0, record sh { exec_status = r.1 == 0 }), rw (n, run_null) refl)
  ]

  goes_null :
      (fuel : ℕ) (w : World) (sh : Shell)
      → sh.shell_available ≡ true
      → is_empty sh.command ≡ false
      → is_null_device sh.output_path ≡ true
      → exec_command os fuel w sh ≡ run_null os w (cleared os sh)
  unfolding exec_command
  goes_null fuel w sh a b c = rw (a, b, c, exec_command) refl

  -- Whatever the state of the system and of the shell, there is an amount of fuel with which
  -- `execCommand` ends, unless the one call of `system` that it makes there, with the output of the
  -- command going to '/dev/null' or into the pipe that was opened, does not come back;
  -- `execCommand` does not come back then.
  pub exec_command-some :
      (w : World) (sh : Shell)
      → EndsUnless (Blocks w (cleared os sh)) (λ fuel. exec_command os fuel w sh)
  unfolding exec_command
  exec_command-some w sh = elim (Bool-cases sh.shell_available) [
    | inr a ↦ inl (0, (w, record sh { exec_status = false }), rw (a, exec_command) refl)
    | inl a ↦ elim (Bool-cases (is_empty sh.command)) [
      | inl b ↦ inl (0, (w, cleared os sh), rw (a, b, exec_command) refl)
      | inr b ↦ elim (Bool-cases (is_null_device sh.output_path)) [
        | inl c ↦ elim (run_null-EndsUnless w (cleared os sh)) [
          | inl (q, e) ↦ inl (0, q, goes_null 0 w sh a b c ∙ e)
          | inr (n, e) ↦ inr (inl (c, n), λ fuel. goes_null fuel w sh a b c ∙ e)
        ]
        | inr c ↦ elim (run_piped-EndsUnless w (cleared os sh)) [
          | inl (fuel, q, e) ↦ inl (fuel, q, goes_piped os fuel w sh a b c ∙ e)
          | inr (n, e) ↦ inr (inr (c, n), λ fuel. goes_piped os fuel w sh a b c ∙ e fuel)
        ]
      ]
    ]
  ]
