-- ===== src/Shell/Execution.antt =====
-- libsrc/libcpputils/sysutil.cpp: `execute` and `execCommand`.
--
-- The read loop runs on fuel, and `none` is that it ran out, or that `system` does not come back.
use Prim.Native.Nat.{bit_or}
use cpp_temp_learn.Prelude.{
  c_text, decimal, ℕ, zero, suc, ◌<◌, ◌==◌, Bool, false, not, ◌&&◌, ◌||◌, List, [], ◌∷◌, ◌++◌,
  Option, none, some, ◌≡◌, Bytes, codes, length, is_empty, getlines, ltb, if◌then◌else◌,
}
use cpp_temp_learn.Strings.{starts_with}
use cpp_temp_learn.Shell.{Shell, shell_of}

-- The calls that `Shell` makes, on the state of the system. `system` is none where it does not come
-- back, as where the command writes more than the pipe holds and is blocked. `read` delivers nothing where it
-- returns 0 or -1. `available` is what waits in a pipe to be read: POSIX has a non-blocking read
-- take from its front, and deliver something as long as there is something; that nothing else
-- changes it holds where no process of the command goes on writing behind `system`.
pub record ShellOs (World : Type 0) : Type 0 where
  pub ready : World → ℕ
  pub system : World → Bytes → Option (World × ℕ)
  pub pipe : World → World × Option (ℕ × ℕ)
  pub get_flags : World → ℕ → Option ℕ
  pub set_flags : World → ℕ → ℕ → World × Bool
  pub read : World → ℕ → ℕ → World × Bytes
  pub fopen : World → Bytes → World × Option ℕ
  pub fwrite : World → ℕ → Bytes → World
  pub fclose : World → ℕ → World
  pub close : World → ℕ → World
  pub available : World → ℕ → Bytes
  pub read_takes :
      (w w' : World) (fd count : ℕ) (bs : Bytes)
      → read w fd count ≡ (w', bs)
      → available w fd ≡ bs ++ available w' fd
  pub read_ends :
      (w w' : World) (fd count : ℕ) → 0 < count → read w fd count ≡ (w', []) → available w fd ≡ []

abbrev pub newline : ℕ
newline = 10

-- `max_buf_size - 1`
abbrev pub buffer_room : ℕ
buffer_room = 4095

-- `find` of a text that is not npos
unfoldable pub contains : Bytes → Bytes → Bool
unfolding starts_with
contains needle [] = is_empty needle
contains needle (c ∷ s) = starts_with (c ∷ s) needle || contains needle s

unfoldable pub is_null_device : Bytes → Bool
unfolding contains
is_null_device path = not (is_empty path) && contains (codes "/dev/null") path

-- The command that writes all its output into the pipe.
unfoldable pub piped_command : Shell → ℕ → Bytes
unfolding decimal
piped_command sh fd = ((sh.command ++ (codes " 2>&" ++ decimal fd)) ++ (codes " >&" ++ decimal fd))

module _ {World : Type 0} (os : ShellOs World) where
  open os use {ready, system, pipe, get_flags, set_flags, read, fopen, fwrite, fclose, close}

  pub close_both : World → ℕ → ℕ → World
  close_both w r t = close (close w r) t

  -- `pipe` and the two calls of `fcntl`
  unfoldable pub open_pipe : World → World × Option (ℕ × ℕ)
  unfolding close_both
  open_pipe w =
      let (w1, fds) = pipe w in
      elim fds [
        | none ↦ (w1, none)
        | some (r, t) ↦ elim (get_flags w1 r) [
          | none ↦ (close_both w1 r t, none)
          | some opt ↦
              let (w2, ok) = set_flags w1 r (bit_or opt 0x800) in
              if ok then (w2, some (r, t)) else (close_both w2 r t, none)
        ]
      ]

  -- The loop over `read` of a command that succeeded.
  unfoldable pub collect : ℕ → World → ℕ → Bytes → Option (World × Bytes)
  unfolding c_text
  collect zero w fd acc = none
  collect (suc fuel) w fd acc =
      let (w', bs) = read w fd buffer_room in
      elim bs [ [] ↦ some (w', acc) | c ∷ rest ↦ collect fuel w' fd (acc ++ c_text (c ∷ rest)) ]

  -- The same loop of a command that failed: it ends with the first round.
  unfoldable pub read_error : World → ℕ → Shell → World × Shell
  unfolding c_text
  read_error w fd sh =
      let (w', bs) = read w fd buffer_room in
      elim bs [ [] ↦ (w', sh) | c ∷ rest ↦ (w', record sh { error_msg = c_text (c ∷ rest) }) ]

  unfoldable pub read_output : ℕ → World → ℕ → ℕ → Shell → Option (World × Shell × Bytes)
  unfolding collect read_error
  read_output fuel w fd zero sh = elim (collect fuel w fd []) [
    | none ↦ none
    | some (w', out) ↦ some (w', sh, out)
  ]
  read_output fuel w fd (suc e) sh = let (w', sh') = read_error w fd sh in some (w', sh', [])

  -- The lines go to the file of the redirection too, where that is open.
  unfoldable pub write_lines : World → Option ℕ → List Bytes → World
  write_lines w none lines = w
  write_lines w (some f) [] = fclose w f
  write_lines w (some f) (line ∷ lines) =
      let w' = fwrite w f line in
      write_lines (if ltb (length line) buffer_room then fwrite w' f (newline ∷ []) else w')
        (some f) lines

  unfoldable pub open_output : World → Shell → ℕ → World × Option ℕ
  open_output w sh ret =
      let opened = fopen w sh.output_path in
      if not (is_empty sh.output_path) && ret == 0 then opened else (w, none)

  -- `execCommand` behind the read loop
  unfoldable pub finish : World → Shell → Bytes → ℕ → ℕ → ℕ → World × Shell
  unfolding write_lines open_output close_both getlines
  finish w sh out r t ret =
      let lines = getlines newline out in
      let (w1, f) = open_output w sh ret in
      (
        close_both (write_lines w1 f lines) r t,
        record sh { output_lines = lines; exec_status = ret == 0 },
      )

  unfoldable pub after_system : ℕ → World → Shell → ℕ → ℕ → ℕ → Option (World × Shell)
  unfolding read_output finish
  after_system fuel w sh r t ret = elim (read_output fuel w r ret sh) [
    | none ↦ none
    | some (w', sh', out) ↦ some (finish w' sh' out r t ret)
  ]

  unfoldable pub run_piped : ℕ → World → Shell → Option (World × Shell)
  unfolding open_pipe piped_command after_system
  run_piped fuel w sh =
      let (w1, fds) = open_pipe w in
      elim fds [
        | none ↦ some (w1, sh)
        | some (r, t) ↦ elim (system w1 (piped_command sh t)) [
          | none ↦ none
          | some (w2, ret) ↦ after_system fuel w2 sh r t ret
        ]
      ]

  unfoldable pub run_null : World → Shell → Option (World × Shell)
  run_null w sh = elim (system w (sh.command ++ codes " > /dev/null")) [
    | none ↦ none
    | some (w', ret) ↦ some (w', record sh { exec_status = ret == 0 })
  ]

  -- `execCommand`
  unfoldable pub exec_command : ℕ → World → Shell → Option (World × Shell)
  unfolding run_piped run_null is_null_device
  exec_command fuel w sh =
      let idle = record sh { exec_status = false } in
      let cleared = record idle { output_lines = [] } in
      let piped = run_piped fuel w cleared in
      if not sh.shell_available
      then some (w, idle)
      else if is_empty sh.command
      then some (w, cleared)
      else if is_null_device sh.output_path
      then run_null w cleared
      else piped

  -- `execute`, whose result is the status
  unfoldable pub execute : ℕ → World → Shell → Bool → Option (World × Shell)
  unfolding exec_command
  execute fuel w sh to_dev_null =
      exec_command fuel w
        (if to_dev_null then record sh { output_path = codes "/dev/null" } else sh)

  -- A new `Shell` with a command, and its execution.
  unfoldable pub run : ℕ → World → Bytes → Option (World × Shell)
  unfolding execute shell_of
  run fuel w command = execute fuel w (shell_of (ready w) command) false
