-- ===== src/FileIo/RoundTrip.antt =====
-- `ReadFileToString` of what `WriteStringToFile` has saved.
use cpp_temp_learn.Prelude.{
  ℕ, ◌<◌, Bool, true, false, [], ◌++◌, Option, none, some, ◌≡◌, refl, sym, ap, ◌∙◌, ◌⊎◌, inl, inr,
  arith, Bytes, length, append-nil, Option-cases,
}
use cpp_temp_learn.FileIo.Reading.{read_fd_to_string-pending}
use cpp_temp_learn.FileIo.Files.{FileOs, read_file_to_string, write_string_to_file}
use cpp_temp_learn.FileIo.Saving.{left, write_string_to_file-file}

module _ {World : Type 0} (os : FileOs World) where
  open os use {
    fds, open_read, open_write, close, fchmod, fchown, file, IsOpen, open_read_pending,
    open_write_IsOpen, write_IsOpen, fchmod_IsOpen, fchown_IsOpen, close_file,
  }

  read_file_to_string-file :
      (fuel : ℕ) (w : World) (text path : Bytes) (follow : Bool)
      → length text < fuel
      → file w path ≡ some text
      → (w' : World) × (got : Bytes) × (ok : Bool) × (read_file_to_string os fuel w path follow
          ≡ some (w', got, ok))
        × ((ok ≡ false) ⊎ (got ≡ text))
  unfolding read_file_to_string
  read_file_to_string-file fuel w text path follow l at =
      let w1 = (open_read w path follow).0 in
      elim (Option-cases (open_read w path follow).1) [
        | inl e ↦ (w1, [], false, rw (e, read_file_to_string) refl, inl refl)
        | inr (fd, e) ↦
            let whole : text ≡ fds.pending w1 fd =
              ap (or_empty)
                (sym at ∙ open_read_pending w w1 path follow fd (ap (λ r. (w1, r)) e)) in
            let (w2, got, rest, ok, eq, split, done) =
              read_fd_to_string-pending fds fuel w1 fd (omega (arith, l, ap length whole)) in
            (
              close w2 fd,
              got,
              ok,
              rw (e, eq, read_file_to_string) refl,
              elim done [
                | inl f ↦ inl f
                | inr f ↦
                    inr (sym (append-nil got) ∙ ap (λ r. got ++ r) (sym f) ∙ sym split ∙ sym whole)
              ],
            )
      ]
    where
      or_empty : Option Bytes → Bytes
      or_empty none = []
      or_empty (some s) = s

  -- What `WriteStringToFile` has saved with success, `ReadFileToString` with fuel for one byte more
  -- reads back, unless it reports failure.
  pub read_file_to_string-write_string_to_file :
      (fuel : ℕ) (w w1 : World) (text path : Bytes) (follow again : Bool)
      → length text < fuel
      → write_string_to_file os fuel w text path follow ≡ some (w1, true)
      → (w2 : World) × (got : Bytes) × (ok : Bool) × (read_file_to_string os fuel w1 path again
          ≡ some (w2, got, ok))
        × ((ok ≡ false) ⊎ (got ≡ text))
  read_file_to_string-write_string_to_file fuel w w1 text path follow again l saved =
      let (w', ok, eq, done) =
        write_string_to_file-file os fuel w text path follow (omega (arith, l)) in
      let same : ◌≡◌ {A = Option (World × Bool)} (some (w', ok)) (some (w1, true)) =
        sym eq ∙ saved in
      read_file_to_string-file fuel w1 text path again l
        (elim done as (λ x. file w1 path ≡ some text) [
          | inl (_, at) ↦ sym (ap (λ r. file (left os w r) path) same) ∙ at
          | inr (f, _) ↦ absurd (
              cc (
                f,
                ap
                    (λ (r : Option (World × Bool)). elim r as (λ y. Bool) [
                      | none ↦ true
                      | some q ↦ q.1
                    ])
                    same,
              ))
        ])
