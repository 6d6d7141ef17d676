-- ===== src/FileIo/Saving.antt =====
-- What `WriteStringToFile` leaves in the file.
use cpp_temp_learn.Prelude.{
  ℕ, zero, suc, ◌-◌, ◌≤◌, ◌<◌, Bool, true, false, [], ◌++◌, Option, none, some, ◌≡◌, refl, sym, ap,
  ◌∙◌, ◌⊎◌, inl, inr, Bytes, length, take, drop, Option-cases, Bool-cases, subst,
}
use cpp_temp_learn.FileIo.{write_on, write_string_to_fd}
use cpp_temp_learn.FileIo.Writing.{
  take-length, write_on_fails, write_on_goes, write_string_to_fd-written,
}
use cpp_temp_learn.FileIo.Files.{
  FileOs, failed, no_entry, clean_up_after_failed_write, write_checked, write_string_to_file,
  write_owned, write_string_to_file_as,
}

module _ {World : Type 0} (os : FileOs World) where
  open os use {
    fds, open_write, close, fchmod, fchown, unlink, lstat, file, IsOpen, open_write_IsOpen,
    write_IsOpen, fchmod_IsOpen, fchown_IsOpen, close_file, unlink_gone,
  }

  abbrev pub left : World → Option (World × Bool) → World
  left w none = w
  left w (some r) = r.0

  moved_open :
      (fd : ℕ) (path : Bytes) (w w' : World) (a ok : Bool)
      → ◌≡◌ {A = Option (World × Bool)} (some (w, a)) (some (w', ok))
      → IsOpen w fd path
      → IsOpen w' fd path
  moved_open fd path w w' a ok e h = subst (λ v. IsOpen v fd path) (ap (left w) e) h

  -- A descriptor stays open for its path while it is written to.
  write_on-IsOpen :
      (fuel : ℕ) (w : World) (fd : ℕ) (p : Bytes) (n : ℕ) (path : Bytes) (w' : World) (ok : Bool)
      → write_on fds fuel w fd p n ≡ some (w', ok)
      → IsOpen w fd path
      → IsOpen w' fd path
  unfolding write_on
  write_on-IsOpen fuel w fd p zero path w' ok eq h = moved_open fd path w w' true ok eq h
  write_on-IsOpen zero w fd p (suc k) path w' ok eq h = absurd (cc eq)
  write_on-IsOpen (suc fuel) w fd p (suc k) path w' ok eq h =
      let call = fds.write w fd (take (suc k) p) in
      let next = λ (r : Option ℕ) (e : call.1 ≡ r).
        write_IsOpen w call.0 fd path (take (suc k) p) r (ap (λ x. (call.0, x)) e) h in
      elim (Option-cases call.1) as (λ x. IsOpen w' fd path) [
        | inl e ↦
            moved_open fd path call.0 w' false ok (sym (write_on_fails fds fuel k w fd p e) ∙ eq)
              (next none e)
        | inr (m, e) ↦
            write_on-IsOpen fuel call.0 fd (drop m p) (suc k - m) path w' ok
              (sym (write_on_goes fds fuel k w fd p m e) ∙ eq) (next (some m) e)
      ]

  -- How a write to a file can come out: whole, or with what has failed.
  abbrev Saved : World → Bytes → Bytes → Bool → Type 0 → Type 0
  Saved w' path text ok fault = ((ok ≡ true) × (file w' path ≡ some text)) ⊎ ((ok ≡ false) × fault)

  -- The file was unlinked, or `unlink` failed with an error; then its descriptor was closed.
  abbrev pub Unlinked : World → World → Bytes → ℕ → Type 0
  Unlinked w w' path fd =
      ((lstat (unlink w path).0 path ≡ failed no_entry) ⊎ ((e : ℕ) × ((unlink w path).1 ≡ some e)))
      × (w' ≡ close (unlink w path).0 fd)

  -- The write stopped with a part of the text and no more written, and the file was unlinked.
  abbrev pub Partial : ℕ → World → World → Bytes → Bytes → ℕ → Type 0
  Partial fuel w w' path text fd =
      (v : World) × (n : ℕ) × (write_string_to_fd fds fuel w text fd ≡ some (v, false))
      × (n < length text)
      × (fds.written v fd ≡ take n text)
      × Unlinked v w' path fd

  unlink-Unlinked :
      (w : World) (path : Bytes) (fd : ℕ) → Unlinked w (close (unlink w path).0 fd) path fd
  unlink-Unlinked w path fd = elim (Option-cases (unlink w path).1) [
    | inl e ↦
        (inl (unlink_gone w (unlink w path).0 path (ap (λ r. ((unlink w path).0, r)) e)), refl)
    | inr (n, e) ↦ (inr (n, e), refl)
  ]

  write_checked-Saved :
      (fuel : ℕ) (w : World) (text path : Bytes) (fd : ℕ)
      → length text ≤ fuel
      → IsOpen w fd path
      → fds.written w fd ≡ []
      → (w' : World) × (ok : Bool) × (write_checked os fuel w text path fd ≡ some (w', ok))
        × Saved w' path text ok (Partial fuel w w' path text fd)
  unfolding write_checked clean_up_after_failed_write
  write_checked-Saved fuel w text path fd l h empty =
      let (w1, n, ok, eq, front, done) = write_string_to_fd-written fds fuel w text fd l in
      let h1 = write_on-IsOpen fuel w fd text (length text) path w1 ok eq h in
      let front' : fds.written w1 fd ≡ take n text = front ∙ ap (λ a. a ++ take n text) empty in
      elim done [
        | inl (t, all) ↦ (
          close w1 fd,
          true,
          rw (eq, t, write_checked) refl,
          inl (
            refl,
            close_file w1 fd path h1
                ∙ ap some (front' ∙ ap (λ (m : ℕ). take m text) all ∙ take-length text),
          ),
        )
        | inr (f, part) ↦ (
          close (unlink w1 path).0 fd,
          false,
          rw (eq, f, write_checked) refl,
          inr (
            refl,
            (w1, n, eq ∙ ap (λ b. some (w1, b)) f, part, front', unlink-Unlinked w1 path fd),
          ),
        )
      ]

  Saved-fault :
      {fault fault' : Type 0} (w' : World) (path text : Bytes) (ok : Bool)
      → (fault → fault')
      → Saved w' path text ok fault
      → Saved w' path text ok fault'
  Saved-fault w' path text ok f (inl done) = inl done
  Saved-fault w' path text ok f (inr (e, bad)) = inr (e, f bad)

  -- What else can fail where the mode and the owner are set.
  abbrev Unowned : ℕ → World → World → Bytes → Bytes → ℕ → ℕ → ℕ → ℕ → Type 0
  Unowned fuel w w' path text mode owner group fd =
      let w1 = (fchmod w fd mode).0 in
      let w2 = (fchown w1 fd owner group).0 in
      (((fchmod w fd mode).1 ≡ false) × Unlinked w1 w' path fd)
      ⊎ ((((fchown w1 fd owner group).1 ≡ false) × Unlinked w2 w' path fd)
          ⊎ Partial fuel w2 w' path text fd)

  write_owned-Saved :
      (fuel : ℕ) (w : World) (text path : Bytes) (mode owner group fd : ℕ)
      → length text ≤ fuel
      → IsOpen w fd path
      → fds.written w fd ≡ []
      → (w' : World) × (ok : Bool) × (write_owned os fuel w text path mode owner group fd
          ≡ some (w', ok))
        × Saved w' path text ok (Unowned fuel w w' path text mode owner group fd)
  unfolding write_owned clean_up_after_failed_write
  write_owned-Saved fuel w text path mode owner group fd l h empty =
      let w1 = (fchmod w fd mode).0 in
      let w2 = (fchown w1 fd owner group).0 in
      let (h1, keeps1) = fchmod_IsOpen w w1 fd mode path (fchmod w fd mode).1 refl h in
      let (h2, keeps2) =
        fchown_IsOpen w1 w2 fd owner group path (fchown w1 fd owner group).1 refl h1 in
      let (w', ok, eq, done) =
        write_checked-Saved fuel w2 text path fd l h2 (keeps2 ∙ keeps1 ∙ empty) in
      elim (Bool-cases (fchmod w fd mode).1) [
        | inr a ↦ (
          close (unlink w1 path).0 fd,
          false,
          rw (a, write_owned) refl,
          inr (refl, inl (a, unlink-Unlinked w1 path fd)),
        )
        | inl a ↦ elim (Bool-cases (fchown w1 fd owner group).1) [
          | inr b ↦ (
            close (unlink w2 path).0 fd,
            false,
            rw (a, b, write_owned) refl,
            inr (refl, inr (inl (b, unlink-Unlinked w2 path fd))),
          )
          | inl b ↦ (
            w',
            ok,
            rw (a, b, write_owned) eq,
            Saved-fault w' path text ok (λ f. inr (inr f)) done,
          )
        ]
      ]

  -- `WriteStringToFile` with fuel for the text ends. Where it reports success, the file at the path
  -- holds the text and nothing else; where it reports failure, the file could not be opened and
  -- nothing else was done, or the write stopped with a part of the text and no more in the file,
  -- which was then unlinked, so that nothing stands at the path unless `unlink` failed, and closed.
  pub write_string_to_file-file :
      (fuel : ℕ) (w : World) (text path : Bytes) (follow : Bool)
      → length text ≤ fuel
      → (w' : World) × (ok : Bool) × (write_string_to_file os fuel w text path follow
          ≡ some (w', ok))
        × Saved w' path text ok (
            (((open_write w path 0x1b6 follow).1 ≡ none)
              × (w' ≡ (open_write w path 0x1b6 follow).0))
            ⊎ ((fd : ℕ) × ((open_write w path 0x1b6 follow).1 ≡ some fd)
                × Partial fuel (open_write w path 0x1b6 follow).0 w' path text fd))
  unfolding write_string_to_file
  write_string_to_file-file fuel w text path follow l =
      let w1 = (open_write w path 0x1b6 follow).0 in
      elim (Option-cases (open_write w path 0x1b6 follow).1) [
        | inl e ↦ (w1, false, rw (e, write_string_to_file) refl, inr (refl, inl (e, refl)))
        | inr (fd, e) ↦
            let (h, empty) = open_write_IsOpen w w1 path 0x1b6 follow fd (ap (λ r. (w1, r)) e) in
            let (w', ok, eq, done) = write_checked-Saved fuel w1 text path fd l h empty in
            (
              w',
              ok,
              rw (e, write_string_to_file) eq,
              Saved-fault w' path text ok (λ f. inr (fd, e, f)) done,
            )
      ]

  -- `WriteStringToFile` with a mode, an owner and a group, and with fuel for the text, ends. Where it
  -- reports success, the file at the path holds the text and nothing else; where it reports failure,
  -- the file could not be opened or its mode or its owner not be set, or a part of the text only was
  -- written.
  pub write_string_to_file_as-file :
      (fuel : ℕ) (w : World) (text path : Bytes) (mode owner group : ℕ) (follow : Bool)
      → length text ≤ fuel
      → (w' : World) × (ok : Bool) × (write_string_to_file_as os fuel w text path mode owner group
            follow
          ≡ some (w', ok))
        × Saved w' path text ok (
            (((open_write w path mode follow).1 ≡ none) × (w' ≡ (open_write w path mode follow).0))
            ⊎ ((fd : ℕ) × ((open_write w path mode follow).1 ≡ some fd)
                × Unowned fuel (open_write w path mode follow).0 w' path text mode owner group fd))
  unfolding write_string_to_file_as
  write_string_to_file_as-file fuel w text path mode owner group follow l =
      let w1 = (open_write w path mode follow).0 in
      elim (Option-cases (open_write w path mode follow).1) [
        | inl e ↦ (w1, false, rw (e, write_string_to_file_as) refl, inr (refl, inl (e, refl)))
        | inr (fd, e) ↦
            let (h, empty) = open_write_IsOpen w w1 path mode follow fd (ap (λ r. (w1, r)) e) in
            let (w', ok, eq, done) =
              write_owned-Saved fuel w1 text path mode owner group fd l h empty in
            (
              w',
              ok,
              rw (e, write_string_to_file_as) eq,
              Saved-fault w' path text ok (λ f. inr (fd, e, f)) done,
            )
      ]
