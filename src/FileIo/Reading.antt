-- ===== src/FileIo/Reading.antt =====
-- What `ReadFdToString`, `ReadFully` and `ReadFullyAtOffset` store.
use cpp_temp_learn.Prelude.{
  ℕ, zero, suc, ◌<◌, Bool, true, false, [], ◌∷◌, ◌++◌, Option, none, some, ◌≡◌, refl, sym, ap, ◌∙◌,
  ◌⊎◌, inl, inr, arith, Bytes, length, length-append, append-nil, append_assoc, List-cases,
  Option-cases,
}
use cpp_temp_learn.FileIo.{FdOs, buffer_size, read_on, read_fd_to_string}

module _ {World : Type 0} (os : FdOs World) where
  open os use {read, pread, pending, content, read_takes, read_ends, pread_takes, pread_keeps}

  read_on_fails :
      (n : ℕ) (w : World) (fd : ℕ) (acc : Bytes)
      → (read w fd buffer_size).1 ≡ none
      → read_on os (suc n) w fd acc ≡ some ((read w fd buffer_size).0, acc, false)
  unfolding read_on
  read_on_fails n w fd acc e = rw (e, read_on) refl

  read_on_ends :
      (n : ℕ) (w : World) (fd : ℕ) (acc : Bytes)
      → (read w fd buffer_size).1 ≡ some []
      → read_on os (suc n) w fd acc ≡ some ((read w fd buffer_size).0, acc, true)
  unfolding read_on
  read_on_ends n w fd acc e = rw (e, read_on) refl

  read_on_goes :
      (n : ℕ) (w : World) (fd : ℕ) (acc : Bytes) (c : ℕ) (bs : Bytes)
      → (read w fd buffer_size).1 ≡ some (c ∷ bs)
      → read_on os (suc n) w fd acc ≡ read_on os n (read w fd buffer_size).0 fd (acc ++ (c ∷ bs))
  unfolding read_on
  read_on_goes n w fd acc c bs e = rw (e, read_on) refl

  -- A result of reading all that is pending: what was stored, and what is left.
  abbrev Drained : Option (World × Bytes × Bool) → Bytes → Bytes → Type 0
  Drained result acc all =
      (w' : World) × (got : Bytes) × (rest : Bytes) × (ok : Bool) × (result
        ≡ some (w', acc ++ got, ok))
      × (all ≡ got ++ rest)
      × ((ok ≡ false) ⊎ (rest ≡ []))

  read_on-Drained :
      (fuel : ℕ) (w : World) (fd : ℕ) (acc : Bytes)
      → length (pending w fd) < fuel
      → Drained (read_on os fuel w fd acc) acc (pending w fd)
  read_on-Drained zero w fd acc l = absurd (omega (arith, l))
  read_on-Drained (suc n) w fd acc l =
      let w' = (read w fd buffer_size).0 in
      elim (Option-cases (read w fd buffer_size).1) [
        | inl e ↦ (
          w',
          [],
          pending w fd,
          false,
          read_on_fails n w fd acc e ∙ ap (λ a. some (w', a, false)) (sym (append-nil acc)),
          refl,
          inl refl,
        )
        | inr (bs, e) ↦ elim (List-cases bs) [
          | inl f ↦
              let g = e ∙ ap some f in
              (
                w',
                [],
                [],
                true,
                read_on_ends n w fd acc g ∙ ap (λ a. some (w', a, true)) (sym (append-nil acc)),
                read_ends w w' fd buffer_size (omega arith) (ap (λ b. (w', b)) g),
                inr refl,
              )
          | inr (c, more, f) ↦
              let g = e ∙ ap some f in
              let front = (read_takes w w' fd buffer_size (c ∷ more) (ap (λ b. (w', b)) g)).0 in
              let (w'', got, rest, ok, eq, split, done) =
                read_on-Drained n w' fd (acc ++ (c ∷ more))
                  (omega (arith, ap length front, length-append (c ∷ more) (pending w' fd))) in
              (
                w'',
                (c ∷ more) ++ got,
                rest,
                ok,
                read_on_goes n w fd acc c more g
                    ∙ eq
                    ∙ ap (λ a. some (w'', a, ok)) (append_assoc acc (c ∷ more) got),
                front ∙ ap (λ a. (c ∷ more) ++ a) split ∙ sym (append_assoc (c ∷ more) got rest),
                done,
              )
        ]
      ]

  -- `ReadFdToString` with fuel for the bytes that the descriptor has in front of it ends, and stores
  -- the first of these bytes: all of them, where it reports success.
  pub read_fd_to_string-pending :
      (fuel : ℕ) (w : World) (fd : ℕ)
      → length (pending w fd) < fuel
      → (w' : World) × (got : Bytes) × (rest : Bytes) × (ok : Bool) × (read_fd_to_string os fuel w
            fd
          ≡ some (w', got, ok))
        × (pending w fd ≡ got ++ rest)
        × ((ok ≡ false) ⊎ (rest ≡ []))
  unfolding read_fd_to_string
  read_fd_to_string-pending fuel w fd l = read_on-Drained fuel w fd [] l
