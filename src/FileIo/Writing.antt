-- ===== src/FileIo/Writing.antt =====
-- What `WriteStringToFd` and `WriteFully` write.
use cpp_temp_learn.Prelude.{
  ℕ, zero, suc, ◌-◌, ◌+◌, ◌≤◌, ◌<◌, Bool, true, false, [], ◌∷◌, ◌++◌, Option, none, some, ◌≡◌, refl,
  sym, ap, ◌∙◌, ◌⊎◌, inl, inr, arith, Bytes, length, length-take, length-drop, take, drop, take-add,
  append-nil, append_assoc, Option-cases,
}
use cpp_temp_learn.FileIo.{FdOs, write_on, write_string_to_fd}

take-take : (n m : ℕ) (p : Bytes) → n ≤ m → take n (take m p) ≡ take n p
take-take zero m p l = refl
take-take (suc n) zero p l = absurd (omega (arith, l))
take-take (suc n) (suc m) [] l = refl
take-take (suc n) (suc m) (c ∷ p) l = ap (◌∷◌ c) (take-take n m p (omega (arith, l)))

pub take-length : (p : Bytes) → take (length p) p ≡ p
take-length [] = refl
take-length (c ∷ p) = ap (◌∷◌ c) (take-length p)

module _ {World : Type 0} (os : FdOs World) where
  open os use {write, written, write_adds, write_goes_on, write_fails}

  pub write_on_fails :
      (n k : ℕ) (w : World) (fd : ℕ) (p : Bytes)
      → (write w fd (take (suc k) p)).1 ≡ none
      → write_on os (suc n) w fd p (suc k) ≡ some ((write w fd (take (suc k) p)).0, false)
  unfolding write_on
  write_on_fails n k w fd p e = rw (e, write_on) refl

  pub write_on_goes :
      (n k : ℕ) (w : World) (fd : ℕ) (p : Bytes) (m : ℕ)
      → (write w fd (take (suc k) p)).1 ≡ some m
      → write_on os (suc n) w fd p (suc k)
        ≡ write_on os n (write w fd (take (suc k) p)).0 fd (drop m p) (suc k - m)
  unfolding write_on
  write_on_goes n k w fd p m e = rw (e, write_on) refl

  -- How much of a text a write has left behind.
  abbrev pub Written : Option (World × Bool) → Bytes → ℕ → Bytes → ℕ → Type 0
  Written result old fd p left =
      (w' : World) × (n : ℕ) × (ok : Bool) × (result ≡ some (w', ok))
      × (written w' fd ≡ old ++ take n p)
      × (((ok ≡ true) × (n ≡ left)) ⊎ ((ok ≡ false) × (n < left)))

  write_on-Written :
      (fuel : ℕ) (w : World) (fd : ℕ) (p : Bytes) (left : ℕ)
      → left ≤ fuel
      → left ≤ length p
      → Written (write_on os fuel w fd p left) (written w fd) fd p left
  unfolding write_on
  write_on-Written fuel w fd p zero l s =
      (w, 0, true, refl, sym (append-nil (written w fd)), inl (refl, refl))
  write_on-Written zero w fd p (suc k) l s = absurd (omega (arith, l))
  write_on-Written (suc n) w fd p (suc k) l s =
      let bs = take (suc k) p in
      let w' = (write w fd bs).0 in
      elim (Option-cases (write w fd bs).1) [
        | inl e ↦ (
          w',
          0,
          false,
          write_on_fails n k w fd p e,
          write_fails w w' fd bs (ap (λ r. (w', r)) e) ∙ sym (append-nil (written w fd)),
          inr (refl, omega arith),
        )
        | inr (m, e) ↦
            let call : write w fd bs ≡ (w', some m) = ap (λ r. (w', r)) e in
            let (front, fits) = write_adds w w' fd m bs call in
            let full = length-take (suc k) p in
            let moves = write_goes_on w w' fd m bs (omega (arith, full, s)) call in
            let (w'', n', ok, eq, tail, done) =
              write_on-Written n w' fd (drop m p) (suc k - m) (omega (arith, l, moves))
                (omega (arith, length-drop m p, s)) in
            (
              w'',
              m + n',
              ok,
              write_on_goes n k w fd p m e ∙ eq,
              tail
                  ∙ ap (λ a. a ++ take n' (drop m p))
                      (front
                        ∙ ap (λ a. written w fd ++ a)
                            (take-take m (suc k) p (omega (arith, fits, full, s))))
                  ∙ append_assoc (written w fd) (take m p) (take n' (drop m p))
                  ∙ ap (λ a. written w fd ++ a) (sym (take-add m n' p)),
              further m n' k ok (omega (arith, fits, full, s)) done,
            )
      ]
    where
      further :
          (m n' k : ℕ) (ok : Bool)
          → m ≤ suc k
          → ((ok ≡ true) × (n' ≡ suc k - m)) ⊎ ((ok ≡ false) × (n' < suc k - m))
          → ((ok ≡ true) × (m + n' ≡ suc k)) ⊎ ((ok ≡ false) × (m + n' < suc k))
      further m n' k ok fits (inl (e, l)) = inl (e, omega (arith, l, fits))
      further m n' k ok fits (inr (e, l)) = inr (e, omega (arith, l, fits))

  -- `WriteStringToFd` with fuel for the text ends, and has written the first bytes of the text in
  -- order behind what was there: all of them exactly if it reports success.
  pub write_string_to_fd-written :
      (fuel : ℕ) (w : World) (text : Bytes) (fd : ℕ)
      → length text ≤ fuel
      → (w' : World) × (n : ℕ) × (ok : Bool) × (write_string_to_fd os fuel w text fd
          ≡ some (w', ok))
        × (written w' fd ≡ written w fd ++ take n text)
        × (((ok ≡ true) × (n ≡ length text)) ⊎ ((ok ≡ false) × (n < length text)))
  unfolding write_string_to_fd
  write_string_to_fd-written fuel w text fd l =
      write_on-Written fuel w fd text (length text) l (omega arith)
