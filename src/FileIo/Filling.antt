-- ===== src/FileIo/Filling.antt =====
-- What `ReadFully` and `ReadFullyAtOffset` store.
use cpp_temp_learn.Prelude.{
  ℕ, zero, suc, ◌-◌, ◌+◌, ◌≤◌, ◌<◌, Bool, true, false, [], ◌∷◌, ◌++◌, Option, none, some, ◌≡◌, refl,
  sym, ap, ◌∙◌, ◌⊎◌, inl, inr, arith, Bytes, length, length-append, take, drop,
  take-append_of_length, append-nil, append_assoc, List-cases, Option-cases,
}
use cpp_temp_learn.FileIo.{FdOs, read_more, read_fully, read_more_at, read_fully_at_offset}

module _ {World : Type 0} (os : FdOs World) where
  open os use {read, pread, pending, content, read_takes, pread_takes, pread_keeps}

  -- A result of reading a number of the bytes in front: what was stored, and what is left.
  abbrev Filled : Option (World × Bytes × Bool) → Bytes → Bytes → ℕ → Type 0
  Filled result acc all count =
      (w' : World) × (got : Bytes) × (rest : Bytes) × (ok : Bool) × (result
        ≡ some (w', acc ++ got, ok))
      × (all ≡ got ++ rest)
      × (((ok ≡ true) × (length got ≡ count)) ⊎ ((ok ≡ false) × (length got < count)))

  stopped :
      {result : Option (World × Bytes × Bool)} (w' : World) (acc all : Bytes) (k : ℕ)
      → result ≡ some (w', acc, false)
      → Filled result acc all (suc k)
  stopped w' acc all k e = (
    w',
    [],
    all,
    false,
    e ∙ ap (λ a. some (w', a, false)) (sym (append-nil acc)),
    refl,
    inr (refl, omega arith),
  )

  longer :
      (c : ℕ) (more got : Bytes) (k : ℕ) (ok : Bool)
      → length (c ∷ more) ≤ suc k
      → ((ok ≡ true) × (length got ≡ suc k - length (c ∷ more)))
        ⊎ ((ok ≡ false) × (length got < suc k - length (c ∷ more)))
      → ((ok ≡ true) × (length ((c ∷ more) ++ got) ≡ suc k))
        ⊎ ((ok ≡ false) × (length ((c ∷ more) ++ got) < suc k))
  longer c more got k ok fits (inl (e, l)) =
      inl (e, omega (arith, l, fits, length-append (c ∷ more) got))
  longer c more got k ok fits (inr (e, l)) =
      inr (e, omega (arith, l, fits, length-append (c ∷ more) got))

  read_more_fails :
      (n k : ℕ) (w : World) (fd : ℕ) (acc : Bytes)
      → (read w fd (suc k)).1 ≡ none
      → read_more os (suc n) w fd (suc k) acc ≡ some ((read w fd (suc k)).0, acc, false)
  unfolding read_more
  read_more_fails n k w fd acc e = rw (e, read_more) refl

  read_more_ends :
      (n k : ℕ) (w : World) (fd : ℕ) (acc : Bytes)
      → (read w fd (suc k)).1 ≡ some []
      → read_more os (suc n) w fd (suc k) acc ≡ some ((read w fd (suc k)).0, acc, false)
  unfolding read_more
  read_more_ends n k w fd acc e = rw (e, read_more) refl

  read_more_goes :
      (n k : ℕ) (w : World) (fd : ℕ) (acc : Bytes) (c : ℕ) (bs : Bytes)
      → (read w fd (suc k)).1 ≡ some (c ∷ bs)
      → read_more os (suc n) w fd (suc k) acc
        ≡ read_more os n (read w fd (suc k)).0 fd (suc k - length (c ∷ bs)) (acc ++ (c ∷ bs))
  unfolding read_more
  read_more_goes n k w fd acc c bs e = rw (e, read_more) refl

  read_more-Filled :
      (fuel : ℕ) (w : World) (fd count : ℕ) (acc : Bytes)
      → count ≤ fuel
      → Filled (read_more os fuel w fd count acc) acc (pending w fd) count
  unfolding read_more
  read_more-Filled fuel w fd zero acc l = (
    w,
    [],
    pending w fd,
    true,
    ap (λ a. some (w, a, true)) (sym (append-nil acc)),
    refl,
    inl (refl, refl),
  )
  read_more-Filled zero w fd (suc k) acc l = absurd (omega (arith, l))
  read_more-Filled (suc n) w fd (suc k) acc l =
      let w' = (read w fd (suc k)).0 in
      elim (Option-cases (read w fd (suc k)).1) [
        | inl e ↦ stopped w' acc (pending w fd) k (read_more_fails n k w fd acc e)
        | inr (bs, e) ↦ elim (List-cases bs) [
          | inl f ↦ stopped w' acc (pending w fd) k (read_more_ends n k w fd acc (e ∙ ap some f))
          | inr (c, more, f) ↦
              let g = e ∙ ap some f in
              let (front, fits) = read_takes w w' fd (suc k) (c ∷ more) (ap (λ b. (w', b)) g) in
              let (w'', got, rest, ok, eq, split, done) =
                read_more-Filled n w' fd (suc k - length (c ∷ more)) (acc ++ (c ∷ more))
                  (omega (arith, l)) in
              (
                w'',
                (c ∷ more) ++ got,
                rest,
                ok,
                read_more_goes n k w fd acc c more g
                    ∙ eq
                    ∙ ap (λ a. some (w'', a, ok)) (append_assoc acc (c ∷ more) got),
                front ∙ ap (λ a. (c ∷ more) ++ a) (split) ∙ sym (append_assoc (c ∷ more) got rest),
                longer c more got k ok fits done,
              )
        ]
      ]

  read_more_at_fails :
      (n k : ℕ) (w : World) (fd offset : ℕ) (acc : Bytes)
      → (pread w fd (suc k) offset).1 ≡ none
      → read_more_at os (suc n) w fd (suc k) offset acc
        ≡ some ((pread w fd (suc k) offset).0, acc, false)
  unfolding read_more_at
  read_more_at_fails n k w fd offset acc e = rw (e, read_more_at) refl

  read_more_at_ends :
      (n k : ℕ) (w : World) (fd offset : ℕ) (acc : Bytes)
      → (pread w fd (suc k) offset).1 ≡ some []
      → read_more_at os (suc n) w fd (suc k) offset acc
        ≡ some ((pread w fd (suc k) offset).0, acc, false)
  unfolding read_more_at
  read_more_at_ends n k w fd offset acc e = rw (e, read_more_at) refl

  read_more_at_goes :
      (n k : ℕ) (w : World) (fd offset : ℕ) (acc : Bytes) (c : ℕ) (bs : Bytes)
      → (pread w fd (suc k) offset).1 ≡ some (c ∷ bs)
      → read_more_at os (suc n) w fd (suc k) offset acc
        ≡ read_more_at os n
            (pread w fd (suc k) offset).0
            fd
            (suc k - length (c ∷ bs))
            (offset + length (c ∷ bs))
            (acc ++ (c ∷ bs))
  unfolding read_more_at
  read_more_at_goes n k w fd offset acc c bs e = rw (e, read_more_at) refl

  read_more_at-Filled :
      (fuel : ℕ) (w : World) (fd count offset : ℕ) (acc : Bytes)
      → count ≤ fuel
      → Filled (read_more_at os fuel w fd count offset acc) acc (drop offset (content w fd)) count
  unfolding read_more_at
  read_more_at-Filled fuel w fd zero offset acc l = (
    w,
    [],
    drop offset (content w fd),
    true,
    ap (λ a. some (w, a, true)) (sym (append-nil acc)),
    refl,
    inl (refl, refl),
  )
  read_more_at-Filled zero w fd (suc k) offset acc l = absurd (omega (arith, l))
  read_more_at-Filled (suc n) w fd (suc k) offset acc l =
      let w' = (pread w fd (suc k) offset).0 in
      elim (Option-cases (pread w fd (suc k) offset).1) [
        | inl e ↦
            stopped w' acc (drop offset (content w fd)) k (read_more_at_fails n k w fd offset acc e)
        | inr (bs, e) ↦ elim (List-cases bs) [
          | inl f ↦
              stopped w' acc (drop offset (content w fd)) k
                (read_more_at_ends n k w fd offset acc (e ∙ ap some f))
          | inr (c, more, f) ↦
              let g = e ∙ ap some f in
              let (front, fits) =
                pread_takes w w' fd (suc k) offset (c ∷ more) (ap (λ b. (w', b)) g) in
              let (w'', got, rest, ok, eq, split, done) =
                read_more_at-Filled n w' fd (suc k - length (c ∷ more)) (offset + length (c ∷ more))
                  (acc ++ (c ∷ more)) (omega (arith, l)) in
              (
                w'',
                (c ∷ more) ++ got,
                rest,
                ok,
                read_more_at_goes n k w fd offset acc c more g
                    ∙ eq
                    ∙ ap (λ a. some (w'', a, ok)) (append_assoc acc (c ∷ more) got),
                front
                    ∙ ap (λ a. (c ∷ more) ++ a)
                        (ap (drop (offset + length (c ∷ more))) (
                            sym (
                              pread_keeps w w' fd (suc k) offset (some (c ∷ more))
                                (ap (λ b. (w', b)) g)))
                          ∙ split)
                    ∙ sym (append_assoc (c ∷ more) got rest),
                longer c more got k ok fits done,
              )
        ]
      ]

  -- `ReadFully` with fuel for its count ends, stores the first of the bytes that the descriptor
  -- has in front of it and never more than the count, and reports success exactly if it has stored
  -- as many as the count.
  pub read_fully-length :
      (fuel : ℕ) (w : World) (fd byte_count : ℕ)
      → byte_count ≤ fuel
      → (w' : World) × (got : Bytes) × (rest : Bytes) × (ok : Bool) × (read_fully os fuel w fd
            byte_count
          ≡ some (w', got, ok))
        × (pending w fd ≡ got ++ rest)
        × (((ok ≡ true) × (length got ≡ byte_count)) ⊎ ((ok ≡ false) × (length got < byte_count)))
  unfolding read_fully
  read_fully-length fuel w fd byte_count l = read_more-Filled fuel w fd byte_count [] l

  -- `ReadFullyAtOffset` with fuel for its count ends, stores the first of the bytes that stand in
  -- the file from the offset on and never more than the count, and reports success exactly if it has
  -- stored as many as the count.
  pub read_fully_at_offset-length :
      (fuel : ℕ) (w : World) (fd byte_count offset : ℕ)
      → byte_count ≤ fuel
      → (w' : World) × (got : Bytes) × (rest : Bytes) × (ok : Bool) × (read_fully_at_offset os fuel
            w fd byte_count offset
          ≡ some (w', got, ok))
        × (drop offset (content w fd) ≡ got ++ rest)
        × (((ok ≡ true) × (length got ≡ byte_count)) ⊎ ((ok ≡ false) × (length got < byte_count)))
  unfolding read_fully_at_offset
  read_fully_at_offset-length fuel w fd byte_count offset l =
      read_more_at-Filled fuel w fd byte_count offset [] l

  -- Where a descriptor stands at an offset in its file, `ReadFully` and `ReadFullyAtOffset` with this
  -- offset and with fuel for their count store the same bytes, if both report success.
  pub read_fully_at_offset-read_fully :
      (fuel : ℕ) (w : World) (fd byte_count offset : ℕ)
      → byte_count ≤ fuel
      → pending w fd ≡ drop offset (content w fd)
      → (w1 w2 : World) (got1 got2 : Bytes)
      → read_fully os fuel w fd byte_count ≡ some (w1, got1, true)
      → read_fully_at_offset os fuel w fd byte_count offset ≡ some (w2, got2, true)
      → got1 ≡ got2
  read_fully_at_offset-read_fully fuel w fd byte_count offset l stands w1 w2 got1 got2 e1 e2 =
      first (read_fully-length fuel w fd byte_count l) e1
      ∙ ap (take byte_count) stands
      ∙ sym (first (read_fully_at_offset-length fuel w fd byte_count offset l) e2)
    where
      first :
          {result : Option (World × Bytes × Bool)} {all : Bytes} {w3 : World} {got3 : Bytes}
          → (w' : World) × (got : Bytes) × (rest : Bytes) × (ok : Bool) × (result
              ≡ some (w', got, ok))
            × (all ≡ got ++ rest)
            × (((ok ≡ true) × (length got ≡ byte_count))
                ⊎ ((ok ≡ false) × (length got < byte_count)))
          → result ≡ some (w3, got3, true)
          → got3 ≡ take byte_count all
      first (w', got, rest, ok, eq, split, inl (_, k)) e =
          ap
            (λ (x : Option (World × Bytes × Bool)). elim x as (λ y. Bytes) [
              | none ↦ []
              | some t ↦ t.1
            ])
            (sym e ∙ eq)
          ∙ sym (take-append_of_length got rest)
          ∙ ap (λ (n : ℕ). take n (got ++ rest)) k
          ∙ ap (take byte_count) (sym split)
      first (w', got, rest, ok, eq, split, inr (f, k)) e =
          let h =
            ap
              (λ (x : Option (World × Bytes × Bool)). elim x as (λ y. Bool) [
                | none ↦ true
                | some t ↦ t.2
              ])
              (sym e ∙ eq) in
          absurd (cc (h, f))
