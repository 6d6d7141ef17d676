-- ===== src/FileIo/Links.antt =====
-- `Readlink` and `RemoveFileIfExists`.
use cpp_temp_learn.Prelude.{
  ℕ, zero, suc, ◌*◌, ◌+◌, ◌≤◌, ◌<◌, Bool, true, false, ◌||◌, ◌==◌, [], ◌∷◌, Option, none, some, ◌≡◌,
  refl, ap, ◌∙◌, ◌⊎◌, inl, inr, arith, Bytes, codes, length, length-take, take, ltb, ltb→lt, lt→ltb,
  Bool-cases, Option-cases,
}
use cpp_temp_learn.FileSystem.{is_reg, is_link}
use cpp_temp_learn.FileIo.Files.{
  FileOs, Reply, found, failed, no_entry, not_directory, readlink_from, read_link,
  remove_file_if_exists,
}

Reply-cases : {A : Type 0} (r : Reply A) → ((a : A) × (r ≡ found a)) ⊎ ((e : ℕ) × (r ≡ failed e))
Reply-cases (found a) = inl (a, refl)
Reply-cases (failed e) = inr (e, refl)

take-all : (n : ℕ) (p : Bytes) → length p ≤ n → take n p ≡ p
take-all zero [] l = refl
take-all (suc n) [] l = refl
take-all zero (c ∷ p) l = absurd (omega (arith, l))
take-all (suc n) (c ∷ p) l = ap (◌∷◌ c) (take-all n p (omega (arith, l)))

module _ {World : Type 0} (os : FileOs World) where
  open os use {link, readlink, readlink_takes, readlink_fails, lstat, unlink, unlink_gone, strerror}

  readlink_from_fits :
      (n : ℕ) (w : World) (path t : Bytes) (size : ℕ)
      → readlink w path size ≡ some t
      → ltb (length t) size ≡ true
      → readlink_from os (suc n) w path size ≡ some (some t)
  unfolding readlink_from
  readlink_from_fits n w path t size e b = rw (e, b, readlink_from) refl

  readlink_from_doubles :
      (n : ℕ) (w : World) (path t : Bytes) (size : ℕ)
      → readlink w path size ≡ some t
      → ltb (length t) size ≡ false
      → readlink_from os (suc n) w path size ≡ readlink_from os n w path (size * 2)
  unfolding readlink_from
  readlink_from_doubles n w path t size e b = rw (e, b, readlink_from) refl

  -- The loop with more rounds than the target has bytes behind the size that it starts with.
  readlink_from-some :
      (n : ℕ) (w : World) (path target : Bytes) (size : ℕ)
      → link w path ≡ some target
      → 0 < size
      → length target < size + n
      → readlink_from os (suc n) w path size ≡ some (some target)
  readlink_from-some zero w path target size at pos l =
      readlink_from_fits zero w path (take size target) size (readlink_takes w path target size at)
        (lt→ltb _ _ (omega (arith, l, length-take size target)))
      ∙ ap (λ t. some (some t)) (take-all size target (omega (arith, l)))
  readlink_from-some (suc n) w path target size at pos l =
      let read = readlink_takes w path target size at in
      let full = length-take size target in
      elim (Bool-cases (ltb (length (take size target)) size)) [
        | inl b ↦
            let short = ltb→lt (length (take size target)) size b in
            readlink_from_fits (suc n) w path (take size target) size read b
            ∙ ap (λ t. some (some t)) (take-all size target (omega (arith, full, short)))
        | inr b ↦
            readlink_from_doubles (suc n) w path (take size target) size read b
            ∙ readlink_from-some n w path target (size * 2) at (omega (arith, pos))
                (omega (arith, pos, l))
      ]

  -- `Readlink` with one round more than the target of a symbolic link has bytes ends with success and
  -- gives the whole target.
  pub read_link-link :
      (fuel : ℕ) (w : World) (path target : Bytes)
      → link w path ≡ some target
      → length target < fuel
      → read_link os fuel w path ≡ some (some target)
  unfolding read_link
  read_link-link zero w path target at l = absurd (omega (arith, l))
  read_link-link (suc n) w path target at l =
      readlink_from-some n w path target 4096 at (omega arith) (omega (arith, l))

  -- Where `RemoveFileIfExists` reports success, nothing stands at the path: there is no such entry
  -- or the directory in front is none. Where it reports failure, it has set an error text.
  pub remove_file_if_exists-lstat :
      (w : World) (path : Bytes)
      → (w' : World) × (ok : Bool) × (err : Option Bytes) × (remove_file_if_exists os w path
          ≡ (w', ok, err))
        × (((ok ≡ true)
              × (err ≡ none)
              × (e : ℕ) × (lstat w' path ≡ failed e)
              × ((e ≡ no_entry) ⊎ (e ≡ not_directory)))
            ⊎ ((ok ≡ false) × (text : Bytes) × (err ≡ some text)))
  unfolding remove_file_if_exists
  remove_file_if_exists-lstat w path = elim (Reply-cases (lstat w path)) [
    | inr (e, f) ↦ elim (Bool-cases (e == no_entry)) [
      | inl b ↦ (
        w,
        true,
        none,
        rw (f, b, remove_file_if_exists) refl,
        inl (refl, refl, e, f, inl (ground (arith, b))),
      )
      | inr b ↦ elim (Bool-cases (e == not_directory)) [
        | inl c ↦ (
          w,
          true,
          none,
          rw (f, b, c, remove_file_if_exists) refl,
          inl (refl, refl, e, f, inr (ground (arith, c))),
        )
        | inr c ↦ (
          w,
          false,
          some (strerror e),
          rw (f, b, c, remove_file_if_exists) refl,
          inr (refl, strerror e, refl),
        )
      ]
    ]
    | inl (s, f) ↦ elim (Bool-cases (is_reg s || is_link s)) [
      | inr b ↦ (
        w,
        false,
        some (codes "is not a regular file or symbolic link"),
        rw (f, b, remove_file_if_exists) refl,
        inr (refl, codes "is not a regular file or symbolic link", refl),
      )
      | inl b ↦ elim (Option-cases (unlink w path).1) [
        | inl u ↦ (
          (unlink w path).0,
          true,
          none,
          rw (f, b, u, remove_file_if_exists) refl,
          inl (
            refl,
            refl,
            no_entry,
            unlink_gone w (unlink w path).0 path (ap (λ r. ((unlink w path).0, r)) u),
            inl refl,
          ),
        )
        | inr (e, u) ↦ (
          (unlink w path).0,
          false,
          some (strerror e),
          rw (f, b, u, remove_file_if_exists) refl,
          inr (refl, strerror e, refl),
        )
      ]
    ]
  ]
