-- ===== src/UniqueFd/Ownership.antt =====
-- No descriptor is lost, and none is closed twice.
use cpp_temp_learn.Prelude.{
  ℕ, ◌+◌, ◌==◌, List, [], ◌∷◌, ◌++◌, Option, none, some, ◌≡◌, refl, ap, arith, if◌then◌else◌,
}
use cpp_temp_learn.UniqueFd.{
  reset, release, construct, destroy, move_construct, move_assign, reset_both, Owners, listed, Step,
  constructs, destroys, resets, releases, moves_new, moves_right, moves_left, resets_both, Run,
  start, next,
}

abbrev pub count : ℕ → List ℕ → ℕ
count x [] = 0
count x (y ∷ ys) = (if x == y then 1 else 0) + count x ys

abbrev owned : ℕ → List (Option ℕ) → ℕ
owned x [] = 0
owned x (o ∷ os) = count x (listed o) + owned x os

count-append : (x : ℕ) (a b : List ℕ) → count x (a ++ b) ≡ count x a + count x b
count-append x [] b = omega arith
count-append x (y ∷ a) b = omega (arith, count-append x a b)

owned-append : (x : ℕ) (a b : List (Option ℕ)) → owned x (a ++ b) ≡ owned x a + owned x b
owned-append x [] b = omega arith
owned-append x (o ∷ a) b = omega (arith, owned-append x a b)

-- How often a descriptor is owned, was closed and was released.
abbrev total : ℕ → Owners → ℕ
total x s = owned x s.living + count x s.closed + count x s.released

reset-count :
    (x : ℕ) (c : List ℕ) (this fd : Option ℕ)
    → count x (reset c this fd).0 ≡ count x c + count x (listed this)
unfolding reset
reset-count x c none fd = omega arith
reset-count x c (some f) fd = omega arith

reset-value : (c : List ℕ) (this fd : Option ℕ) → (reset c this fd).1 ≡ fd
unfolding reset
reset-value c none fd = refl
reset-value c (some f) fd = refl

owned-two :
    (x : ℕ) (front mid back : List (Option ℕ)) (o p : Option ℕ)
    → owned x (front ++ (o ∷ (mid ++ (p ∷ back))))
      ≡ owned x front + (count x (listed o) + (owned x mid + (count x (listed p) + owned x back)))
owned-two x front mid back o p =
    omega (arith, owned-append x front (o ∷ (mid ++ (p ∷ back))), owned-append x mid (p ∷ back))

Step-total :
    (x : ℕ) {given : List ℕ} {s t : Owners} → Step given s t → total x t ≡ count x given + total x s
unfolding construct destroy release move_construct move_assign reset_both
Step-total x (constructs l c r fd) =
    omega (arith, reset-count x c none fd, ap (λ o. count x (listed o)) (reset-value c none fd))
Step-total x (destroys front back this c r) = omega (
  arith,
  reset-count x c this none,
  owned-append x front (this ∷ back),
  owned-append x front back,
)
Step-total x (resets front back this fd c r) = omega (
  arith,
  reset-count x c this fd,
  owned-append x front (this ∷ back),
  owned-append x front ((reset c this fd).1 ∷ back),
  ap (λ o. count x (listed o)) (reset-value c this fd),
)
Step-total x (releases front back this c r) = omega (
  arith,
  owned-append x front (this ∷ back),
  owned-append x front (none ∷ back),
  count-append x (listed this) r,
)
Step-total x (moves_new front back other c r) =
    omega (arith, owned-append x front (other ∷ back), owned-append x front (none ∷ back))
Step-total x (moves_right front mid back this other c r) = omega (
  arith,
  owned-two x front mid back this other,
  owned-two x front mid back (reset c this other).1 none,
  reset-count x c this other,
  ap (λ o. count x (listed o)) (reset-value c this other),
)
Step-total x (moves_left front mid back this other c r) = omega (
  arith,
  owned-two x front mid back other this,
  owned-two x front mid back none (reset c this other).1,
  reset-count x c this other,
  ap (λ o. count x (listed o)) (reset-value c this other),
)
Step-total x (resets_both front mid back left right a b c r) =
    let first = reset c left (some a) in
    let second = reset first.0 right (some b) in
    omega (
      arith,
      owned-two x front mid back left right,
      owned-two x front mid back first.1 second.1,
      reset-count x c left (some a),
      reset-count x first.0 right (some b),
      ap (λ o. count x (listed o)) (reset-value c left (some a)),
      ap (λ o. count x (listed o)) (reset-value first.0 right (some b)),
    )

Run-total : (x : ℕ) {given : List ℕ} {s : Owners} → Run given s → total x s ≡ count x given
Run-total x start = omega arith
Run-total x (next {given} {more} run step) =
    omega (arith, Step-total x step, Run-total x run, count-append x more given)

-- When a program with owners of descriptors has come to where none of them lives, each descriptor was
-- closed as often as it was given to an owner, less as often as it was released.
pub Run-closed :
    (x : ℕ) (given : List ℕ) (s : Owners)
    → Run given s
    → s.living ≡ []
    → count x s.closed + count x s.released ≡ count x given
Run-closed x given s run gone = omega (arith, Run-total x run, ap (owned x) gone)
