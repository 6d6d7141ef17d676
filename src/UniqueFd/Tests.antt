-- ===== src/UniqueFd/Tests.antt =====
-- The theorem on owners at a run with a descriptor that is moved from one owner to another.
use cpp_temp_learn.Prelude.{◌+◌, [], ◌∷◌, none, some, ◌≡◌, refl}
use cpp_temp_learn.UniqueFd.{
  Owners, Run, construct, move_construct, destroy, constructs, moves_new, destroys, start, next,
}
use cpp_temp_learn.UniqueFd.Ownership.{count, Run-closed}

abbrev over : Owners
over = record { living = []; closed = 3 ∷ []; released = [] }

moved : Run (3 ∷ []) over
unfolding construct move_construct destroy
moved =
    next
      (next (next (next start (constructs [] [] [] (some 3))) (moves_new [] [] (some 3) [] []))
        (destroys [] (none ∷ []) (some 3) [] []))
      (destroys [] [] none (3 ∷ []) [])

Run-closed_example : count 3 (3 ∷ []) + count 3 [] ≡ count 3 (3 ∷ [])
Run-closed_example = Run-closed 3 (3 ∷ []) over moved refl
