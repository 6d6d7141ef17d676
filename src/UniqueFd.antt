-- ===== src/UniqueFd.antt =====
-- libsrc/libcpputils/cpputils-base/unique_fd.h: the owner of a descriptor.
--
-- `fd_` is an option, with none for -1. `Closer::Close` and `errno`, which `reset` keeps, show only in
-- the list of the descriptors that were closed. `Closer::Tag` does nothing where it does not exist.
pub mod Ownership
mod Tests
use cpp_temp_learn.Prelude.{ℕ, Bool, true, false, List, [], ◌∷◌, ◌++◌, Option, none, some, ◌≡◌}

-- `reset(new_value)`: the descriptors closed so far, and `fd_`
unfoldable pub reset : List ℕ → Option ℕ → Option ℕ → List ℕ × Option ℕ
reset closed none new_value = (closed, new_value)
reset closed (some fd) new_value = (fd ∷ closed, new_value)

-- `release()`: `fd_`, and what is returned
unfoldable pub release : Option ℕ → Option ℕ × Option ℕ
release this = (none, this)

-- `unique_fd_impl(int)`
unfoldable pub construct : List ℕ → Option ℕ → List ℕ × Option ℕ
unfolding reset
construct closed fd = reset closed none fd

-- `~unique_fd_impl()`
unfoldable pub destroy : List ℕ → Option ℕ → List ℕ
unfolding reset
destroy closed this = (reset closed this none).0

-- `unique_fd_impl(unique_fd_impl &&)`: the new object and the other one
unfoldable pub move_construct : List ℕ → Option ℕ → List ℕ × Option ℕ × Option ℕ
unfolding reset release
move_construct closed other =
    let (other', fd) = release other in
    let (closed', this) = reset closed none fd in (closed', this, other')

-- `operator=(unique_fd_impl &&)` of another object: this one and the other one
unfoldable pub move_assign : List ℕ → Option ℕ → Option ℕ → List ℕ × Option ℕ × Option ℕ
unfolding reset
move_assign closed this other =
    let (closed', this') = reset closed this other in (closed', this', none)

-- `Pipe` and `Socketpair` behind a call that gave two descriptors
unfoldable pub reset_both : List ℕ → Option ℕ → Option ℕ → ℕ → ℕ → List ℕ × Option ℕ × Option ℕ
unfolding reset
reset_both closed left right a b =
    let (closed', left') = reset closed left (some a) in
    let (closed'', right') = reset closed' right (some b) in (closed'', left', right')

-- The owners that live, the descriptors that were closed, and those that were released.
pub record Owners : Type 0 where
  pub living : List (Option ℕ)
  pub closed : List ℕ
  pub released : List ℕ

abbrev pub listed : Option ℕ → List ℕ
listed none = []
listed (some fd) = fd ∷ []

-- A step of a program with owners, and the descriptors that it gives to them.
pub data Step : List ℕ → Owners → Owners → Type 0 where
  constructs :
      (l : List (Option ℕ)) (c r : List ℕ) (fd : Option ℕ)
      → Step
          (listed fd)
          (record { living = l; closed = c; released = r })
          (record { living = (construct c fd).1 ∷ l; closed = (construct c fd).0; released = r })
  destroys :
      (front back : List (Option ℕ)) (this : Option ℕ) (c r : List ℕ)
      → Step []
          (record { living = front ++ (this ∷ back); closed = c; released = r })
          (record { living = front ++ back; closed = destroy c this; released = r })
  resets :
      (front back : List (Option ℕ)) (this fd : Option ℕ) (c r : List ℕ)
      → Step
          (listed fd)
          (record { living = front ++ (this ∷ back); closed = c; released = r })
          (record {
            living = front ++ ((reset c this fd).1 ∷ back);
            closed = (reset c this fd).0;
            released = r;
          })
  releases :
      (front back : List (Option ℕ)) (this : Option ℕ) (c r : List ℕ)
      → Step []
          (record { living = front ++ (this ∷ back); closed = c; released = r })
          (record {
            living = front ++ ((release this).0 ∷ back);
            closed = c;
            released = listed (release this).1 ++ r;
          })
  moves_new :
      (front back : List (Option ℕ)) (other : Option ℕ) (c r : List ℕ)
      → Step []
          (record { living = front ++ (other ∷ back); closed = c; released = r })
          (record {
            living = (move_construct c other).1 ∷ (front ++ ((move_construct c other).2 ∷ back));
            closed = (move_construct c other).0;
            released = r;
          })
  moves_right :
      (front mid back : List (Option ℕ)) (this other : Option ℕ) (c r : List ℕ)
      → Step []
          (record { living = front ++ (this ∷ (mid ++ (other ∷ back))); closed = c; released = r })
          (record {
            living =
                front
                ++ ((move_assign c this other).1 ∷ (mid ++ ((move_assign c this other).2 ∷ back)));
            closed = (move_assign c this other).0;
            released = r;
          })
  moves_left :
      (front mid back : List (Option ℕ)) (this other : Option ℕ) (c r : List ℕ)
      → Step []
          (record { living = front ++ (other ∷ (mid ++ (this ∷ back))); closed = c; released = r })
          (record {
            living =
                front
                ++ ((move_assign c this other).2 ∷ (mid ++ ((move_assign c this other).1 ∷ back)));
            closed = (move_assign c this other).0;
            released = r;
          })
  resets_both :
      (front mid back : List (Option ℕ)) (left right : Option ℕ) (a b : ℕ) (c r : List ℕ)
      → Step
          (a ∷ b ∷ [])
          (record { living = front ++ (left ∷ (mid ++ (right ∷ back))); closed = c; released = r })
          (record {
            living =
                front
                ++ ((reset_both c left right a b).1
                    ∷ (mid ++ ((reset_both c left right a b).2 ∷ back)));
            closed = (reset_both c left right a b).0;
            released = r;
          })

abbrev pub no_owners : Owners
no_owners = record { living = []; closed = []; released = [] }

-- A run of a program from no owners on, and all descriptors that it gives to owners.
pub data Run : List ℕ → Owners → Type 0 where
  start : Run [] no_owners
  next : {given more : List ℕ} {s t : Owners} → Run given s → Step more s t → Run (more ++ given) t
