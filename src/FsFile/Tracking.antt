-- ===== src/FsFile/Tracking.antt =====
-- Which file the stream of a `File` is open at.
use cpp_temp_learn.Prelude.{
  ℕ, Bool, false, ◌||◌, Option, none, some, ◌≡◌, refl, sym, ap, ◌∙◌, ◌⊎◌, inl, inr, Bytes,
  Bool-cases, Option-cases, is_empty, subst,
}
use cpp_temp_learn.FilePath.{analyze}
use cpp_temp_learn.FileSystem.{Stat, Os}
use cpp_temp_learn.Shell.Execution.{ShellOs}
use cpp_temp_learn.FsObject.{
  FsObject, analyzed, set_object_path, get_stat, note, check_if_exists, is_exist,
}
use cpp_temp_learn.FsObject.Existence.{analyze-path}
use cpp_temp_learn.FsObject.Making.{make_path, resolve_real, get_absolute_path}
use cpp_temp_learn.FsObject.Commands.{move, remove}
use cpp_temp_learn.FsFile.{
  OpenMode, StreamOs, File, new_file, check_and_close, set_file_path, open_fstream, open_closed,
  open_init, open_at, on_closed, move_file, remove_closed,
}

-- The text of a file's path.
abbrev pub text_of : File → Bytes
text_of f = f.as_object.as_path.path

-- An open stream is at the real path that the object has, and the object's path is still the one,
-- with some text, that the stream was opened with.
abbrev pub IsTracked : Bytes → File → Type 0
IsTracked opened f =
    (f.stream ≡ none) ⊎ ((f.stream ≡ some f.as_object.real_path) × (text_of f ≡ opened))

-- Two objects with the same path and the same real path.
abbrev Agree : FsObject → FsObject → Type 0
Agree o' o = (o'.real_path ≡ o.real_path) × (o'.as_path.path ≡ o.as_path.path)

Agree-then : (o o' o'' : FsObject) → Agree o'' o' → Agree o' o → Agree o'' o
Agree-then o o' o'' (r, t) (r', t') = (r ∙ r', t ∙ t')

module _ (os : Os) (streams : StreamOs os.World) where
  open os use {World}

  -- The operations of the class on a file but for assignments, and anything that others do to the
  -- file system; with the text that the path had when the stream was last to be opened.
  pub data Step : World × File × Bytes → World × File × Bytes → Type 0 where
    sets :
        (w : World) (f : File) (t path : Bytes)
        → Step
            (w, f, t)
            ((set_file_path os streams w f path).0, (set_file_path os streams w f path).1, t)
    opens :
        (w : World) (f : File) (t : Bytes) (mode : OpenMode)
        → Step
            (w, f, t)
            ((open_init os streams w f mode).0, (open_init os streams w f mode).1, text_of f)
    opens_at :
        (w : World) (f : File) (t name : Bytes) (mode : OpenMode)
        → Step
            (w, f, t)
            (
              (open_at os streams w f name mode).0,
              (open_at os streams w f name mode).1,
              text_of (set_file_path os streams w f name).1,
            )
    moves :
        (sh : ShellOs World) (fuel : ℕ) (w w' : World) (f f' : File) (t d : Bytes) (ok : Bool)
        → move_file os streams sh fuel w f d ≡ some (w', f', ok)
        → Step (w, f, t) (w', f', t)
    removes :
        (sh : ShellOs World) (fuel : ℕ) (w w' : World) (f f' : File) (t : Bytes) (ok : Bool)
        → remove_closed os streams sh fuel w f ≡ some (w', f', ok)
        → Step (w, f, t) (w', f', t)
    others : (w w' : World) (f : File) (t : Bytes) → Step (w, f, t) (w', f, t)

  pub data Steps (s : World × File × Bytes) : World × File × Bytes → Type 0 where
    start : Steps s s
    next : {t u : World × File × Bytes} → Steps s t → Step t u → Steps s u

  get_stat-Agree : (w : World) (o : FsObject) → Agree (get_stat os w false o).0 o
  unfolding get_stat analyzed
  get_stat-Agree w o = elim (Bool-cases (is_empty o.as_path.path)) [
    | inl e ↦ rw (e, get_stat) (refl, refl)
    | inr e ↦ rw (e, get_stat) (refl, analyze-path o.as_path)
  ]

  note-Agree : (o : FsObject) (found : Option Stat) → Agree (note o found) o
  unfolding note
  note-Agree o none = (refl, refl)
  note-Agree o (some s) = (refl, refl)

  is_exist-Agree : (w : World) (o : FsObject) → Agree (is_exist os w o).0 o
  unfolding is_exist check_if_exists
  is_exist-Agree w o = elim (Bool-cases (o.as_path.exists || is_empty o.as_path.path)) [
    | inl e ↦ rw e (refl, refl)
    | inr e ↦
        let (o', found) = get_stat os w false o in
        rw e (Agree-then o o' (note o' found) (note-Agree o' found) (get_stat-Agree w o))
  ]

  make_path-text :
      (mode : ℕ) (w : World) (o : FsObject)
      → (make_path os mode w o).1.as_path.path ≡ o.as_path.path
  unfolding make_path analyzed
  make_path-text mode w o =
      let (o', there) = is_exist os w o in
      let same = (is_exist-Agree w o).1 in
      elim (Bool-cases (is_exist os w o).1) [
        | inl e ↦ rw e same
        | inr e ↦
            elim (Bool-cases (is_empty (analyze (is_exist os w o).0.as_path).directory_path)) [
              | inl d ↦ rw (e, d) (analyze-path o'.as_path ∙ same)
              | inr d ↦ rw (e, d) (analyze-path o'.as_path ∙ same)
            ]
      ]

  resolve_real-text :
      (r parent : Option Bytes) (o : FsObject)
      → (resolve_real os r parent o).as_path.path ≡ o.as_path.path
  unfolding resolve_real
  resolve_real-text (some r) parent o = refl
  resolve_real-text none (some r) o = refl
  resolve_real-text none none o = refl

  get_absolute_path-text :
      (w : World) (o : FsObject) → (get_absolute_path os w o).1.as_path.path ≡ o.as_path.path
  unfolding get_absolute_path
  get_absolute_path-text w o =
      resolve_real-text _ _ (make_path os 0x1ff w o).1 ∙ make_path-text 0x1ff w o

  check_and_close-stream : (w : World) (f : File) → (check_and_close os streams w f).1.stream ≡ none
  unfolding check_and_close
  check_and_close-stream w f = elim (Option-cases f.stream) [
    | inl e ↦ rw (e, check_and_close) e
    | inr (at, e) ↦ rw (e, check_and_close) refl
  ]

  check_and_close-object :
      (w : World) (f : File) → (check_and_close os streams w f).1.as_object ≡ f.as_object
  unfolding check_and_close
  check_and_close-object w f = elim (Option-cases f.stream) [
    | inl e ↦ rw (e, check_and_close) refl
    | inr (at, e) ↦ rw (e, check_and_close) refl
  ]

  -- A stream that was closed is opened at the real path, or stays closed.
  open_closed-IsTracked :
      (w : World) (f : File) (mode : OpenMode)
      → f.stream ≡ none
      → IsTracked (text_of f) (open_closed os streams w f mode).1
  unfolding open_closed open_fstream get_absolute_path
  open_closed-IsTracked w f mode closed =
      let r = get_absolute_path os w f.as_object in
      elim (Bool-cases (streams.open_stream r.0 r.2 mode).1) [
        | inl e ↦ inr (rw (closed, e) refl, get_absolute_path-text w f.as_object)
        | inr e ↦ inl (rw (closed, e) refl)
      ]

  open_init-IsTracked :
      (w : World) (f : File) (t : Bytes) (mode : OpenMode)
      → IsTracked t f
      → IsTracked (text_of f) (open_init os streams w f mode).1
  unfolding open_init analyzed
  open_init-IsTracked w f t mode h = elim (Bool-cases (is_empty f.as_object.as_path.path)) [
    | inl e ↦ rw e (kept h)
    | inr e ↦
        let c = check_and_close os streams w f in
        rw e (
          subst (λ o. IsTracked o.as_path.path (open_closed os streams c.0 c.1 mode).1)
            (check_and_close-object w f)
            (open_closed-IsTracked c.0 c.1 mode (check_and_close-stream w f)))
  ]
    where
      kept :
          IsTracked t f
          → IsTracked (text_of f) (record f {
            as_object = record f.as_object { as_path = analyze f.as_object.as_path };
          })
      kept (inl n) = inl n
      kept (inr (at, same)) = inr (at, analyze-path f.as_object.as_path)

  -- What is left of the file, where an operation comes back.
  outcome : File → Option (World × File × Bool) → File
  outcome f none = f
  outcome f (some r) = r.1

  on_closed-IsTracked :
      (operate : World → FsObject → Option (World × FsObject × Bool)) (w : World) (f : File)
      (t : Bytes)
      → IsTracked t f
      → IsTracked t (outcome f (on_closed os streams operate w f))
  unfolding on_closed outcome
  on_closed-IsTracked operate w f t h =
      let o = (is_exist os w f.as_object).0 in
      let c = check_and_close os streams w (record f { as_object = o }) in
      elim (Bool-cases (is_exist os w f.as_object).1) [
        | inr e ↦ rw e (kept o (is_exist-Agree w f.as_object) h)
        | inl e ↦ elim (Option-cases (operate c.0 c.1.as_object)) [
          | inl n ↦ rw (e, n) h
          | inr (r, n) ↦ rw (e, n) (inl (check_and_close-stream w (record f { as_object = o })))
        ]
      ]
    where
      kept :
          (o : FsObject)
          → Agree o f.as_object
          → IsTracked t f
          → IsTracked t (record f { as_object = o })
      kept o same (inl n) = inl n
      kept o same (inr (at, text)) = inr (at ∙ ap some (sym same.0), same.1 ∙ text)

  ends-IsTracked :
      (f f' : File) (w' : World) (t : Bytes) (ok : Bool) (r : Option (World × File × Bool))
      → ◌≡◌ {A = Option (World × File × Bool)} r (some (w', f', ok))
      → IsTracked t (outcome f r)
      → IsTracked t f'
  unfolding outcome
  ends-IsTracked f f' w' t ok r e h = subst (IsTracked t) (ap (outcome f) e) h

  Step-IsTracked : {s t : World × File × Bytes} → Step s t → IsTracked s.2 s.1 → IsTracked t.2 t.1
  unfolding set_file_path open_at move_file remove_closed set_object_path
  Step-IsTracked (sets w f t path) h = inl (check_and_close-stream w f)
  Step-IsTracked (opens w f t mode) h = open_init-IsTracked w f t mode h
  Step-IsTracked (opens_at w f t name mode) h =
      let s = set_file_path os streams w f name in
      open_init-IsTracked s.0 s.1 t mode (inl (check_and_close-stream w f))
  Step-IsTracked (moves sh fuel w w' f f' t d ok e) h =
      ends-IsTracked f f' w' t ok _ e (on_closed-IsTracked (λ v o. move os sh fuel v o d) w f t h)
  Step-IsTracked (removes sh fuel w w' f f' t ok e) h =
      ends-IsTracked f f' w' t ok _ e (on_closed-IsTracked (λ v o. remove os sh fuel v o) w f t h)
  Step-IsTracked (others w w' f t) h = h

  -- Whatever calls of `setPath`, `open`, the other openings, `move` and `remove` were made of a new
  -- `File`, with no assignment, and whatever others did to the file system between them, the stream
  -- is closed, or it was opened at the real path that the object has, and the object's path is
  -- still the one that it was opened with.
  pub Steps-IsTracked :
      (w : World) (path before : Bytes) (w' : World) (f : File) (opened : Bytes)
      → Steps (w, new_file path, before) (w', f, opened)
      → IsTracked opened f
  unfolding new_file
  Steps-IsTracked w path before w' f opened steps = go (inl refl) steps
    where
      go : {s t : World × File × Bytes} → IsTracked s.2 s.1 → Steps s t → IsTracked t.2 t.1
      go h start = h
      go h (next r st) = Step-IsTracked st (go h r)
