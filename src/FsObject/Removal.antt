-- ===== src/FsObject/Removal.antt =====
-- `remove`, `removeSymLink`, `setOwner` and `setGroup` of an object that exists.
use cpp_temp_learn.Prelude.{
  ℕ, Bool, true, false, not, List, [], ◌∷◌, ◌++◌, Option, none, some, ◌≡◌, ◌≢◌, refl, sym, ap,
  subst, ==_iff, Option-cases, ◌∙◌, ◌⊎◌, inl, inr, arith, Bytes, codes, is_empty, Bool-cases, ◌==◌,
  append-nil, if◌then◌else◌,
}
use cpp_temp_learn.FilePath.{analyze}
use cpp_temp_learn.FilePath.Coherence.{Made}
use cpp_temp_learn.FileSystem.{unknown, directory, type_of, Stat, Os}
use cpp_temp_learn.Shell.{Shell}
use cpp_temp_learn.Shell.Execution.{ShellOs, run}
use cpp_temp_learn.FsObject.{FsObject, get_type, is_exist}
use cpp_temp_learn.FsObject.Existence.{Suits}
use cpp_temp_learn.FsObject.Found.{found, is_exist-found, get_stat-found}
use cpp_temp_learn.FsObject.Modes.{get_absolute_path-found}
use cpp_temp_learn.FsObject.Commands.{
  forget, forget_moved, exec_command, exec_on, remove_file, remove, change_name,
}

-- A found object whose real path is known.
abbrev pub located : FsObject → Bytes → FsObject
located o r = record (found o) { real_path = r }

-- What an operation makes of the outcome of a command: it does not come back where the command does
-- not, and else reports the command's status in the state that the command leaves, with an object as
-- stated.
abbrev pub Commanded :
    {World : Type 0}
    → Option (World × Shell)
    → (FsObject → Bool → Type 0)
    → Option (World × FsObject × Bool)
    → Type 0
Commanded {World} ran leaves result =
    ((ran ≡ none) × (result ≡ none))
    ⊎ ((w' : World) × (shell : Shell) × (o' : FsObject) × (ran ≡ some (w', shell))
        × (result ≡ some (w', o', shell.exec_status))
        × leaves o' shell.exec_status)

-- The object counts as gone exactly if the operation succeeded.
abbrev pub Goes : FsObject → Bool → Type 0
Goes o' ok = o'.as_path.exists ≡ not ok

module _ (os : Os) (w : os.World) (o : FsObject) (s : Stat) (r : Bytes) (m : Made o.as_path)
    (fresh : o.as_path.exists ≡ false) (at : os.stat w (analyze o.as_path).full_path ≡ some s)
    (suits : Suits o.object_type s)
    (real : os.realpath w (analyze o.as_path).full_path ≡ some r) where
  open os use {World, lstat, unlink, unlink_removes}

  pub get_type-found : get_type os w (found o) ≡ (found o, type_of s.mode)
  unfolding get_type
  get_type-found =
      ap
        (λ t. elim t.1 as (λ x. FsObject × ℕ) [
          | none ↦ (t.0, unknown)
          | some q ↦ (t.0, type_of q.mode)
        ])
        (get_stat-found os w o s m at)

  abbrev here : FsObject
  here = located o r

  there : is_exist os w o ≡ (found o, true)
  there = is_exist-found os w o s m at fresh suits

  module _ (sh : ShellOs World) (fuel : ℕ) where
    remove_file-found : remove_file os sh w (found o) ≡ ((unlink w r).0, here, (unlink w r).1)
    unfolding remove_file
    remove_file-found =
        ap (λ t. let (w'', ok) = unlink t.0 t.2 in (w'', t.1, ok))
          (get_absolute_path-found os w o r real)

    abbrev remove_typed : FsObject × ℕ → Option (World × FsObject × Bool)
    remove_typed u =
        if u.1 == directory
        then forget_moved os sh (exec_on os sh fuel w u.0 (codes "rm -rf ") [])
        else forget_moved os sh (some (remove_file os sh w u.0))

    removes_typed : remove os sh fuel w o ≡ remove_typed (found o, type_of s.mode)
    unfolding remove
    removes_typed =
        ap
          (λ t.
            let u = get_type os w t.0 in if not t.1 then some (w, t.0, false) else remove_typed u)
          there
        ∙ ap remove_typed get_type-found

    removes_file :
        type_of s.mode ≢ directory
        → remove os sh fuel w o ≡ forget_moved os sh (some ((unlink w r).0, here, (unlink w r).1))
    removes_file plain =
        let e : (type_of s.mode == directory) ≡ false = ground (arith, plain) in
        removes_typed ∙ (rw e (ap (λ t. forget_moved os sh (some t)) remove_file-found))

    -- A command that `execCommand` runs on the real path of an object that was found.
    module _ (front behind : Bytes) (w' : World) (shell : Shell)
        (ran : run sh fuel w (front ++ (r ++ behind)) ≡ some (w', shell)) where
      pub exec_on-found :
          exec_on os sh fuel w (found o) front behind ≡ some (w', here, shell.exec_status)
      unfolding exec_on exec_command
      exec_on-found =
          ap
            (λ (t : World × FsObject × Bytes).
              elim (exec_command os sh fuel t.0 (front ++ (t.2 ++ behind)))
                as (λ x. Option (World × FsObject × Bool)) [
                  | none ↦ none
                  | some (w'', ok, _) ↦ some (w'', t.1, ok)
                ])
            (get_absolute_path-found os w o r real)
          ∙ ap
              (λ (t : Option (World × Bool × List Bytes)).
                elim t as (λ x. Option (World × FsObject × Bool)) [
                  | none ↦ none
                  | some (w'', ok, _) ↦ some (w'', here, ok)
                ])
              command
        where
          command :
              exec_command os sh fuel w (front ++ (r ++ behind))
              ≡ some (w', shell.exec_status, if shell.exec_status then shell.output_lines else [])
          command = rw (ran, exec_command) refl

    -- The status of a command decides whether the object is forgotten.
    pub forget_moved-exists :
        (w' : World) (ok : Bool)
        → (o' : FsObject) × (forget_moved os sh (some (w', here, ok)) ≡ some (w', o', ok))
          × (o'.as_path.exists ≡ not ok)
    unfolding forget_moved forget
    forget_moved-exists w' true = (forget here, refl, refl)
    forget_moved-exists w' false = (here, refl, refl)

    -- The object is left as found, with its real path.
    abbrev Stays : FsObject → Bool → Type 0
    Stays o' ok = o' ≡ here

    exec_on-none :
        (front behind : Bytes)
        → run sh fuel w (front ++ (r ++ behind)) ≡ none
        → exec_on os sh fuel w (found o) front behind ≡ none
    unfolding exec_on exec_command
    exec_on-none front behind stuck =
        ap
          (λ (t : World × FsObject × Bytes).
            elim (exec_command os sh fuel t.0 (front ++ (t.2 ++ behind)))
              as (λ x. Option (World × FsObject × Bool)) [
                | none ↦ none
                | some (w'', ok, _) ↦ some (w'', t.1, ok)
              ])
          (get_absolute_path-found os w o r real)
        ∙ ap
            (λ (t : Option (World × Bool × List Bytes)).
              elim t as (λ x. Option (World × FsObject × Bool)) [
                | none ↦ none
                | some (w'', ok, _) ↦ some (w'', here, ok)
              ])
            command
      where
        command : exec_command os sh fuel w (front ++ (r ++ behind)) ≡ none
        command = rw (stuck, exec_command) refl

    pub exec_on-Commanded :
        (front behind : Bytes)
        → Commanded
            (run sh fuel w (front ++ (r ++ behind)))
            Stays
            (exec_on os sh fuel w (found o) front behind)
    exec_on-Commanded front behind = elim (Option-cases (run sh fuel w (front ++ (r ++ behind)))) [
      | inl e ↦ inl (e, exec_on-none front behind e)
      | inr ((w', shell), e) ↦ inr (w', shell, here, e, exec_on-found front behind w' shell e, refl)
    ]

    pub forget_moved-Commanded :
        (ran : Option (World × Shell)) (result : Option (World × FsObject × Bool))
        → Commanded ran Stays result
        → Commanded ran Goes (forget_moved os sh result)
    unfolding forget_moved
    forget_moved-Commanded ran result (inl (stuck, e)) = inl (stuck, rw (e, forget_moved) refl)
    forget_moved-Commanded ran result (inr (w', shell, o', done, e, kept)) =
        let (gone, h, goes) = forget_moved-exists w' shell.exec_status in
        let found_so : result ≡ some (w', here, shell.exec_status) =
          e ∙ ap (λ x. some (w', x, shell.exec_status)) kept in
        inr (w', shell, gone, done, ap (forget_moved os sh) found_so ∙ h, goes)

    -- What `unlink` of the real path makes of an operation.
    abbrev pub Unlinked : Option (World × FsObject × Bool) → Type 0
    Unlinked result =
        (o' : FsObject) × (result ≡ some ((unlink w r).0, o', (unlink w r).1))
        × Goes o' (unlink w r).1
        × (((unlink w r).1 ≡ false) ⊎ (lstat (unlink w r).0 r ≡ none))

    removes_file-Unlinked : type_of s.mode ≢ directory → Unlinked (remove os sh fuel w o)
    removes_file-Unlinked plain =
        let (o', h, gone) = forget_moved-exists (unlink w r).0 (unlink w r).1 in
        (o', removes_file plain ∙ h, gone, left)
      where
        left : ((unlink w r).1 ≡ false) ⊎ (lstat (unlink w r).0 r ≡ none)
        left = elim (Bool-cases (unlink w r).1) [
          | inr e ↦ inl e
          | inl e ↦ inr (unlink_removes w (unlink w r).0 r (ap (λ b. ((unlink w r).0, b)) e))
        ]

    removes_directory-Commanded :
        type_of s.mode ≡ directory
        → Commanded (run sh fuel w (codes "rm -rf " ++ (r ++ []))) Goes (remove os sh fuel w o)
    removes_directory-Commanded dir =
        let e : (type_of s.mode == directory) ≡ true = ground (arith, dir) in
        subst (Commanded (run sh fuel w (codes "rm -rf " ++ (r ++ []))) Goes)
          (sym (removes_typed ∙ rw e refl))
          (forget_moved-Commanded _ _ (exec_on-Commanded (codes "rm -rf ") []))

    -- Where something with a real path stands at the path of an object, whose path was made by the
    -- operations of the class, which is not marked as seen and whose type suits: if it is a
    -- directory, `remove` runs 'rm -rf' with the real path, reports its status and comes back if it
    -- does; if it is none, `remove` does what `unlink` of the real path does and returns its
    -- result, and with success nothing is left at the real path. In both cases the object counts as
    -- gone exactly if `remove` reports success.
    pub remove-unlink :
        ((type_of s.mode ≡ directory)
          × Commanded (run sh fuel w (codes "rm -rf " ++ r)) Goes (remove os sh fuel w o))
        ⊎ ((type_of s.mode ≢ directory) × Unlinked (remove os sh fuel w o))
    remove-unlink = elim (Bool-cases (type_of s.mode == directory)) [
      | inl e ↦
          let dir : type_of s.mode ≡ directory = (==_iff _ _).0 e in
          inl (
            dir,
            subst
                (λ p. Commanded (run sh fuel w (codes "rm -rf " ++ p)) Goes (remove os sh fuel w o))
                (append-nil r) (removes_directory-Commanded dir),
          )
      | inr e ↦
          let plain : type_of s.mode ≢ directory = λ h. absurd (cc (e, (==_iff _ _).1 h)) in
          inr (plain, removes_file-Unlinked plain)
    ]

    -- Where something with a real path stands at the path of an object, whose path was made by the
    -- operations of the class, which is not marked as seen and whose type suits, and the command that
    -- starts with a front, such as 'chown ', a name that is not empty and the real path runs to its
    -- end, `setOwner` and `setGroup` with that front return the command's status and leave the object
    -- as found, with its real path.
    pub change_name-run :
        (front name : Bytes)
        → is_empty name ≡ false
        → (w' : World) (shell : Shell)
        → run sh fuel w (front ++ (name ++ b' ' ∷ []) ++ r) ≡ some (w', shell)
        → change_name os sh fuel front w o name ≡ some (w', here, shell.exec_status)
    unfolding change_name
    change_name-run front name e w' shell ran =
        let exec =
          exec_on-found (front ++ (name ++ b' ' ∷ [])) [] w' shell
            (ap (λ t. run sh fuel w ((front ++ (name ++ b' ' ∷ [])) ++ t)) (append-nil r) ∙ ran) in
        ap
          (λ t.
            let changed = exec_on os sh fuel w t.0 (front ++ (name ++ b' ' ∷ [])) [] in
            if not t.1
            then some (w, t.0, false)
            else if is_empty name
            then some (w, t.0, false)
            else changed)
          there
        ∙ rw e exec
