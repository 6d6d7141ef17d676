-- ===== src/FsObject/Transfer.antt =====
-- `move` and `copy` of an object that exists.
use cpp_temp_learn.Prelude.{
  ℕ, Bool, true, false, ◌∷◌, ◌++◌, Option, some, ◌≡◌, ◌≢◌, refl, sym, ap, subst, Bool-cases, ==_iff,
  ◌∙◌, ◌⊎◌, inl, inr, arith, Bytes, codes, ◌==◌, if◌then◌else◌,
}
use cpp_temp_learn.FilePath.{analyze, unify, from_text, set_path}
use cpp_temp_learn.FilePath.Coherence.{Made}
use cpp_temp_learn.FileSystem.{directory, type_of, Stat, Os}
use cpp_temp_learn.Shell.{Shell}
use cpp_temp_learn.Shell.Execution.{ShellOs, run}
use cpp_temp_learn.FsObject.{FsObject, fs_object, get_type}
use cpp_temp_learn.FsObject.Existence.{Suits, analyze-path}
use cpp_temp_learn.FsObject.Found.{
  fs_object-Made, fs_object-exists, fs_object-Suits, found, is_exist-found,
}
use cpp_temp_learn.FsObject.Removal.{
  located, get_type-found, Commanded, Goes, exec_on-Commanded, forget_moved-Commanded,
}
use cpp_temp_learn.FsObject.Commands.{
  Prepared, refused, ready, prepare_missing, prepare_present, prepare, exec_on, transfer_prepared,
  transfer, forget_moved, move, copy,
}

module _ (os : Os) (w : os.World) (o : FsObject) (s : Stat) (r : Bytes) (m : Made o.as_path)
    (fresh : o.as_path.exists ≡ false) (at : os.stat w (analyze o.as_path).full_path ≡ some s)
    (suits : Suits o.object_type s) (real : os.realpath w (analyze o.as_path).full_path ≡ some r)
    (sh : ShellOs os.World) (fuel : ℕ) (d : Bytes) (q : Stat) (dr : Bytes)
    (target : os.stat w (analyze (fs_object d).as_path).full_path ≡ some q)
    (target_real : os.realpath w (analyze (fs_object d).as_path).full_path ≡ some dr) where
  open os use {World}

  abbrev there : FsObject
  there = found (fs_object d)

  -- What stands at the destination decides, and then what the source is.
  abbrev decided : Bool → Bool → Prepared World
  decided to_directory from_directory =
      if to_directory
      then ready w (found o) there
      else if from_directory
      then refused w (found o)
      else ready w (found o) there

  prepare_present-found :
      prepare_present os w (found o) there
      ≡ decided (type_of q.mode == directory) (type_of s.mode == directory)
  unfolding prepare_present
  prepare_present-found =
      ap (λ t. rest t (get_type os w (found o)))
        (get_type-found os w (fs_object d) q dr (fs_object-Made d) (fs_object-exists d) target
          (fs_object-Suits d q) target_real)
      ∙ ap (rest (there, type_of q.mode)) (get_type-found os w o s r m fresh at suits real)
    where
      rest : FsObject × ℕ → FsObject × ℕ → Prepared World
      rest t u =
          if t.1 == directory
          then ready w (found o) t.0
          else if u.1 == directory
          then refused w u.0
          else ready w u.0 t.0

  prepare-found :
      prepare os w (found o) d ≡ decided (type_of q.mode == directory) (type_of s.mode == directory)
  unfolding prepare
  prepare-found =
      ap
        (λ t.
          if t.1 then prepare_present os w (found o) t.0 else prepare_missing os w (found o) t.0)
        (is_exist-found os w (fs_object d) q (fs_object-Made d) target (fs_object-exists d)
          (fs_object-Suits d q))
      ∙ prepare_present-found

  transfer-found :
      (front : Bytes)
      → transfer os sh fuel front w o d
        ≡ transfer_prepared os sh fuel front
            (decided (type_of q.mode == directory) (type_of s.mode == directory))
  unfolding transfer
  transfer-found front =
      ap
        (λ t.
          let moved = transfer_prepared os sh fuel front (prepare os w t.0 d) in
          if t.1 then moved else some (w, t.0, false))
        (is_exist-found os w o s m at fresh suits)
      ∙ ap (transfer_prepared os sh fuel front) prepare-found

  there_path : there.as_path.path ≡ unify d
  unfolding fs_object from_text set_path
  there_path = analyze-path (fs_object d).as_path

  -- What becomes of the command of `move` or `copy` on the real path of the source and the text of the
  -- destination.
  abbrev ran : Bytes → Option (World × Shell)
  ran front = run sh fuel w (front ++ (r ++ (b' ' ∷ unify d)))

  transfer-Commanded :
      (front : Bytes)
      → (type_of q.mode ≡ directory) ⊎ (type_of s.mode ≢ directory)
      → Commanded (ran front) (λ o' ok. o' ≡ located o r) (transfer os sh fuel front w o d)
  unfolding transfer_prepared
  transfer-Commanded front ok =
      subst (Commanded (ran front) (λ o' ok. o' ≡ located o r))
        (sym (
          transfer-found front
          ∙ ap (transfer_prepared os sh fuel front) (decided_ready _ _ (ground (arith, ok)))
          ∙ ap (λ p. exec_on os sh fuel w (found o) front (b' ' ∷ p)) there_path))
        (exec_on-Commanded os w o s r m fresh at suits real sh fuel front (b' ' ∷ unify d))
    where
      decided_ready :
          (b c : Bool) → (b ≡ true) ⊎ (c ≡ false) → decided b c ≡ ready w (found o) there
      decided_ready true c h = refl
      decided_ready false false h = refl
      decided_ready false true (inl h) = absurd cc
      decided_ready false true (inr h) = absurd cc

  transfer-refuses :
      (front : Bytes)
      → type_of s.mode ≡ directory
      → type_of q.mode ≢ directory
      → transfer os sh fuel front w o d ≡ some (w, found o, false)
  unfolding transfer_prepared
  transfer-refuses front from to =
      let e : (type_of s.mode == directory) ≡ true = ground (arith, from) in
      let f : (type_of q.mode == directory) ≡ false = ground (arith, to) in
      transfer-found front
      ∙ ap (λ b. transfer_prepared os sh fuel front (decided b (type_of s.mode == directory))) f
      ∙ ap (λ b. transfer_prepared os sh fuel front (decided false b)) e

  -- What stands at the source and at the destination decides between the two.
  suits_or_not :
      ((type_of q.mode ≡ directory) ⊎ (type_of s.mode ≢ directory))
      ⊎ ((type_of s.mode ≡ directory) × (type_of q.mode ≢ directory))
  suits_or_not = elim (Bool-cases (type_of q.mode == directory)) [
    | inl e ↦ inl (inl ((==_iff _ _).0 e))
    | inr e ↦ elim (Bool-cases (type_of s.mode == directory)) [
      | inl f ↦ inr ((==_iff _ _).0 f, λ h. absurd (cc (e, (==_iff _ _).1 h)))
      | inr f ↦ inl (inr (λ h. absurd (cc (f, (==_iff _ _).1 h))))
    ]
  ]

  -- Where something with a real path stands at the path of an object, whose path was made by the
  -- operations of the class, which is not marked as seen and whose type suits, and something with a
  -- real path stands at the destination: if that is a directory or the source is none, `move` and
  -- `copy` run 'mv' or 'cp -rf' with the real path and the destination, report its status and come
  -- back if it does, and with `move` the source counts as gone exactly if that is success, while
  -- with `copy` it is left as found; otherwise both fail and leave the file system as it is.
  pub move-copy :
      (((type_of q.mode ≡ directory) ⊎ (type_of s.mode ≢ directory))
        × Commanded
            (run sh fuel w (codes "mv " ++ (r ++ (b' ' ∷ unify d))))
            Goes
            (move os sh fuel w o d)
        × Commanded
            (run sh fuel w (codes "cp -rf " ++ (r ++ (b' ' ∷ unify d))))
            (λ o' ok. o' ≡ located o r)
            (copy os sh fuel w o d))
      ⊎ (((type_of s.mode ≡ directory) × (type_of q.mode ≢ directory))
          × (move os sh fuel w o d ≡ some (w, found o, false))
          × (copy os sh fuel w o d ≡ some (w, found o, false)))
  unfolding move copy forget_moved
  move-copy = elim suits_or_not [
    | inl ok ↦ inl (
      ok,
      forget_moved-Commanded os w o s r m fresh at suits real sh fuel (ran (codes "mv ")) _
          (transfer-Commanded (codes "mv ") ok),
      transfer-Commanded (codes "cp -rf ") ok,
    )
    | inr (from, to) ↦ inr (
      (from, to),
      ap (forget_moved os sh) (transfer-refuses (codes "mv ") from to),
      transfer-refuses (codes "cp -rf ") from to,
    )
  ]
