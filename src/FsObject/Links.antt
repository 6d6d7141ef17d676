-- ===== src/FsObject/Links.antt =====
-- `removeSymLink` and `createSymLink`.
use cpp_temp_learn.Prelude.{
  ◌==◌, Bool, true, false, not, Option, none, some, ◌≡◌, refl, ap, ◌∙◌, ◌⊎◌, inl, inr, Bytes,
  Bool-cases, if◌then◌else◌,
}
use cpp_temp_learn.FilePath.{analyze, unify, set_path}
use cpp_temp_learn.FilePath.Coherence.{Made}
use cpp_temp_learn.FileSystem.{directory, type_of, Stat, is_link, Os}
use cpp_temp_learn.FsObject.{
  FsObject, fs_object, set_object_path, get_type, is_symbolic_link, is_exist,
}
use cpp_temp_learn.FsObject.Making.{create}
use cpp_temp_learn.FsObject.Existence.{Suits, analyze-path}
use cpp_temp_learn.FsObject.Found.{
  fs_object-Made, fs_object-exists, fs_object-Suits, found, is_exist-found, get_stat-found_link,
}
use cpp_temp_learn.FsObject.Modes.{get_absolute_path-found}
use cpp_temp_learn.FsObject.Removal.{located, get_type-found}
use cpp_temp_learn.FsObject.Commands.{unlink_link, remove_sym_link, link_at, create_sym_link}

module _ (os : Os) (w : os.World) (o : FsObject) (s : Stat) (r : Bytes) (m : Made o.as_path)
    (fresh : o.as_path.exists ≡ false) (at : os.stat w (analyze o.as_path).full_path ≡ some s)
    (suits : Suits o.object_type s)
    (real : os.realpath w (analyze o.as_path).full_path ≡ some r) where
  open os use {World, lstat, unlink, unlink_removes}

  abbrev unlinked : World × Bool → World × FsObject × Bool
  unlinked u =
      if u.1 then (u.0, set_object_path (located o r) r, true) else (u.0, located o r, false)

  unlink_link-found : unlink_link os w (found o) ≡ unlinked (unlink w o.as_path.path)
  unfolding unlink_link
  unlink_link-found =
      ap
        (λ t.
          let u = unlink t.0 t.1.as_path.path in
          if u.1 then (u.0, set_object_path t.1 t.2, true) else (u.0, t.1, false))
        (get_absolute_path-found os w o r real)
      ∙ ap (λ p. unlinked (unlink w p)) (analyze-path o.as_path)

  module _ (l : Stat) (seen : lstat w (analyze o.as_path).full_path ≡ some l)
      (link : is_link l ≡ true) where
    is_symbolic_link-found : is_symbolic_link os w (found o) ≡ (found o, true)
    unfolding is_symbolic_link
    is_symbolic_link-found =
        ap
          (λ t. elim t.1 as (λ x. FsObject × Bool) [
            | none ↦ (t.0, false)
            | some q ↦ (t.0, is_link q)
          ])
          (get_stat-found_link os w o s m at ∙ ap (λ x. (found o, x)) seen)
        ∙ ap (λ b. (found o, b)) link

    remove_sym_link-found : remove_sym_link os w o ≡ unlinked (unlink w o.as_path.path)
    unfolding remove_sym_link
    remove_sym_link-found =
        ap
          (λ t.
            let u = is_symbolic_link os w t.0 in
            if not t.1
            then (w, t.0, false)
            else if u.1
            then unlink_link os w u.0
            else (w, u.0, true))
          (is_exist-found os w o s m at fresh suits)
        ∙ ap (λ u. if u.1 then unlink_link os w u.0 else (w, u.0, true)) is_symbolic_link-found
        ∙ unlink_link-found

    -- Where the path of an object is a symbolic link to something with a real path that stands, and
    -- the path was made by the operations of the class, the object is not marked as seen and its type
    -- suits, `removeSymLink` does what `unlink` of the path does and returns its result; with success
    -- nothing is left at the path, and the object has the text of the real path.
    pub remove_sym_link-unlink :
        (o' : FsObject) × (remove_sym_link os w o
          ≡ ((unlink w o.as_path.path).0, o', (unlink w o.as_path.path).1))
        × (((unlink w o.as_path.path).1 ≡ false)
            ⊎ ((lstat (unlink w o.as_path.path).0 o.as_path.path ≡ none)
                × (o'.as_path.path ≡ unify r)))
    remove_sym_link-unlink = elim (Bool-cases (unlink w o.as_path.path).1) [
      | inr f ↦ (located o r, remove_sym_link-found ∙ rw f refl, inl f)
      | inl f ↦ (
        set_object_path (located o r) r,
        remove_sym_link-found ∙ rw f refl,
        inr (
          unlink_removes w (unlink w o.as_path.path).0 o.as_path.path
              (ap (λ b. ((unlink w o.as_path.path).0, b)) f),
          unfold set_object_path set_path in refl,
        ),
      )
    ]

  module _ (d : Bytes) (q : Stat) (dr : Bytes)
      (target : os.stat w (analyze (fs_object d).as_path).full_path ≡ some q)
      (target_real : os.realpath w (analyze (fs_object d).as_path).full_path ≡ some dr) where
    abbrev linked : World × FsObject × Bool
    linked = let u = os.symlink w (found o).as_path.path dr in (u.0, found o, u.1)

    link_at-found : link_at os w (found o) (found (fs_object d)) ≡ linked
    unfolding link_at
    link_at-found =
        ap (λ t. let u = os.symlink t.0 (found o).as_path.path t.2 in (u.0, found o, u.1))
          (get_absolute_path-found os w (fs_object d) dr target_real)

    linked_fails : linked.2 ≡ false
    linked_fails =
        let (l, stands) = os.realpath_stands w _ dr target_real in
        os.symlink_fails w linked.0 (found o).as_path.path dr l linked.2 stands refl

    abbrev link_typed : Bool → Option (World × FsObject × Bool)
    link_typed dir =
        if dir
        then some (link_at os w (found o) (found (fs_object d)))
        else some (w, found o, false)

    link_typed_fails :
        (dir : Bool) → (w' : World) × (o' : FsObject) × (link_typed dir ≡ some (w', o', false))
    link_typed_fails true = (
      linked.0,
      found o,
      ap some link_at-found ∙ ap (λ b. some (linked.0, found o, b)) linked_fails,
    )
    link_typed_fails false = (w, found o, refl)

    create_sym_link-found : create_sym_link os w o d ≡ link_typed (type_of q.mode == directory)
    unfolding create_sym_link
    create_sym_link-found =
        ap (λ t. rest t.0 t.1 (is_exist os w (fs_object d)))
          (is_exist-found os w o s m at fresh suits)
        ∙ ap (rest (found o) true) (
            is_exist-found os w (fs_object d) q (fs_object-Made d) target (fs_object-exists d)
              (fs_object-Suits d q))
        ∙ ap
            (λ t.
              if t.1 == directory
              then some (link_at os w (found o) t.0)
              else some (w, found o, false))
            (get_type-found os w (fs_object d) q dr (fs_object-Made d) (fs_object-exists d) target
              (fs_object-Suits d q) target_real)
      where
        rest : FsObject → Bool → FsObject × Bool → Option (World × FsObject × Bool)
        rest o' there t =
            let (target', k) = get_type os w t.0 in
            let made = create os 4097 0x1ff w t.0 in
            if not there
            then some (w, o', false)
            else if t.1
            then (if k == directory then some (link_at os w o' target') else some (w, o', false))
            else elim made [
              | none ↦ none
              | some (w', target'', _) ↦ some (link_at os w' o' target'')
            ]

    -- Where something with a real path stands at the path of an object, whose path was made by the
    -- operations of the class, which is not marked as seen and whose type suits, and something with a
    -- real path stands at the new path, also a directory, `createSymLink` fails.
    pub create_sym_link-symlink :
        (w' : World) × (o' : FsObject) × (create_sym_link os w o d ≡ some (w', o', false))
    create_sym_link-symlink =
        let (w', o', e) = link_typed_fails (type_of q.mode == directory) in
        (w', o', create_sym_link-found ∙ e)
