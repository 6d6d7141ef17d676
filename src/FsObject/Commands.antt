-- ===== src/FsObject/Commands.antt =====
-- libsrc/libfs/FsObject.cpp: the operations that remove, copy or link objects of the file system.
--
-- `none` is undefined behaviour, or that a shell command does not come back or ran out of fuel.
use cpp_temp_learn.Prelude.{
  ℕ, ◌%◌, ◌^◌, ◌==◌, Bool, true, false, not, List, [], ◌∷◌, ◌++◌, Option, none, some, Bytes, codes,
  is_empty, if◌then◌else◌,
}
use cpp_temp_learn.FilePath.{slash}
use cpp_temp_learn.FileSystem.{directory, Os}
use cpp_temp_learn.Shell.Execution.{ShellOs, run}
use cpp_temp_learn.FsObject.{
  FsObject, fs_object, set_object_path, analyzed, get_type, get_mode, is_symbolic_link, is_exist,
}
use cpp_temp_learn.FsObject.Making.{create, get_absolute_path}

-- `back() == '/'`; the last byte of no text is undefined behaviour.
unfoldable pub ends_in_slash : Bytes → Option Bool
ends_in_slash [] = none
ends_in_slash (c ∷ []) = some (c == slash)
ends_in_slash (c ∷ d ∷ s) = ends_in_slash (d ∷ s)

-- `m_exists = false`
unfoldable pub forget : FsObject → FsObject
forget o = record o { as_path = record o.as_path { exists = false } }

-- How far `move` and `copy` come before they run a command.
pub data Prepared (World : Type 0) : Type 0 where
  refused : World → FsObject → Prepared World
  ready : World → FsObject → FsObject → Prepared World
  fault : Prepared World

module _ (os : Os) where
  open os use {World, mkdir, unlink, symlink}

  -- The directory that is made for a directory, or where the destination ends with '/'.
  unfoldable pub prepare_directory : ℕ → World → FsObject → FsObject → Prepared World
  unfolding get_absolute_path
  prepare_directory mode w o target =
      let (w', target', real) = get_absolute_path os w target in
      let (w'', ok) = mkdir w' real mode in if ok then ready w'' o target' else refused w'' o

  -- Where nothing stands at the destination.
  unfoldable pub prepare_missing : World → FsObject → FsObject → Prepared World
  unfolding analyzed get_mode create get_type ends_in_slash prepare_directory fs_object
  prepare_missing w o target =
      let o' = analyzed o in
      let mode = (get_mode os w (fs_object o'.as_path.directory_path)).1 % 2 ^ 9 in
      elim (create os 4097 mode w target) [
        | none ↦ fault
        | some (w', target', made) ↦
            let (o'', t) = get_type os w' o' in
            elim (t == directory) [
              | true ↦ prepare_directory mode w' o'' target'
              | false ↦ elim (ends_in_slash target'.as_path.path) [
                | none ↦ fault
                | some last ↦
                    let prepared = prepare_directory mode w' o'' target' in
                    if last then prepared else ready w' o'' target'
              ]
            ]
      ]

  -- Where something stands at the destination.
  unfoldable pub prepare_present : World → FsObject → FsObject → Prepared World
  unfolding get_type
  prepare_present w o target =
      let (target', t) = get_type os w target in
      let (o', s) = get_type os w o in
      if t == directory
      then ready w o target'
      else if s == directory
      then refused w o'
      else ready w o' target'

  -- what `move` and `copy` do first
  unfoldable pub prepare : World → FsObject → Bytes → Prepared World
  unfolding is_exist fs_object prepare_missing prepare_present
  prepare w o destination =
      let (target, there) = is_exist os w (fs_object destination) in
      if there then prepare_present w o target else prepare_missing w o target

  -- `createSymLink` behind the making of what is at the new path
  unfoldable pub link_at : World → FsObject → FsObject → World × FsObject × Bool
  unfolding get_absolute_path
  link_at w o target =
      let (w', _, real) = get_absolute_path os w target in
      let (w'', ok) = symlink w' o.as_path.path real in (w'', o, ok)

  unfoldable pub create_sym_link : World → FsObject → Bytes → Option (World × FsObject × Bool)
  unfolding is_exist fs_object get_type create link_at
  create_sym_link w o destination =
      let (o', there) = is_exist os w o in
      let (target, target_there) = is_exist os w (fs_object destination) in
      let (target', t) = get_type os w target in
      let made = create os 4097 0x1ff w target in
      if not there
      then some (w, o', false)
      else if target_there
      then (if t == directory then some (link_at w o' target') else some (w, o', false))
      else elim made [ none ↦ none | some (w', target'', _) ↦ some (link_at w' o' target'') ]

  -- `removeSymLink` of a symbolic link
  unfoldable pub unlink_link : World → FsObject → World × FsObject × Bool
  unfolding get_absolute_path set_object_path
  unlink_link w o =
      let (w', o', real) = get_absolute_path os w o in
      let (w'', ok) = unlink w' o'.as_path.path in
      if ok then (w'', set_object_path o' real, true) else (w'', o', false)

  unfoldable pub remove_sym_link : World → FsObject → World × FsObject × Bool
  unfolding is_exist is_symbolic_link unlink_link
  remove_sym_link w o =
      let (o', there) = is_exist os w o in
      let (o'', link) = is_symbolic_link os w o' in
      if not there then (w, o', false) else if link then unlink_link w o'' else (w, o'', true)

  module _ (sh : ShellOs World) where
    -- `execCommand`: whether the command succeeded, and its output lines
    unfoldable pub exec_command : ℕ → World → Bytes → Option (World × Bool × List Bytes)
    unfolding run
    exec_command fuel w command = elim (run sh fuel w command) [
      | none ↦ none
      | some (w', s) ↦ some (w', s.exec_status, if s.exec_status then s.output_lines else [])
    ]

    -- A command on the real path of the object, with what stands behind it.
    unfoldable pub exec_on : ℕ → World → FsObject → Bytes → Bytes → Option (World × FsObject × Bool)
    unfolding get_absolute_path exec_command
    exec_on fuel w o front behind =
        let (w', o', real) = get_absolute_path os w o in
        elim (exec_command fuel w' (front ++ (real ++ behind))) [
          | none ↦ none
          | some (w'', ok, _) ↦ some (w'', o', ok)
        ]

    -- `move` and `copy` from the preparation on
    unfoldable pub transfer_prepared : ℕ → Bytes → Prepared World → Option (World × FsObject × Bool)
    unfolding exec_on
    transfer_prepared fuel front fault = none
    transfer_prepared fuel front (refused w o) = some (w, o, false)
    transfer_prepared fuel front (ready w o target) =
        exec_on fuel w o front (b' ' ∷ target.as_path.path)

    unfoldable pub transfer :
        ℕ → Bytes → World → FsObject → Bytes → Option (World × FsObject × Bool)
    unfolding is_exist prepare transfer_prepared
    transfer fuel front w o destination =
        let (o', there) = is_exist os w o in
        let moved = transfer_prepared fuel front (prepare w o' destination) in
        if there then moved else some (w, o', false)

    -- The object is not there any more where the operation succeeded.
    unfoldable pub forget_moved :
        Option (World × FsObject × Bool) → Option (World × FsObject × Bool)
    unfolding forget
    forget_moved none = none
    forget_moved (some (w, o, true)) = some (w, forget o, true)
    forget_moved (some (w, o, false)) = some (w, o, false)

    unfoldable pub move : ℕ → World → FsObject → Bytes → Option (World × FsObject × Bool)
    unfolding transfer forget_moved
    move fuel w o destination = forget_moved (transfer fuel (codes "mv ") w o destination)

    unfoldable pub copy : ℕ → World → FsObject → Bytes → Option (World × FsObject × Bool)
    unfolding transfer
    copy fuel w o destination = transfer fuel (codes "cp -rf ") w o destination

    -- `remove` of what is not a directory
    unfoldable pub remove_file : World → FsObject → World × FsObject × Bool
    unfolding get_absolute_path
    remove_file w o =
        let (w', o', real) = get_absolute_path os w o in
        let (w'', ok) = unlink w' real in (w'', o', ok)

    unfoldable pub remove : ℕ → World → FsObject → Option (World × FsObject × Bool)
    unfolding is_exist get_type exec_on remove_file forget_moved
    remove fuel w o =
        let (o', there) = is_exist os w o in
        let (o'', t) = get_type os w o' in
        let directory_gone = forget_moved (exec_on fuel w o'' (codes "rm -rf ") []) in
        if not there
        then some (w, o', false)
        else if t == directory
        then directory_gone
        else forget_moved (some (remove_file w o''))

    -- `setOwner` and `setGroup`, by the command that they run
    unfoldable pub change_name :
        ℕ → Bytes → World → FsObject → Bytes → Option (World × FsObject × Bool)
    unfolding is_exist exec_on
    change_name fuel front w o name =
        let (o', there) = is_exist os w o in
        let changed = exec_on fuel w o' (front ++ (name ++ b' ' ∷ [])) [] in
        if not there
        then some (w, o', false)
        else if is_empty name
        then some (w, o', false)
        else changed

    unfoldable pub set_owner : ℕ → World → FsObject → Bytes → Option (World × FsObject × Bool)
    unfolding change_name
    set_owner fuel = change_name fuel (codes "chown ")

    unfoldable pub set_group : ℕ → World → FsObject → Bytes → Option (World × FsObject × Bool)
    unfolding change_name
    set_group fuel = change_name fuel (codes "chgrp ")
