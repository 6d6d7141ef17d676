-- ===== src/FsObject.antt =====
-- libsrc/libfs/FsObject.cpp: the class `FsObject`, an object of the file system named by a path.
--
-- The members that `const` functions change are `mutable` in the source, so that each function
-- returns the object as it leaves it, with the state of the file system where it changes that. A
-- path holds no NUL byte, so that `c_str()` stands for the whole text.
pub mod Making
pub mod Existence
pub mod Found
pub mod Directories
pub mod Parents
pub mod Renaming
pub mod Creation
pub mod Modes
pub mod Commands
pub mod Removal
pub mod Links
pub mod Transfer
pub mod SmallOs
mod Tests
mod CommandTests
use cpp_temp_learn.Prelude.{
  ℕ, ◌%◌, zero, suc, ◌+◌, ◌-◌, ◌^◌, Bool, true, false, not, ◌&&◌, ◌||◌, [], ◌∷◌, ◌++◌, Option, none,
  some, Bytes, take, drop, is_empty, without_last, codes, ltb, ◌==◌, if◌then◌else◌,
}
use cpp_temp_learn.FilePath.{
  FilePath, slash, default_path, assign, from_text, set_path, analyze, full_path, directory_path,
}
use cpp_temp_learn.FileSystem.{
  unknown, fifo, char_device, directory, block_device, regular_file, symbolic_link, socket, type_of,
  permissions, Stat, is_dir, is_reg, is_link, Os,
}

pub record FsObject : Type 0 where
  pub as_path : FilePath
  pub real_path : Bytes
  pub object_type : ℕ

-- `FsObject(const std::string &)`, `FsObject(std::string &&)` and `FsObject(const char *)`
unfoldable pub fs_object : Bytes → FsObject
unfolding from_text
fs_object s = record { as_path = from_text s; real_path = []; object_type = unknown }

-- `operator=`: what only an `FsObject` has is kept.
unfoldable pub assign_object : FsObject → FsObject → FsObject
unfolding assign
assign_object this source = record this { as_path = assign source.as_path }

-- the inherited `setPath`
unfoldable pub set_object_path : FsObject → Bytes → FsObject
unfolding set_path
set_object_path o s = record o { as_path = set_path o.as_path s }

-- the analysis that every accessor starts with
unfoldable pub analyzed : FsObject → FsObject
analyzed o = record o { as_path = analyze o.as_path }

-- A `long`, 64 bits wide.
pub data ℤ : Type 0 where
  pos : ℕ → ℤ
  negsuc : ℕ → ℤ

-- `(long)` of an unsigned value of 64 bits at most
abbrev pub as_long : ℕ → ℤ
as_long n = if ltb n (2 ^ 63) then pos n else negsuc (2 ^ 64 - 1 - n)

-- the new name that `create` takes where an object of another type is in its way
unfoldable pub renamed : FsObject → FsObject
unfolding set_object_path analyzed
renamed o =
    let p = analyze o.as_path in
    set_object_path (analyzed o) (p.directory_path ++ p.basename ++ (b'#' ∷ p.extension))

-- the object at hand is not of the type that is asked for
unfoldable pub mismatch : ℕ → Stat → Bool
mismatch t s = ((t == regular_file) && not (is_reg s)) || ((t == directory) && not (is_dir s))

-- what `checkIfExists` notes of a stat
unfoldable pub note : FsObject → Option Stat → FsObject
unfolding mismatch
note o none = o
note o (some s) = record o {
  as_path = record o.as_path { exists = not (mismatch o.object_type s) };
}

module _ (os : Os) where
  open os use {World, stat, lstat, user_name, group_name}

  -- `getStat`
  unfoldable pub get_stat : World → Bool → FsObject → FsObject × Option Stat
  unfolding analyzed
  get_stat w link o =
      let (p, full) = full_path o.as_path in
      if is_empty o.as_path.path
      then (o, none)
      else (analyzed o, if link then lstat w full else stat w full)

  -- what the queries return of a stat, and -1 without one
  unfoldable pub query : (Stat → ℕ) → World → FsObject → FsObject × ℤ
  unfolding get_stat
  query field w o =
      let (o', found) = get_stat w false o in
      elim found [ none ↦ (o', negsuc 0) | some s ↦ (o', as_long (field s)) ]

  unfoldable pub get_inode : World → FsObject → FsObject × ℤ
  get_inode = query (λ s. s.ino)

  unfoldable pub get_link_count : World → FsObject → FsObject × ℤ
  get_link_count = query (λ s. s.nlink)

  unfoldable pub get_uid : World → FsObject → FsObject × ℤ
  get_uid = query (λ s. s.uid)

  unfoldable pub get_gid : World → FsObject → FsObject × ℤ
  get_gid = query (λ s. s.gid)

  unfoldable pub get_block_size : World → FsObject → FsObject × ℤ
  get_block_size = query (λ s. s.blksize)

  unfoldable pub get_size : World → FsObject → FsObject × ℤ
  get_size = query (λ s. s.size)

  unfoldable pub get_block_count : World → FsObject → FsObject × ℤ
  get_block_count = query (λ s. s.blocks)

  unfoldable pub get_creation_time : World → FsObject → FsObject × ℤ
  get_creation_time = query (λ s. s.ctime)

  unfoldable pub get_last_access_time : World → FsObject → FsObject × ℤ
  get_last_access_time = query (λ s. s.atime)

  unfoldable pub get_last_update_time : World → FsObject → FsObject × ℤ
  get_last_update_time = query (λ s. s.mtime)

  unfoldable pub get_type : World → FsObject → FsObject × ℕ
  unfolding get_stat
  get_type w o =
      let (o', found) = get_stat w false o in
      elim found [ none ↦ (o', unknown) | some s ↦ (o', type_of s.mode) ]

  unfoldable pub get_mode : World → FsObject → FsObject × ℕ
  unfolding get_stat
  get_mode w o =
      let (o', found) = get_stat w false o in
      elim found [ none ↦ (o', 0) | some s ↦ (o', permissions s.mode) ]

  unfoldable pub is_symbolic_link : World → FsObject → FsObject × Bool
  unfolding get_stat
  is_symbolic_link w o =
      let (o', found) = get_stat w true o in
      elim found [ none ↦ (o', false) | some s ↦ (o', is_link s) ]

  unfoldable pub check_if_exists : World → FsObject → FsObject
  unfolding get_stat note
  check_if_exists w o =
      let (o', found) = get_stat w false o in
      let noted = note o' found in if o.as_path.exists || is_empty o.as_path.path then o else noted

  unfoldable pub is_exist : World → FsObject → FsObject × Bool
  unfolding check_if_exists
  is_exist w o = let o' = check_if_exists w o in (o', o'.as_path.exists)

  -- what a `uid_t` or a `gid_t`, 32 bits wide, keeps of a `long`
  unfoldable pub as_id : ℤ → ℕ
  as_id (pos n) = n % 2 ^ 32
  as_id (negsuc n) = 2 ^ 32 - 1 - n % 2 ^ 32

  -- the name of the type, which is spelled like the enumerator
  unfoldable pub get_type_to_str : World → FsObject → FsObject × Bytes
  unfolding get_type
  get_type_to_str w o =
      let (o', t) = get_type w o in
      (
        o',
        if t == fifo
            then codes "FIFO"
            else if t == char_device
            then codes "CHAR_DEVICE"
            else if t == directory
            then codes "DIRECTORY"
            else if t == block_device
            then codes "BLOCK_DEVICE"
            else if t == regular_file
            then codes "REGULAR_FILE"
            else if t == symbolic_link
            then codes "SYMBOLIC_LINK"
            else if t == socket
            then codes "SOCKET"
            else codes "UKNOWN",
      )

  unfoldable pub get_owner : World → FsObject → FsObject × Bytes
  unfolding get_uid as_id
  get_owner w o =
      let (o', id) = get_uid w o in
      elim (user_name w (as_id id)) [ none ↦ (analyzed o', []) | some name ↦ (o', name) ]

  unfoldable pub get_group : World → FsObject → FsObject × Bytes
  unfolding get_gid as_id
  get_group w o =
      let (o', id) = get_gid w o in
      elim (group_name w (as_id id)) [ none ↦ (analyzed o', []) | some name ↦ (o', name) ]
