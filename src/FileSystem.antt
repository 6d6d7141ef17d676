-- ===== src/FileSystem.antt =====
-- The system calls and constants that libsrc/libfs/FsObject.cpp uses.
--
-- A call is a function of the file system's state. The laws are those that POSIX documents.
use cpp_temp_learn.Prelude.{
  ℕ, ◌-◌, ◌*◌, ◌/◌, ◌%◌, ◌^◌, ◌≤◌, Bool, true, false, ◌≡◌, Option, none, some, Bytes, length, [],
  ◌==◌,
}

-- `FsObject::Type`
abbrev pub unknown : ℕ
unknown = 0

abbrev pub fifo : ℕ
fifo = 0x1000

abbrev pub char_device : ℕ
char_device = 0x2000

abbrev pub directory : ℕ
directory = 0x4000

abbrev pub block_device : ℕ
block_device = 0x6000

abbrev pub regular_file : ℕ
regular_file = 0x8000

abbrev pub symbolic_link : ℕ
symbolic_link = 0xa000

abbrev pub socket : ℕ
socket = 0xc000

-- `mode & S_IFMT`
abbrev pub type_of : ℕ → ℕ
type_of mode = mode / 2 ^ 12 % 16 * 2 ^ 12

-- `mode & ~S_IFMT`
abbrev pub permissions : ℕ → ℕ
permissions mode = mode - type_of mode

pub record Stat : Type 0 where
  pub dev : ℕ
  pub ino : ℕ
  pub mode : ℕ
  pub nlink : ℕ
  pub uid : ℕ
  pub gid : ℕ
  pub blksize : ℕ
  pub size : ℕ
  pub blocks : ℕ
  pub ctime : ℕ
  pub atime : ℕ
  pub mtime : ℕ

-- `S_ISDIR`, `S_ISREG` and `S_ISLNK`
abbrev pub is_dir : Stat → Bool
is_dir s = type_of s.mode == directory

abbrev pub is_reg : Stat → Bool
is_reg s = type_of s.mode == regular_file

abbrev pub is_link : Stat → Bool
is_link s = type_of s.mode == symbolic_link

-- An object of a type stands at a path.
abbrev pub Holds : Option Stat → ℕ → Type 0
Holds found t = (s : Stat) × (found ≡ some s) × (type_of s.mode ≡ t)

-- `create_file` is `open` with `O_CREAT | O_WRONLY`, and `close`; `user_name` and `group_name` are
-- `getpwuid` and `getgrgid`, and `symlink` takes the target first. The laws on `stat` say that there
-- is nothing at the empty path (ENOENT) and at a path beyond PATH_MAX (ENAMETOOLONG).
pub record Os : Type 1 where
  pub World : Type 0
  pub stat : World → Bytes → Option Stat
  pub lstat : World → Bytes → Option Stat
  pub realpath : World → Bytes → Option Bytes
  pub mkdir : World → Bytes → ℕ → World × Bool
  pub create_file : World → Bytes → ℕ → World × Bool
  pub chmod : World → Bytes → ℕ → World × Bool
  pub unlink : World → Bytes → World × Bool
  pub symlink : World → Bytes → Bytes → World × Bool
  pub user_name : World → ℕ → Option Bytes
  pub group_name : World → ℕ → Option Bytes
  pub stat_empty : (w : World) → stat w [] ≡ none
  pub stat_long : (w : World) (p : Bytes) → 4096 ≤ length p → stat w p ≡ none
  pub mkdir_empty : (w w' : World) (m : ℕ) (ok : Bool) → mkdir w [] m ≡ (w', ok) → ok ≡ false
  pub mkdir_makes :
      (w w' : World) (p : Bytes) (m : ℕ) → mkdir w p m ≡ (w', true) → Holds (stat w' p) directory
  pub mkdir_keeps :
      (w w' : World) (p q : Bytes) (m : ℕ) (ok : Bool)
      → mkdir w p m ≡ (w', ok)
      → Holds (stat w q) directory
      → Holds (stat w' q) directory
  pub create_makes :
      (w w' : World) (p : Bytes) (m : ℕ)
      → stat w p ≡ none
      → create_file w p m ≡ (w', true)
      → Holds (stat w' p) regular_file
  pub chmod_sets :
      (w w' : World) (p r : Bytes) (m : ℕ) (s : Stat)
      → stat w p ≡ some s
      → realpath w p ≡ some r
      → chmod w r m ≡ (w', true)
      → (s' : Stat) × (stat w' p ≡ some s')
        × (type_of s'.mode ≡ type_of s.mode)
        × (s'.mode % 2 ^ 9 ≡ m % 2 ^ 9)
  pub lstat_none : (w : World) (p : Bytes) → lstat w p ≡ none → stat w p ≡ none
  pub realpath_stands :
      (w : World) (p r : Bytes) → realpath w p ≡ some r → (s : Stat) × (lstat w r ≡ some s)
  pub unlink_removes : (w w' : World) (p : Bytes) → unlink w p ≡ (w', true) → lstat w' p ≡ none
  pub symlink_fails :
      (w w' : World) (target p : Bytes) (s : Stat) (ok : Bool)
      → lstat w p ≡ some s
      → symlink w target p ≡ (w', ok)
      → ok ≡ false
