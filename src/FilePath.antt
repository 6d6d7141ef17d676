-- ===== src/FilePath.antt =====
-- libsrc/libfs/Path.cpp: the class `Path`, its analysis and `resolve`. The normalisation
-- `resolved` is in PathResolution.
--
-- A `std::string` is its list of bytes. The members that `analyze() const` fills are `mutable` in
-- the source, so an accessor returns the path with its new members beside the value.
pub mod FullPath
pub mod FileName
pub mod Coherence
pub mod Content
pub mod Stored
mod Tests
use cpp_temp_learn.Prelude.{
  ℕ, zero, suc, ◌+◌, ◌-◌, ◌%◌, Bool, true, false, not, ◌&&◌, ◌||◌, List, [], ◌∷◌, ◌++◌, map, Option,
  none, some, Bytes, length, take, drop, get_or, equal, is_empty, getlines, find_byte,
  find_last_byte, position, size_mod, ◌==◌, if◌then◌else◌,
}
use mathlib.Core.Option

abbrev pub slash : ℕ
slash = b'/'

pub record FilePath : Type 0 where
  pub path : Bytes
  pub points_to_content : Bool
  pub details : Bool
  pub full_path : Bytes
  pub filename : Bytes
  pub basename : Bytes
  pub extension : Bytes
  pub directory_path : Bytes
  pub drive_letter : Bytes
  pub absolute : Bool
  pub exists : Bool

-- `Path()` leaves `m_absolute` with an indeterminate value, here the argument.
unfoldable pub default_path : Bool → FilePath
default_path indeterminate = record {
  path = [];
  points_to_content = false;
  details = false;
  full_path = [];
  filename = [];
  basename = [];
  extension = [];
  directory_path = [];
  drive_letter = [];
  absolute = indeterminate;
  exists = false;
}

-- `operator=(const Path &)`: all members but `m_exists`. The target of `operator=(Path &&)` becomes the
-- same; what that leaves in its source is not modelled.
unfoldable pub assign : FilePath → FilePath
assign source = record source { exists = false }

-- `std::replace(m_path.begin(), m_path.end(), '\\', '/')`
unfoldable pub unify : Bytes → Bytes
unify [] = []
unify (c ∷ s) = (if c == b'\\' then slash else c) ∷ unify s

-- Both overloads of `setPath`. `m_path.size() - 1` is computed in `size_t`.
unfoldable pub set_path : FilePath → Bytes → FilePath
unfolding unify find_last_byte
set_path p s =
    let unified = unify s in
    record {
      path = unified;
      points_to_content =
          position (find_last_byte slash unified) == (length unified + size_mod - 1) % size_mod;
      details = false;
      full_path = [];
      filename = [];
      basename = [];
      extension = [];
      directory_path = [];
      drive_letter = [];
      absolute = false;
      exists = false;
    }

-- `Path(const std::string &)`, `Path(std::string &&)` and `Path(const char *)`
unfoldable pub from_text : Bytes → FilePath
unfolding set_path default_path
from_text s = set_path (default_path false) s

-- `path.empty() || (path.length() == 2 && path[1] == ':')`: the start of an absolute path
unfoldable pub is_root : Bytes → Bool
is_root s = is_empty s || (length s == 2 && get_or s 1 0 == b':')

-- The loop that puts a '/' behind every sub-path but the last. The flag is `i == 0`.
unfoldable pub fix_parts : Bool → List Bytes → List Bytes
unfolding is_root
fix_parts first [] = []
fix_parts first (p ∷ []) = (if first && is_root p then p ++ slash ∷ [] else p) ∷ []
fix_parts first (p ∷ q ∷ ps) = (p ++ slash ∷ []) ∷ fix_parts false (q ∷ ps)

-- the same loop's effect on `m_absolute`
unfoldable pub starts_at_root : List Bytes → Bool
unfolding is_root
starts_at_root [] = false
starts_at_root (p ∷ ps) = is_root p

-- `parts[numParts - 1]`, or "" where there is none
pub last_part : List Bytes → Bytes
last_part [] = []
last_part (p ∷ []) = p
last_part (p ∷ q ∷ ps) = last_part (q ∷ ps)

-- the loop that joins all parts but the last
unfoldable pub join_directory : List Bytes → Bytes
join_directory [] = []
join_directory (p ∷ []) = []
join_directory (p ∷ q ∷ ps) = p ++ join_directory (q ∷ ps)

-- `m_directoryPath` and `m_fullPath`, by the three cases on `numParts` and `m_absolute`
unfoldable pub locate : List Bytes → Bool → Bytes × Bytes
unfolding last_part join_directory
locate [] absolute = ([], [])
locate (p ∷ []) absolute = if absolute then (p, p) else ([], p)
locate (p ∷ q ∷ ps) absolute =
    let directory = join_directory (p ∷ q ∷ ps) in (directory, directory ++ last_part (p ∷ q ∷ ps))

-- `m_filename.find_first_of('.', 1)`
pub find_dot : Bytes → Option ℕ
unfolding find_byte
find_dot [] = none
find_dot (c ∷ s) = Option.map suc (find_byte b'.' s)

-- `m_basename` and `m_extension`
pub split_name : Bytes → Bytes × Bytes
unfolding find_dot equal
split_name name =
    if equal name (b'.' ∷ []) || equal name (b'.' ∷ b'.' ∷ [])
    then (name, [])
    else elim (find_dot name) [ none ↦ (name, []) | some pos ↦ (take pos name, drop pos name) ]

-- `pos == 1 ? m_path.substr(0, pos + 1) : ""`
pub drive_of : Bytes → Bytes → Bytes
unfolding find_byte
drive_of full path = if position (find_byte b':' full) == 1 then take 2 path else []

-- The body of `analyze` behind its early return.
unfoldable pub analyze_fresh : FilePath → FilePath
unfolding getlines fix_parts starts_at_root locate split_name drive_of last_part
analyze_fresh p =
    let parts = getlines slash p.path in
    let absolute = starts_at_root parts in
    let fixed = fix_parts true parts in
    let name = last_part fixed in
    let (directory, full) = locate fixed absolute in
    let (base, ext) = split_name name in
    record p {
      details = true;
      full_path = full;
      filename = name;
      basename = base;
      extension = ext;
      directory_path = directory;
      drive_letter = drive_of full p.path;
      absolute = absolute;
      exists = false;
    }

unfoldable pub analyze : FilePath → FilePath
unfolding analyze_fresh
analyze p = let fresh = analyze_fresh p in if p.details then p else fresh

-- The accessors analyse first; `isRelative` is `not` of `is_absolute`.
unfoldable pub full_path : FilePath → FilePath × Bytes
full_path p = let q = analyze p in (q, q.full_path)

unfoldable pub file_name : FilePath → FilePath × Bytes
file_name p = let q = analyze p in (q, q.filename)

unfoldable pub base_name : FilePath → FilePath × Bytes
base_name p = let q = analyze p in (q, q.basename)

unfoldable pub extension : FilePath → FilePath × Bytes
extension p = let q = analyze p in (q, q.extension)

unfoldable pub directory_path : FilePath → FilePath × Bytes
directory_path p = let q = analyze p in (q, q.directory_path)

unfoldable pub drive_letter : FilePath → FilePath × Bytes
drive_letter p = let q = analyze p in (q, q.drive_letter)

unfoldable pub is_absolute : FilePath → FilePath × Bool
is_absolute p = let q = analyze p in (q, q.absolute)

unfoldable pub is_relative : FilePath → FilePath × Bool
is_relative p = let q = analyze p in (q, not q.absolute)

-- `toNative`, outside Windows
unfoldable pub to_native : FilePath → Bytes
to_native p = p.path

-- `resolve`: the two paths as it leaves them, and the result. A returned path is a copy.
unfoldable pub resolve : FilePath → FilePath → FilePath × FilePath × FilePath
unfolding from_text default_path
resolve this other =
    if is_empty other.path && is_empty this.path
    then (this, other, default_path false)
    else (let analyzed = analyze other in
        if analyzed.absolute || is_empty this.path
        then (this, analyzed, analyzed)
        else if is_empty other.path
        then (this, analyzed, this)
        else (let base = analyze this in
            (base, analyzed, from_text (base.full_path ++ (slash ∷ other.path)))))
