-- ===== src/PathResolution.antt =====
-- libsrc/libfs/Path.cpp: `Path::resolved`, which takes '.' and '..' out of a path.
--
-- The stack is a list with the last item pushed in front. `pop_back` on an empty vector is
-- undefined behaviour, which is `none` here.
pub mod Normal
pub mod Walk
pub mod Result
pub mod Text
pub mod Combine
mod Tests
use cpp_temp_learn.Prelude.{
  ℕ, suc, ◌+◌, ◌-◌, Bool, true, false, not, ◌&&◌, ◌||◌, List, [], ◌∷◌, ◌++◌, reverse, Option, none,
  some, ◌>>=◌, Bytes, equal, is_empty, getlines, ltb, if◌then◌else◌,
}
use cpp_temp_learn.FilePath.{slash, is_root}

abbrev pub dot : Bytes
dot = b'.' ∷ []

abbrev pub dot_dot : Bytes
dot_dot = b'.' ∷ b'.' ∷ []

pub record Resolving : Type 0 where
  pub stack : List Bytes
  pub removable_items : ℕ
  pub absolute : Bool

-- `stack.pop_back(); removableItems--;`
pub pop : Resolving → Option Resolving
pop r = elim r.stack [
  | [] ↦ none
  | x ∷ rest ↦ some (record r { stack = rest; removable_items = r.removable_items - 1 })
]

-- `stack.push_back(path)`, and the count of the items that '..' may remove
pub push : Bool → Bytes → Resolving → Resolving
unfolding equal
push first path r = record r {
  stack = path ∷ r.stack;
  removable_items =
      if not (first && r.absolute) && not (equal path dot_dot)
      then r.removable_items + 1
      else r.removable_items;
}

-- One round of the loop over the sub-paths. The flag is `i == 0`.
pub resolve_part : Bool → Bytes → Resolving → Option Resolving
unfolding equal is_root pop push
resolve_part first path r =
    let r' = record r { absolute = r.absolute || (first && is_root path) } in
    if equal path dot
    then some r'
    else if equal path dot_dot && ltb 0 r'.removable_items
    then pop r'
    else some (push first path r')

pub resolve_parts : Bool → List Bytes → Resolving → Option Resolving
unfolding resolve_part
resolve_parts first [] r = some r
resolve_parts first (path ∷ rest) r = do r' ← resolve_part first path r; resolve_parts false rest r'

abbrev pub initial : Resolving
initial = record { stack = []; removable_items = 0; absolute = false }

-- The loop that composes the result. The flag is `i == 0 && absolute`.
pub compose : Bool → List Bytes → Bytes
compose root [] = []
compose root (p ∷ []) = p ++ (if root then slash ∷ [] else [])
compose root (p ∷ q ∷ ps) = p ++ (slash ∷ compose false (q ∷ ps))

abbrev dot_if_empty : Bytes → Bytes
dot_if_empty s = if is_empty s then dot else s

-- `resolved`, on the path's unified text
unfoldable pub resolved : Bytes → Option Bytes
unfolding getlines resolve_parts compose
resolved s = do
  r ← resolve_parts true (getlines slash s) initial
  some (dot_if_empty (compose r.absolute (reverse r.stack)))
