-- ===== src/Properties.antt =====
-- libsrc/libcpputils/properties.cpp: named properties, in memory.
--
-- `std::map` is a list of pairs of different keys. A key or a value holds no NUL byte.
pub mod Setting
mod Tests
use cpp_temp_learn.Prelude.{
  ℕ, Bool, true, false, ◌||◌, List, [], ◌∷◌, Option, none, some, Bytes, codes, is_empty, equal,
  if◌then◌else◌,
}
use cpp_temp_learn.FsObject.{ℤ}
use cpp_temp_learn.Numbers.{parse_uint, parse_int}

abbrev pub PropertyMap : Type 0
PropertyMap = List (Bytes × Bytes)

-- `g_properties.find(key)`
unfoldable pub find_property : PropertyMap → Bytes → Option Bytes
unfolding equal
find_property [] key = none
find_property ((name, value) ∷ m) key = if equal key name then some value else find_property m key

-- `g_properties[key] = value`
unfoldable pub set_property : PropertyMap → Bytes → Bytes → PropertyMap
unfolding equal
set_property [] key value = (key, value) ∷ []
set_property ((name, old) ∷ m) key value =
    let rest = set_property m key value in
    if equal key name then (name, value) ∷ m else (name, old) ∷ rest

unfoldable pub get_property : PropertyMap → Bytes → Bytes → Bytes
unfolding find_property
get_property m key default_value = elim (find_property m key) [
  | none ↦ default_value
  | some value ↦ if is_empty value then default_value else value
]

unfoldable pub is_yes : Bytes → Bool
unfolding equal
is_yes s =
    equal s (codes "1")
    || equal s (codes "y")
    || equal s (codes "yes")
    || equal s (codes "on")
    || equal s (codes "true")

unfoldable pub is_no : Bytes → Bool
unfolding equal
is_no s =
    equal s (codes "0")
    || equal s (codes "n")
    || equal s (codes "no")
    || equal s (codes "off")
    || equal s (codes "false")

unfoldable pub get_bool_property : PropertyMap → Bytes → Bool → Bool
unfolding get_property is_yes is_no
get_bool_property m key default_value =
    let value = get_property m key [] in
    if is_yes value then true else if is_no value then false else default_value

unfoldable pub get_uint_property : PropertyMap → Bytes → ℕ → ℕ → ℕ
unfolding get_property parse_uint
get_uint_property m key default_value max =
    let value = get_property m key [] in
    if is_empty value
    then default_value
    else elim (parse_uint value max false) [ none ↦ default_value | some result ↦ result ]

unfoldable pub get_int_property : PropertyMap → Bytes → ℤ → ℤ → ℤ → ℤ
unfolding get_property parse_int
get_int_property m key default_value min max =
    let value = get_property m key [] in
    if is_empty value
    then default_value
    else elim (parse_int value min max) [ none ↦ default_value | some result ↦ result ]
