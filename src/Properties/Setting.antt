-- ===== src/Properties/Setting.antt =====
-- What a property is once it is set.
use cpp_temp_learn.Prelude.{
  ℕ, ◌^◌, ◌<◌, false, [], ◌∷◌, Option, none, some, ◌≡◌, refl, sym, ap, ◌∙◌, inl, inr, Bytes,
  is_empty, equal, equal_iff, All, leb, Bool-cases, if◌then◌else◌,
}
use cpp_temp_learn.Numbers.{parse_uint}
use cpp_temp_learn.Numbers.Decimals.{IsDigit, decimal_value, parse_uint-decimal_value}
use cpp_temp_learn.Properties.{
  PropertyMap, find_property, set_property, get_property, get_uint_property,
}

distinct :
    (key other name : Bytes) → equal key name ≡ false → other ≡ name → equal other key ≡ false
distinct key other name e same = elim (Bool-cases (equal other key)) [
  | inr g ↦ g
  | inl g ↦
      let again = (equal_iff key name).1 (sym ((equal_iff other key).0 g) ∙ same) in
      absurd (cc (again, e))
]

find_property-set_property :
    (m : PropertyMap) (key other value : Bytes)
    → find_property (set_property m key value) other
      ≡ (if equal other key then some value else find_property m other)
unfolding find_property set_property
find_property-set_property [] key other value = refl
find_property-set_property ((name, old) ∷ m) key other value = elim (Bool-cases (equal key name)) [
  | inl e ↦
      let same : key ≡ name = (equal_iff key name).0 e in
      rw (e, same) (elim (Bool-cases (equal other name)) [ inl f ↦ rw f refl | inr f ↦ rw f refl ])
  | inr e ↦
      let ih = find_property-set_property m key other value in
      rw (e, ih)
        (elim (Bool-cases (equal other name)) [
          | inl f ↦
              let same : other ≡ name = (equal_iff other name).0 f in
              let apart : equal other key ≡ false = distinct key other name e same in
              rw (f, apart) refl
          | inr f ↦ rw f refl
        ])
]

-- Once a property is set, `GetProperty` of its name gives the value, or the default where that is
-- empty, and `GetProperty` of any other name gives what it gave before.
pub get_property-set_property :
    (m : PropertyMap) (key other value default_value : Bytes)
    → get_property (set_property m key value) other default_value ≡ (
        if equal other key
        then (if is_empty value then default_value else value)
        else get_property m other default_value)
unfolding get_property
get_property-set_property m key other value default_value =
    ap or_default (find_property-set_property m key other value)
    ∙ (elim (Bool-cases (equal other key)) [ inl e ↦ rw e refl | inr e ↦ rw e refl ])
  where
    or_default : Option Bytes → Bytes
    or_default found = elim found [
      | none ↦ default_value
      | some v ↦ if is_empty v then default_value else v
    ]

-- Once a property is set to decimal digits, `GetUintProperty` of its name gives the number that they
-- spell, or the default where that is beyond the limit, where the limit is below 2^64.
pub get_uint_property-set_property :
    (m : PropertyMap) (key : Bytes) (c : ℕ) (s : Bytes) (default_value max : ℕ)
    → IsDigit c
    → All IsDigit s
    → max < 2 ^ 64
    → get_uint_property (set_property m key (c ∷ s)) key default_value max
      ≡ (if leb (decimal_value 0 (c ∷ s)) max then decimal_value 0 (c ∷ s) else default_value)
unfolding get_uint_property
get_uint_property-set_property m key c s default_value max d h l =
    ap read (get_property-set_property m key key (c ∷ s) [] ∙ itself)
    ∙ ap taken (parse_uint-decimal_value c s max false d h l)
    ∙ (elim (Bool-cases (leb (decimal_value 0 (c ∷ s)) max)) [
      | inl e ↦ rw e refl
      | inr e ↦ rw e refl
    ])
  where
    taken : Option ℕ → ℕ
    taken r = elim r [ none ↦ default_value | some result ↦ result ]

    read : Bytes → ℕ
    read value = if is_empty value then default_value else taken (parse_uint value max false)

    itself : (if equal key key then c ∷ s else get_property m key []) ≡ c ∷ s
    itself = rw ((equal_iff key key).1 refl) refl
