-- ===== src/Properties/Tests.antt =====
-- The theorems on properties at concrete ones.
use cpp_temp_learn.Prelude.{[], ◌∷◌, ◌≡◌, arith, codes}
use cpp_temp_learn.Properties.{PropertyMap, set_property, get_property}
use cpp_temp_learn.Properties.Setting.{get_property-set_property}

abbrev two : PropertyMap
two = (codes "a", codes "1") ∷ (codes "b", codes "yes") ∷ []

get_property-set_property_example :
    get_property (set_property two (codes "b") (codes "no")) (codes "b") [] ≡ codes "no"
unfolding cpp_temp_learn.Prelude.equal
get_property-set_property_example =
    get_property-set_property two (codes "b") (codes "b") (codes "no") []
