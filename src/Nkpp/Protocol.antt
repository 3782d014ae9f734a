-- ===== src/Nkpp/Protocol.antt =====
-- The food and the exceptions that the server and the client share (nkpp/common/food.h,
-- nkpp/common/errors.h, nkpp/common/exception_converter.h).
use kos_ce_extra.Prelude.{
  ℕ, Option, none, some, List, [], ◌∷◌, get_elem?, Text, codes, ◌==◌, if◌then◌else◌,
}

-- What C++ code throws.
pub data Thrown : Type 0 where
  animal_not_supported food_not_suitable std_exception unknown : Thrown

-- The codes of the two exceptions, which a macro of the system makes, and the system's `rcFail`.
pub record Retcodes : Type 0 where
  pub animal : ℕ
  pub food : ℕ
  pub rc_fail : ℕ

abbrev pub rc_ok : ℕ
rc_ok = 0

unfoldable pub catch_thrown : Retcodes → Thrown → ℕ
catch_thrown c animal_not_supported = c.animal
catch_thrown c food_not_suitable = c.food
catch_thrown c std_exception = c.rc_fail
catch_thrown c unknown = c.rc_fail

-- `none`: the method returns, and the caller goes on.
unfoldable pub throw_thrown : Retcodes → ℕ → Option Thrown
throw_thrown c rc =
    if rc == c.animal
    then some animal_not_supported
    else if rc == c.food
    then some food_not_suitable
    else none

unfoldable pub what : Thrown → Text
what animal_not_supported = codes "Animal not supported"
what food_not_suitable = codes "Food not suitable"
what std_exception = []
what unknown = []

abbrev pub known_food : List Text
known_food =
    codes "fish"
    ∷ codes "meat"
    ∷ codes "milk"
    ∷ codes "orange"
    ∷ codes "apple"
    ∷ codes "wood"
    ∷ codes "stone"
    ∷ []

-- The union of the interface.
pub data Food : Type 0 where
  food_index : ℕ → Food
  food_name : Text → Food

unfoldable pub get_food_str : Food → Text
get_food_str (food_name name) = name
get_food_str (food_index i) = elim (get_elem? known_food i) [
  | none ↦ codes "unknown something"
  | some name ↦ name
]
