-- ===== src/Nkpp/Server.antt =====
-- The animals of the server and its endpoints (nkpp/server/src/main.cpp).
use kos_ce_extra.Prelude.{
  ℕ, Bool, true, false, Option, none, some, List, [], ◌∷◌, ◌++◌, Text, codes, text_eq,
  if◌then◌else◌, ◌||◌,
}
use kos_ce_extra.Nkpp.Protocol.{
  Thrown, animal_not_supported, food_not_suitable, Retcodes, rc_ok, catch_thrown, what, Food,
  get_food_str,
}

-- An animal with its label and its name.
pub data Animal : Type 0 where
  cat dog something : Text → Text → Animal
  cat_dog : Text → Text → Bool → Animal

-- What a method does: the line that it logs, and the exception that leaves it.
pub record Outcome : Type 0 where
  pub line : Text
  pub thrown : Option Thrown

abbrev pub cat_eatable : List Text
cat_eatable = codes "fish" ∷ codes "milk" ∷ []

abbrev pub dog_eatable : List Text
dog_eatable = codes "meat" ∷ codes "milk" ∷ []

-- `std::find` over a list of food.
unfoldable pub is_eatable : Text → List Text → Bool
is_eatable food [] = false
is_eatable food (x ∷ eatable) = text_eq x food || is_eatable food eatable

abbrev pub tagged : Text → Text → Text → Text
tagged label name rest = codes "[Server]: " ++ (label ++ (codes " " ++ (name ++ rest)))

-- `IAnimal<Certain>::Say` and `Something::Say`.
abbrev pub says : Text → Text → Text → Outcome
says label name word = record { line = tagged label name (codes ": " ++ word); thrown = none }

unfoldable pub say : Animal → Outcome
unfolding what
say (cat label name) = says label name (codes "meow")
say (dog label name) = says label name (codes "wooow")
say (cat_dog label name is_dog) = says label name (if is_dog then codes "wooow" else codes "meow")
say (something label name) = record {
  line = tagged label name (codes ": " ++ what animal_not_supported);
  thrown = some animal_not_supported;
}

-- `IAnimal<Certain>::Eat` with what `GetEatable` gives.
unfoldable pub eat_certain : List Text → Text → Text → Text → Outcome
eat_certain eatable label name food =
    if is_eatable food eatable
    then record { line = tagged label name (codes " eats " ++ food); thrown = none }
    else record {
      line =
          tagged label name
            (codes " don't want to eat " ++ (food ++ (codes ": " ++ what food_not_suitable)));
      thrown = some food_not_suitable;
    }

unfoldable pub eat : Food → Animal → Outcome
eat food (cat label name) = eat_certain cat_eatable label name (get_food_str food)
eat food (dog label name) = eat_certain dog_eatable label name (get_food_str food)
eat food (cat_dog label name is_dog) =
    eat_certain (if is_dog then dog_eatable else cat_eatable) label name (get_food_str food)
eat food (something label name) = record {
  line = tagged label name (codes " eats " ++ get_food_str food);
  thrown = none;
}

-- The endpoints that `main` links with its objects.
pub data Endpoint : Type 0 where
  lion_animal domestic_animal collie_animal catdog_cat catdog_dog something_animal : Endpoint

unfoldable pub root : Endpoint → Animal
root lion_animal = cat (codes "Cat") (codes "Lion")
root domestic_animal = cat (codes "Cat") (codes "Katty")
root collie_animal = dog (codes "Dog") (codes "Collie")
root catdog_cat = cat_dog (codes "CatDog") (codes "Cat") false
root catdog_dog = cat_dog (codes "CatDog") (codes "Dog") true
root something_animal = something (codes "Something") (codes "Thing")

pub data Method : Type 0 where
  say_method : Method
  eat_method : Food → Method

unfoldable pub perform : Method → Animal → Outcome
perform say_method a = say a
perform (eat_method food) a = eat food a

-- A request at the server: its line, and the code that goes back.
unfoldable pub serve_animal : Retcodes → Endpoint → Method → Text × ℕ
serve_animal c endpoint method =
    let o = perform method (root endpoint) in
    (o.line, elim o.thrown [ none ↦ rc_ok | some e ↦ catch_thrown c e ])
