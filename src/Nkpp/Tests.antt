-- ===== src/Nkpp/Tests.antt =====
-- The log of the example, and the theorems at concrete inputs.
use kos_ce_extra.Prelude.{none, List, [], ◌∷◌, codes, text_eq, ◌≡◌, refl}
use kos_ce_extra.Nkpp.Protocol.{
  Retcodes, catch_thrown, throw_thrown, Food, food_index, food_name, get_food_str, what,
}
use kos_ce_extra.Nkpp.Server.{
  collie_animal, lion_animal, root, serve_animal, perform, say, eat, eat_certain, is_eatable,
  Endpoint,
}
use kos_ce_extra.Nkpp.Client.{call, call_all, catches, example_animals}

abbrev retcodes : Retcodes
retcodes = record { animal = 4097; food = 4098; rc_fail = 1 }

-- The dogs say `wooow`.
example_log : example_animals retcodes (λ rc. none) ≡ (
  codes "[Client]: --------- Say() ---------"
      ∷ codes "[Server]: Cat Lion: meow"
      ∷ codes "[Server]: Cat Katty: meow"
      ∷ codes "[Server]: Dog Collie: wooow"
      ∷ codes "[Server]: CatDog Dog: wooow"
      ∷ codes "[Server]: CatDog Cat: meow"
      ∷ codes "[Server]: Something Thing: Animal not supported"
      ∷ codes "[Client]: IPC request error: Animal not supported."
      ∷ codes "[Client]: --------- Eat() ---------"
      ∷ codes "[Server]: Cat Katty eats fish"
      ∷ codes "[Server]: Dog Collie eats meat"
      ∷ codes "[Server]: CatDog Cat don't want to eat stone: Food not suitable"
      ∷ codes "[Client]: IPC request error: Food not suitable."
      ∷ codes "[Server]: CatDog Dog don't want to eat wood: Food not suitable"
      ∷ codes "[Client]: IPC request error: Food not suitable."
      ∷ codes "[Server]: Something Thing eats spaceship"
      ∷ [],
  none,
)
unfolding example_animals call_all call catches serve_animal perform say eat eat_certain is_eatable
    get_food_str what root throw_thrown catch_thrown text_eq
example_log = refl

abbrev dinner : List (Endpoint × Food)
dinner = (lion_animal, food_name (codes "wood")) ∷ (collie_animal, food_index 2) ∷ []
