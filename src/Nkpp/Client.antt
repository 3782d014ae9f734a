-- ===== src/Nkpp/Client.antt =====
-- The client (nkpp/client/src/main.cpp) in front of the server.
pub mod Meals
use kos_ce_extra.Prelude.{
  ℕ, Bool, true, false, Option, none, some, List, [], ◌∷◌, ◌++◌, Text, codes, ◌==◌, if◌then◌else◌,
}
use kos_ce_extra.Nkpp.Protocol.{
  Thrown, animal_not_supported, food_not_suitable, std_exception, unknown, Retcodes, throw_thrown,
  what, Food, food_index, food_name,
}
use kos_ce_extra.Nkpp.Server.{
  Endpoint, lion_animal, domestic_animal, collie_animal, catdog_cat, catdog_dog, something_animal,
  Method, say_method, eat_method, serve_animal,
}

-- A call through a proxy: the server's line, and what the call throws. `left rc` is what the
-- generated code does with a code that the converter leaves alone.
unfoldable pub call : Retcodes → (ℕ → Option Thrown) → Endpoint → Method → Text × Option Thrown
call c left endpoint method =
    let (line, rc) = serve_animal c endpoint method in
    (line, elim (throw_thrown c rc) [ some e ↦ some e | none ↦ left rc ])

-- Whether a `catch` clause for the first exception takes the second.
unfoldable pub catches : Thrown → Thrown → Bool
catches animal_not_supported animal_not_supported = true
catches food_not_suitable food_not_suitable = true
catches _ _ = false

abbrev pub ipc_request_error : Thrown → Text
ipc_request_error e = codes "[Client]: IPC request error: " ++ (what e ++ codes ".")

-- The two loops of `ExampleAnimals`, with the exception that each catches: the lines of the server
-- and of the client, and an exception that leaves the loop.
unfoldable pub call_all :
    Retcodes → (ℕ → Option Thrown) → Thrown → List (Endpoint × Method) → List Text × Option Thrown
call_all c left caught [] = ([], none)
call_all c left caught ((endpoint, method) ∷ calls) =
    let (line, thrown) = call c left endpoint method in
    let (lines, escaped) = call_all c left caught calls in
    elim thrown [
      | none ↦ (line ∷ lines, escaped)
      | some e ↦
          if catches caught e
          then (line ∷ ipc_request_error e ∷ lines, escaped)
          else (line ∷ [], some e)
    ]

abbrev pub talking_animals : List (Endpoint × Method)
talking_animals =
    (lion_animal, say_method)
    ∷ (domestic_animal, say_method)
    ∷ (collie_animal, say_method)
    ∷ (catdog_dog, say_method)
    ∷ (catdog_cat, say_method)
    ∷ (something_animal, say_method)
    ∷ []

abbrev pub eating_animals_and_food : List (Endpoint × Method)
eating_animals_and_food =
    (domestic_animal, eat_method (food_name (codes "fish")))
    ∷ (collie_animal, eat_method (food_index 1))
    ∷ (catdog_cat, eat_method (food_name (codes "stone")))
    ∷ (catdog_dog, eat_method (food_index 5))
    ∷ (something_animal, eat_method (food_name (codes "spaceship")))
    ∷ []

-- `ExampleAnimals`.
unfoldable pub example_animals : Retcodes → (ℕ → Option Thrown) → List Text × Option Thrown
example_animals c left =
    let (said, escaped) = call_all c left animal_not_supported talking_animals in
    let (eaten, escaped') = call_all c left food_not_suitable eating_animals_and_food in
    elim escaped [
      | some e ↦ (codes "[Client]: --------- Say() ---------" ∷ said, some e)
      | none ↦ (
        (codes "[Client]: --------- Say() ---------" ∷ said)
            ++ (codes "[Client]: --------- Eat() ---------" ∷ eaten),
        escaped',
      )
    ]
