-- ===== src/Nkpp/Client/Meals.antt =====
-- What the client sees of a meal, and of a whole list of them.
use kos_ce_extra.Prelude.{
  ℕ, Bool, true, false, Option, none, some, List, [], ◌∷◌, Text, codes, text_eq_iff, if◌then◌else◌,
  Bool-cases, ◌⊎◌, inl, inr, ◌↔◌, ◌≢◌, ◌≡◌, refl, arith,
}
use kos_ce_extra.Nkpp.Protocol.{
  Thrown, food_not_suitable, Retcodes, throw_thrown, catch_thrown, Food, get_food_str,
}
use kos_ce_extra.Nkpp.Server.{
  Animal, cat, dog, something, cat_dog, Outcome, is_eatable, eat_certain, eat, Endpoint, root,
  eat_method, Method, perform, serve_animal,
}
use kos_ce_extra.Nkpp.Client.{call, ipc_request_error}

-- The food that an animal likes.
abbrev CatLikes : Text → Type 0
CatLikes food = (food ≡ codes "fish") ⊎ (food ≡ codes "milk")

abbrev DogLikes : Text → Type 0
DogLikes food = (food ≡ codes "meat") ⊎ (food ≡ codes "milk")

abbrev pub Likes : Animal → Text → Type 0
Likes (cat label name) food = CatLikes food
Likes (dog label name) food = DogLikes food
Likes (cat_dog label name true) food = DogLikes food
Likes (cat_dog label name false) food = CatLikes food
Likes (something label name) food = Unit {0}

-- The three codes of the converter are apart from each other and from `rcOk`.
pub record IsDistinct (c : Retcodes) : Type 0 where
  pub animal_fails : c.animal ≢ 0
  pub food_fails : c.food ≢ 0
  pub apart : c.animal ≢ c.food

is_eatable_iff :
    (food x y : Text) → (is_eatable food (x ∷ y ∷ []) ≡ true) ↔ ((food ≡ x) ⊎ (food ≡ y))
unfolding is_eatable
is_eatable_iff food x y = (
  λ h. ground (arith, text_eq_iff x food, text_eq_iff y food),
  λ h. ground (arith, text_eq_iff x food, text_eq_iff y food),
)

-- Whether an animal eats.
abbrev pub eats : Outcome → Bool
eats o = elim o.thrown [ none ↦ true | some e ↦ false ]

-- The only exception of a meal.
abbrev OnlyRefuses : Outcome → Type 0
OnlyRefuses o = o.thrown ≡ (if eats o then none else some food_not_suitable)

certain_thrown :
    (l : List Text) (label name food : Text) → OnlyRefuses (eat_certain l label name food)
unfolding eat_certain
certain_thrown l label name food = ground arith

certain_eats :
    (l : List Text) (label name food : Text)
    → eats (eat_certain l label name food) ≡ is_eatable food l
unfolding eat_certain
certain_eats l label name food = ground arith

eat_thrown : (food : Food) (a : Animal) → OnlyRefuses (eat food a)
unfolding eat
eat_thrown food (cat label name) = certain_thrown _ label name _
eat_thrown food (dog label name) = certain_thrown _ label name _
eat_thrown food (cat_dog label name is_dog) = certain_thrown _ label name _
eat_thrown food (something label name) = refl

certain_iff :
    (x y label name food : Text)
    → (eats (eat_certain (x ∷ y ∷ []) label name food) ≡ true) ↔ ((food ≡ x) ⊎ (food ≡ y))
certain_iff x y label name food =
    rw (certain_eats (x ∷ y ∷ []) label name food) (is_eatable_iff food x y)

eats_iff : (food : Food) (a : Animal) → (eats (eat food a) ≡ true) ↔ Likes a (get_food_str food)
unfolding eat
eats_iff food (cat label name) = certain_iff _ _ label name (get_food_str food)
eats_iff food (dog label name) = certain_iff _ _ label name (get_food_str food)
eats_iff food (cat_dog label name true) = certain_iff _ _ label name (get_food_str food)
eats_iff food (cat_dog label name false) = certain_iff _ _ label name (get_food_str food)
eats_iff food (something label name) = (λ h. tt, λ h. refl)

-- What a meal adds to the log: the server's line, and the client's where the food is refused.
abbrev pub meal_lines : Endpoint × Food → List Text
meal_lines (e, food) =
    (eat food (root e)).line
    ∷ (if eats (eat food (root e)) then [] else ipc_request_error food_not_suitable ∷ [])

abbrev pub meal : Endpoint × Food → Endpoint × Method
meal (e, food) = (e, eat_method food)

module _ (c : Retcodes) (distinct : IsDistinct c) (left : ℕ → Option Thrown)
    (returns : left 0 ≡ none) where
  call_meal :
      (e : Endpoint) (food : Food)
      → call c left e (eat_method food) ≡ (
        (eat food (root e)).line,
        if eats (eat food (root e)) then none else some food_not_suitable,
      )
  unfolding call serve_animal perform throw_thrown catch_thrown
  call_meal e food = ground (
    arith,
    eat_thrown food (root e),
    distinct.food_fails,
    distinct.animal_fails,
    distinct.apart,
    returns,
  )

  -- Through the converter on both sides, a meal returns to the client exactly where the animal
  -- behind the endpoint likes the food, and throws `FoodNotSuitable` exactly where it does not.
  meal_iff :
      (e : Endpoint) (food : Food)
      → (((call c left e (eat_method food)).1 ≡ none) ↔ Likes (root e) (get_food_str food))
        × (((call c left e (eat_method food)).1 ≡ some food_not_suitable)
            ↔ (¬ Likes (root e) (get_food_str food)))
  meal_iff e food =
      let likes = eats_iff food (root e) in
      rw (call_meal e food) (
        (λ h. likes.0 (ground arith), λ h. rw (likes.1 h)),
        (
          λ h l. ground (arith, likes.1 l),
          λ h. elim (Bool-cases (eats (eat food (root e)))) [
            | inl fed ↦ absurd (h (likes.0 fed))
            | inr hungry ↦ rw hungry
          ],
        ),
      )
