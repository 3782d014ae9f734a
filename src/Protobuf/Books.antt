-- ===== src/Protobuf/Books.antt =====
-- `ReadAddressBook` (protobuf/producer/src/main.cpp) over the JSON library, and the messages of
-- addressbook.proto.
pub mod Ids
use kos_ce_extra.Prelude.{
  ℕ, ◌+◌, Bool, Option, some, List, [], ◌∷◌, Text, codes, text_eq, if◌then◌else◌,
}

-- A computation that may throw an exception; what it throws is what `what()` says.
pub data Try (A : Type 0) : Type 0 where
  returned : A → Try A
  thrown : Text → Try A

infixr 20 ◌>>=◌
abbrev pub ◌>>=◌ : {A B : Type 0} → Try A → (A → Try B) → Try B
returned a >>= k = k a
thrown what >>= k = thrown what

-- `Person.PhoneType`, where a message may hold any number.
pub data PhoneType : Type 0 where
  mobile home work : PhoneType
  other_type : ℕ → PhoneType

pub record PhoneNumber : Type 0 where
  pub number : Text
  pub phone_type : PhoneType

-- The field `id` is an `int32` and the producer's counter an `int`: the model is that of the program
-- as long as no more than `2 ^ 31` people are read, and for ids that are not negative. A book whose person has no `last_updated` has `none`.
pub record Person : Type 0 where
  pub id : ℕ
  pub name : Text
  pub email : Text
  pub phones : List PhoneNumber
  pub last_updated : Option ℕ

abbrev pub AddressBook : Type 0
AddressBook = List Person

-- nlohmann's JSON: `>>`, the elements of a member, `value` with the default `""`, and `contains`.
pub record JsonLibrary (J : Type 0) : Type 0 where
  pub parse_json : Text → Try J
  pub items : Text → J → Try (List J)
  pub value : Text → J → Try Text
  pub contains : Text → J → Bool

-- The map `phoneTypes` of the producer, and the type that stands for any other name.
unfoldable pub phone_type_of : Text → PhoneType
phone_type_of t =
    if text_eq t (codes "Home") then home else if text_eq t (codes "Work") then work else mobile

module _ {J : Type 0} (json : JsonLibrary J) where
  unfoldable pub read_phone : J → Try PhoneNumber
  read_phone info = json.value (codes "number") info >>= λ number.
      json.value (codes "type") info >>= λ t.
      returned (record { number = number; phone_type = phone_type_of t })

  unfoldable pub read_phones : List J → Try (List PhoneNumber)
  read_phones [] = returned []
  read_phones (info ∷ infos) =
      let rest = read_phones infos in
      read_phone info >>= λ phone. rest >>= λ phones. returned (phone ∷ phones)

  -- The body of the loop over people: `clock id` is the time at which the person with this id is read.
  unfoldable pub read_person : (ℕ → ℕ) → ℕ → J → Try Person
  read_person clock id info = json.value (codes "name") info >>= λ name.
      json.value (codes "email") info >>= λ email.
      (if json.contains (codes "phones") info
        then (json.items (codes "phones") info >>= read_phones)
        else returned [])
      >>= λ phones. returned (record {
        id = id;
        name = name;
        email = email;
        phones = phones;
        last_updated = some (clock id);
      })

  -- The loop, with the static counter of ids as it finds it and leaves it.
  unfoldable pub read_people : (ℕ → ℕ) → ℕ → List J → Try (AddressBook × ℕ)
  read_people clock id [] = returned ([], id)
  read_people clock id (info ∷ infos) =
      let rest = read_people clock (id + 1) infos in
      read_person clock id info >>= λ person.
      rest >>= λ (people, next). returned (person ∷ people, next)

  unfoldable pub read_address_book : (ℕ → ℕ) → ℕ → Text → Try (AddressBook × ℕ)
  read_address_book clock id file = json.parse_json file >>= λ content.
      json.items (codes "addressBook") content >>= read_people clock id
