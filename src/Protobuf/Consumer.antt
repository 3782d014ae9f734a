-- ===== src/Protobuf/Consumer.antt =====
-- The consumer (protobuf/consumer/src/main.cpp): what it logs.
use kos_ce_extra.Prelude.{
  ℕ, Bool, true, false, Option, none, some, List, [], ◌∷◌, ◌++◌, length, Text, codes, ◌==◌,
  if◌then◌else◌,
}
use kos_ce_extra.Prelude.Decimal.{decimal}
use kos_ce_extra.Protobuf.Books.{
  PhoneType, mobile, home, work, other_type, PhoneNumber, Person, AddressBook,
}
use kos_ce_extra.Protobuf.Producer.{info, error, Line}

-- The map `phoneTypes` of the consumer, and what stands for a type that it has not.
unfoldable pub type_label : PhoneType → Text
type_label home = codes "Home"
type_label work = codes "Work"
type_label mobile = codes "Mobile"
type_label (other_type n) = codes "Unknown"

unfoldable pub phone_line : PhoneNumber → Line
phone_line phone =
    (info, codes "  " ++ (type_label phone.phone_type ++ (codes " phone #: " ++ phone.number)))

unfoldable pub phone_lines : List PhoneNumber → List Line
phone_lines [] = []
phone_lines (phone ∷ phones) = phone_line phone ∷ phone_lines phones

unfoldable pub failure : Text → Line
failure what = (error, codes "Error occurred: " ++ what)

-- The libraries: parsing, and `TimeUtil::ToString`.
pub record Reader : Type 0 where
  pub parse : List ℕ → Option AddressBook
  pub show_time : ℕ → Text

module _ (reader : Reader) where
  -- The body of the loop over people.
  unfoldable pub person_lines : Person → List Line
  person_lines person =
      (info, codes "Person ID: " ++ decimal person.id)
      ∷ (info, codes "  Name: " ++ person.name)
      ∷ ((if length person.email == 0
            then []
            else (info, codes "  E-mail address: " ++ person.email) ∷ [])
          ++ (phone_lines person.phones ++ elim person.last_updated [
            | none ↦ []
            | some t ↦ (info, codes "  Updated: " ++ reader.show_time t) ∷ []
          ]))

  -- `PrintAddressBook`.
  unfoldable pub print_address_book : AddressBook → List Line
  print_address_book [] = []
  print_address_book (person ∷ people) = person_lines person ++ print_address_book people

  -- `MsgConsumer::Consume`.
  unfoldable pub consume : List ℕ → List Line
  consume message = elim (reader.parse message) [
    | none ↦ (error, codes "Failed to parse address book.") ∷ []
    | some book ↦ print_address_book book
  ]

  -- The event loop over these requests.
  unfoldable pub serve : List (List ℕ) → List Line
  serve [] = []
  serve (message ∷ messages) = consume message ++ serve messages

  -- `main`: `refused` is an exception before the event loop runs, `ending` one that ends it.
  unfoldable pub consumer_main : Option Text → List (List ℕ) → Option Text → Bool × List Line
  consumer_main refused messages ending =
      let started : Line = (info, codes "Started") in
      elim refused [
        | some what ↦ (false, started ∷ failure what ∷ [])
        | none ↦ elim ending [
          | none ↦ (true, started ∷ serve messages)
          | some what ↦ (false, started ∷ (serve messages ++ failure what ∷ []))
        ]
      ]
