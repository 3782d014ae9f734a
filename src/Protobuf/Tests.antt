-- ===== src/Protobuf/Tests.antt =====
-- A JSON library whose values are texts, an encoding of the books of one person, and the theorems at
-- concrete inputs.
use kos_ce_extra.Prelude.{
  ℕ, zero, suc, ◌==◌, true, false, Option, none, some, List, [], ◌∷◌, length, Text, codes, text_eq,
  if◌then◌else◌, ◌≡◌, refl, ap,
}
use kos_ce_extra.Protobuf.Books.{
  returned, thrown, phone_type_of, PhoneNumber, AddressBook, JsonLibrary, read_person, read_people,
  read_address_book,
}
use kos_ce_extra.Protobuf.Producer.{
  Host, produce_file, produce_files, producer_main, produce, finish, send_book, log_line,
}
use kos_ce_extra.Protobuf.Producer.Sizes.{SendsMessages, producer_main-SendsMessages}
use kos_ce_extra.Protobuf.Consumer.{Reader, serve, type_label}
use kos_ce_extra.Protobuf.Delivery.{books_log, producer_main-serve}
use kos_ce_extra.Prelude.{All, ◌<◌, ◌^◌, arith}
use kos_ce_extra.Protobuf.Producer.Files.{books_of}
use kos_ce_extra.Protobuf.Producer.Numbering.{Increasing, message_ids, producer_main-ids}

abbrev one_json : JsonLibrary Text
one_json = record {
  parse_json = λ t. if length t == 0 then thrown (codes "empty") else returned t;
  items = λ name t. returned (t ∷ []);
  value = λ name t. returned (if text_eq name (codes "name") then t else []);
  contains = λ name t. false;
}

-- Nothing but the id and the name is written.
abbrev encode_fields : Text → List PhoneNumber → Option ℕ → ℕ → Text → Option (List ℕ)
encode_fields [] [] (some zero) id name = some (id ∷ name)
encode_fields _ _ _ id name = none

abbrev encode_book : AddressBook → Option (List ℕ)
encode_book (p ∷ []) = encode_fields p.email p.phones p.last_updated p.id p.name
encode_book _ = none

abbrev decode_book : List ℕ → Option AddressBook
decode_book [] = none
decode_book (id ∷ name) =
    some (record { id = id; name = name; email = []; phones = []; last_updated = some 0 } ∷ [])

decode-fields :
    (email : Text) (phones : List PhoneNumber) (last_updated : Option ℕ) (id : ℕ) (name : Text)
    (message : List ℕ)
    → encode_fields email phones last_updated id name ≡ some message
    → decode_book message
      ≡ some (
          record {
            id = id;
            name = name;
            email = email;
            phones = phones;
            last_updated = last_updated;
          }
          ∷ [])
decode-fields [] [] (some zero) id name message e =
    let same : message ≡ id ∷ name = cc in ap decode_book same
decode-fields [] [] (some (suc n)) id name message e = cc
decode-fields [] [] none id name message e = cc
decode-fields [] (p ∷ ps) t id name message e = cc
decode-fields (c ∷ email) phones t id name message e = cc

decode-encode :
    (book : AddressBook) (message : List ℕ)
    → encode_book book ≡ some message
    → decode_book message ≡ some book
decode-encode [] message e = cc
decode-encode (p ∷ []) message e =
    decode-fields p.email p.phones p.last_updated p.id p.name message e
decode-encode (p ∷ q ∷ ps) message e = cc

abbrev host : Host Text ℕ
host = record {
  json = one_json;
  serialize = encode_book;
  clock = λ id. 0;
  file = λ name. if text_eq name (codes "missing") then none else some name;
  connect = λ s. (none, s);
  consume = λ message s. (none, s);
}

abbrev reader : Reader
reader = record { parse = decode_book; show_time = λ t. codes "today" }

abbrev names : List Text
names = codes "Ann" ∷ codes "missing" ∷ codes "Bob" ∷ []

producer_main-SendsMessages_example : SendsMessages (producer_main host names 0).1
producer_main-SendsMessages_example = producer_main-SendsMessages host names 0

names_ok : (producer_main host names 0).0 ≡ true
unfolding producer_main produce produce_files produce_file send_book finish log_line
    read_address_book read_people read_person text_eq
names_ok = refl

producer_main-serve_example :
    serve reader (producer_main host names 0).1.sent ≡ books_log host reader (books_of host 0 names)
producer_main-serve_example = producer_main-serve host reader decode-encode names 0 names_ok

-- The names of the types are the same on both sides, and any other name is that of a mobile phone.
type_names :
    (type_label (phone_type_of (codes "Home")) ≡ codes "Home")
    × (type_label (phone_type_of (codes "Work")) ≡ codes "Work")
    × (type_label (phone_type_of (codes "Mobile")) ≡ codes "Mobile")
    × (type_label (phone_type_of (codes "Fax")) ≡ codes "Mobile")
unfolding type_label phone_type_of text_eq
type_names = (refl, refl, refl, refl)

few_people : (producer_main host names 0).1.next_id ≡ 2
unfolding producer_main produce produce_files produce_file send_book finish log_line
    read_address_book read_people read_person text_eq
few_people = refl

producer_main-ids_example :
    Increasing (message_ids host decode_book (producer_main host names 0).1.sent)
    × All (λ id. id < 2 ^ 31) (message_ids host decode_book (producer_main host names 0).1.sent)
producer_main-ids_example =
    producer_main-ids host decode_book decode-encode names 0 (omega (arith, few_people))
