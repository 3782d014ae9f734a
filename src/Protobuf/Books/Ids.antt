-- ===== src/Protobuf/Books/Ids.antt =====
-- The ids of the people of a book.
use kos_ce_extra.Prelude.{
  ℕ, zero, suc, ◌+◌, List, [], ◌∷◌, length, map, ◌≡◌, refl, arith, Text, codes, if◌then◌else◌,
}
use kos_ce_extra.Protobuf.Books.{
  Try, returned, thrown, ◌>>=◌, Person, AddressBook, JsonLibrary, read_phones, read_person,
  read_people, read_address_book,
}

-- The numbers from `n` on.
abbrev pub numbers_from : ℕ → ℕ → List ℕ
numbers_from n zero = []
numbers_from n (suc k) = n ∷ numbers_from (n + 1) k

-- What is returned, if anything, has a property.
abbrev pub Returns : {A : Type 0} → (A → Type 0) → Try A → Type 0
Returns P (returned a) = P a
Returns P (thrown what) = Unit {0}

Returns->>= :
    {A B : Type 0} (P : A → Type 0) (Q : B → Type 0) (m : Try A) (k : A → Try B)
    → Returns P m
    → ((a : A) → P a → Returns Q (k a))
    → Returns Q (m >>= k)
Returns->>= P Q (returned a) k h step = step a h
Returns->>= P Q (thrown what) k h step = h

Returns-then :
    {A B : Type 0} (Q : B → Type 0) (m : Try A) (k : A → Try B)
    → ((a : A) → Returns Q (k a))
    → Returns Q (m >>= k)
Returns-then Q (returned a) k step = step a
Returns-then Q (thrown what) k step = tt

-- The ids of the people of a book.
abbrev pub ids : AddressBook → List ℕ
ids = map (λ (p : Person). p.id)

module _ {J : Type 0} (json : JsonLibrary J) (clock : ℕ → ℕ) where
  -- The person read has the id that was next.
  read_person-id : (id : ℕ) (info : J) → Returns (λ p. p.id ≡ id) (read_person json clock id info)
  unfolding read_person
  read_person-id id info =
      let has = λ (p : Person). p.id ≡ id in
      Returns-then has (json.value (codes "name") info) _ (λ name.
        Returns-then has (json.value (codes "email") info) _ (λ email.
          Returns-then has
            (if json.contains (codes "phones") info
              then (json.items (codes "phones") info >>= read_phones json)
              else returned [])
            _ (λ phones. refl)))

  -- The people have the ids from the next one on, and the one behind them is next.
  abbrev pub HasIds : ℕ → AddressBook × ℕ → Type 0
  HasIds id (people, next) =
      (ids people ≡ numbers_from id (length people)) × (next ≡ id + length people)

  read_people-HasIds :
      (id : ℕ) (infos : List J) → Returns (HasIds id) (read_people json clock id infos)
  unfolding read_people
  read_people-HasIds id [] = (refl, omega arith)
  read_people-HasIds id (info ∷ infos) =
      Returns->>= (λ p. p.id ≡ id) (HasIds id) (read_person json clock id info) _
        (read_person-id id info)
        (λ p e.
          Returns->>= (HasIds (id + 1)) (HasIds id) (read_people json clock (id + 1) infos) _
            (read_people-HasIds (id + 1) infos)
            (λ (people, next) (same, after). (rw (e, same) refl, omega arith)))

  pub read_address_book-HasIds :
      (id : ℕ) (file : Text) → Returns (HasIds id) (read_address_book json clock id file)
  unfolding read_address_book
  read_address_book-HasIds id file = Returns-then (HasIds id) (json.parse_json file) _ (λ content.
      Returns-then (HasIds id) (json.items (codes "addressBook") content) _
        (λ infos. read_people-HasIds id infos))
