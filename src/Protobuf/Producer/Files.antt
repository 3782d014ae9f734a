-- ===== src/Protobuf/Producer/Files.antt =====
-- The books of the producer's files.
use kos_ce_extra.Prelude.{ℕ, none, some, List, [], ◌∷◌, Text}
use kos_ce_extra.Protobuf.Books.{Try, returned, thrown, AddressBook, read_address_book}
use kos_ce_extra.Protobuf.Producer.{Host}

-- The book that is read and the later ones.
abbrev pub then_books : (ℕ → List AddressBook) → Try (AddressBook × ℕ) → List AddressBook
then_books later (returned (book, next)) = book ∷ later next
then_books later (thrown what) = []

module _ {J S : Type 0} (host : Host J S) where
  -- The books of the files that there are, up to the first that cannot be read; the first person has
  -- this id.
  abbrev pub books_of : ℕ → List Text → List AddressBook
  books_of id [] = []
  books_of id (name ∷ names) = elim (host.file name) [
    | none ↦ books_of id names
    | some content ↦
        then_books (λ next. books_of next names) (read_address_book host.json host.clock id content)
  ]
