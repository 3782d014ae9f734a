-- ===== src/Protobuf/Producer.antt =====
-- `main` of the producer (protobuf/producer/src/main.cpp).
pub mod Sizes
pub mod Files
pub mod Numbering
use kos_ce_extra.Prelude.{
  ℕ, ◌+◌, Bool, true, false, Option, none, some, List, [], ◌∷◌, ◌++◌, length, Text, codes, ltb,
  ◌==◌, if◌then◌else◌,
}
use kos_ce_extra.Protobuf.Books.{Try, returned, thrown, AddressBook, JsonLibrary, read_address_book}

-- The levels of the logger.
pub data Level : Type 0 where
  info warning error : Level

abbrev pub Line : Type 0
Line = Level × Text

-- The JSON library, the protobuf library, the clock, the files by name, and the channel to the
-- consumer. `some what` is an exception.
pub record Host (J S : Type 0) : Type 0 where
  pub json : JsonLibrary J
  pub serialize : AddressBook → Option (List ℕ)
  pub clock : ℕ → ℕ
  pub file : Text → Option Text
  pub connect : S → Option Text × S
  pub consume : List ℕ → S → Option Text × S

-- The counter of ids, what the consumer is in, the messages handed to it, and the log.
pub record Production (S : Type 0) : Type 0 where
  pub next_id : ℕ
  pub peer : S
  pub sent : List (List ℕ)
  pub log : List Line

abbrev pub max_message_size : ℕ
max_message_size = 1024

unfoldable pub log_line : {S : Type 0} → Level → Text → Production S → Production S
log_line level text p = record p { log = p.log ++ (level, text) ∷ [] }

-- The end of `main` behind the `try` block, which may have thrown an exception.
unfoldable pub finish : {S : Type 0} → Option Text × Production S → Bool × Production S
finish (none, p) = (true, p)
finish (some what, p) = (false, log_line error (codes "Error occurred: " ++ what) p)

module _ {J S : Type 0} (host : Host J S) where
  -- What is done with a book.
  unfoldable pub send_book : Text → AddressBook → Production S → Option Text × Production S
  send_book name book p = elim (host.serialize book) [
    | none ↦ (none, log_line error (codes "Failed to serialize address book from file: " ++ name) p)
    | some message ↦
        let (threw, peer) = host.consume message p.peer in
        if length message == 0
        then (
          none,
          log_line warning (codes "Address book from file " ++ (name ++ codes " is empty.")) p,
        )
        else if ltb max_message_size (length message)
        then (
          none,
          log_line warning (codes "Address book from file " ++ (name ++ codes " is too big.")) p,
        )
        else (threw, record p { peer = peer; sent = p.sent ++ message ∷ [] })
  ]

  -- The body of the loop over the arguments.
  unfoldable pub produce_file : Text → Production S → Option Text × Production S
  produce_file name p = elim (host.file name) [
    | none ↦
        (none, log_line warning (codes "Address book file " ++ (name ++ codes " not found.")) p)
    | some content ↦ elim (read_address_book host.json host.clock p.next_id content) [
      | returned read ↦ send_book name read.0 (record p { next_id = read.1 })
      | thrown what ↦ (some what, p)
    ]
  ]

  -- The loop, up to the first exception.
  unfoldable pub produce_files : List Text → Production S → Option Text × Production S
  produce_files [] p = (none, p)
  produce_files (name ∷ names) p =
      let (threw, p') = produce_file name p in
      let rest = produce_files names p' in elim threw [ none ↦ rest | some what ↦ (some what, p') ]

  -- The `try` block.
  unfoldable pub produce : List Text → Production S → Option Text × Production S
  produce names p =
      let (refused, peer) = host.connect p.peer in
      let p' : Production S = record p { peer = peer } in
      let rest = produce_files names p' in
      elim refused [ none ↦ rest | some what ↦ (some what, p') ]

  abbrev pub started : S → Production S
  started peer = record { next_id = 0; peer = peer; sent = []; log = (info, codes "Started") ∷ [] }

  -- Whether `main` ends with `EXIT_SUCCESS`; the arguments are those behind the program's name.
  unfoldable pub producer_main : List Text → S → Bool × Production S
  producer_main [] peer =
      (true, log_line info (codes "No address book file passed - nothing to do.") (started peer))
  producer_main (arg ∷ args) peer = finish (produce (arg ∷ args) (started peer))
