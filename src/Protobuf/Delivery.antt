-- ===== src/Protobuf/Delivery.antt =====
-- From the files of the producer to the log of the consumer.
use kos_ce_extra.Prelude.{
  ℕ, Bool, true, false, not, ◌&&◌, Option, none, some, List, [], ◌∷◌, ◌++◌, append_assoc,
  append-nil, length, Text, ltb, leb, ◌==◌, Bool-cases, Option-cases, if◌then◌else◌, ◌≡◌, refl, sym,
  ap, ◌∙◌, ◌⊎◌, inl, inr, arith,
}
use kos_ce_extra.Protobuf.Books.{Try, returned, thrown, AddressBook, read_address_book}
use kos_ce_extra.Protobuf.Producer.{
  Line, Host, Production, max_message_size, log_line, send_book, produce_file, produce_files,
  finish, produce, started, producer_main,
}
use kos_ce_extra.Protobuf.Consumer.{Reader, print_address_book, consume, serve}
use kos_ce_extra.Protobuf.Producer.Files.{books_of}

Try-cases :
    {A : Type 0} (m : Try A) → ((a : A) × (m ≡ returned a)) ⊎ ((what : Text) × (m ≡ thrown what))
Try-cases (returned a) = inl (a, refl)
Try-cases (thrown what) = inr (what, refl)

finish-true :
    {S : Type 0} (r : Option Text × Production S)
    → (finish r).0 ≡ true
    → (r.0 ≡ none) × ((finish r).1 ≡ r.1)
unfolding finish
finish-true (none, p) e = (refl, refl)
finish-true (some what, p) e = cc

module _ {J S : Type 0} (host : Host J S) where
  -- A book whose message is not empty and not too big.
  abbrev pub fits : AddressBook → Bool
  fits book = elim (host.serialize book) [
    | none ↦ false
    | some message ↦ not (length message == 0) && leb (length message) max_message_size
  ]

  module _ (reader : Reader) where
    -- What the consumer logs of a book if it is sent.
    abbrev pub book_log : AddressBook → List Line
    book_log book = if fits book then print_address_book reader book else []

    abbrev pub books_log : List AddressBook → List Line
    books_log [] = []
    books_log (book ∷ books) = book_log book ++ books_log books

  module _ (reader : Reader)
      (parse_serialize : (book : AddressBook) (message : List ℕ)
        → host.serialize book ≡ some message
        → reader.parse message ≡ some book) where
    serve-append :
        (xs ys : List (List ℕ)) → serve reader (xs ++ ys) ≡ serve reader xs ++ serve reader ys
    unfolding serve
    serve-append [] ys = refl
    serve-append (x ∷ xs) ys =
        ap (λ l. consume reader x ++ l) (serve-append xs ys)
        ∙ sym (append_assoc (consume reader x) (serve reader xs) (serve reader ys))

    serve-snoc :
        (book : AddressBook) (message : List ℕ) (xs : List (List ℕ))
        → host.serialize book ≡ some message
        → serve reader (xs ++ message ∷ []) ≡ serve reader xs ++ print_address_book reader book
    unfolding serve consume
    serve-snoc book message xs e =
        let one : consume reader message ≡ print_address_book reader book =
          rw (consume, parse_serialize book message e) refl in
        rw (serve-append xs (message ∷ []), one, append-nil (print_address_book reader book)) refl

    send_book-serve :
        (name : Text) (book : AddressBook) (p : Production S)
        → serve reader (send_book host name book p).1.sent
          ≡ serve reader p.sent ++ book_log reader book
    unfolding send_book log_line
    send_book-serve name book p = elim (Option-cases (host.serialize book)) [
      | inl e ↦
          let unfit : fits book ≡ false = rw (fits, e) refl in
          rw (send_book, e, unfit) (sym (append-nil (serve reader p.sent)))
      | inr (message, e) ↦ elim (Bool-cases (length message == 0)) [
        | inl empty ↦
            let unfit : fits book ≡ false = rw (fits, e, empty) refl in
            rw (send_book, e, empty, unfit) (sym (append-nil (serve reader p.sent)))
        | inr some_size ↦ elim (Bool-cases (ltb max_message_size (length message))) [
          | inl big ↦
              let over : leb (length message) max_message_size ≡ false = ground arith in
              let unfit : fits book ≡ false = rw (fits, e, some_size, over) refl in
              rw (send_book, e, some_size, big, unfit) (sym (append-nil (serve reader p.sent)))
          | inr small ↦
              let within : leb (length message) max_message_size ≡ true = ground arith in
              let fit : fits book ≡ true = rw (fits, e, some_size, within) refl in
              rw (send_book, e, some_size, small, fit) (serve-snoc book message p.sent e)
        ]
      ]
    ]

    send_book-next_id :
        (name : Text) (book : AddressBook) (p : Production S)
        → (send_book host name book p).1.next_id ≡ p.next_id
    unfolding send_book log_line
    send_book-next_id name book p = ground arith

    produce_file-serve :
        (name : Text) (names : List Text) (p : Production S)
        → (produce_file host name p).0 ≡ none
        → serve reader (produce_file host name p).1.sent
            ++ books_log reader (books_of host (produce_file host name p).1.next_id names)
          ≡ serve reader p.sent ++ books_log reader (books_of host p.next_id (name ∷ names))
    unfolding produce_file log_line
    produce_file-serve name names p ok = elim (Option-cases (host.file name)) [
      | inl e ↦ rw (produce_file, books_of, e) refl
      | inr (content, e) ↦
          elim (Try-cases (read_address_book host.json host.clock p.next_id content)) [
            | inr (what, t) ↦ cc (rw (produce_file, e, t) at ok)
            | inl ((book, next), t) ↦
                let q = record p { next_id = next } in
                rw
                  (
                    produce_file,
                    books_of,
                    e,
                    t,
                    send_book-next_id name book q,
                    send_book-serve name book q,
                  )
                  (append_assoc (serve reader p.sent) (book_log reader book)
                    (books_log reader (books_of host next names)))
          ]
    ]

    produce_files-serve :
        (names : List Text) (p : Production S)
        → (produce_files host names p).0 ≡ none
        → serve reader (produce_files host names p).1.sent
          ≡ serve reader p.sent ++ books_log reader (books_of host p.next_id names)
    unfolding produce_files
    produce_files-serve [] p ok = sym (append-nil (serve reader p.sent))
    produce_files-serve (name ∷ names) p ok = elim (Option-cases (produce_file host name p).0) [
      | inr (what, e) ↦ cc (rw (produce_files, e) at ok)
      | inl e ↦
          rw (produce_files, e)
            (produce_files-serve names (produce_file host name p).1 (rw (produce_files, e) at ok)
              ∙ produce_file-serve name names p e)
    ]

    produce-serve :
        (names : List Text) (peer : S)
        → (produce host names (started host peer)).0 ≡ none
        → serve reader (produce host names (started host peer)).1.sent
          ≡ books_log reader (books_of host 0 names)
    unfolding produce serve
    produce-serve names peer ok = elim (Option-cases (host.connect peer).0) [
      | inr (what, e) ↦ cc (rw (produce, e) at ok)
      | inl e ↦
          let p' : Production S = record (started host peer) { peer = (host.connect peer).1 } in
          rw (produce, e) (produce_files-serve names p' (rw (produce, e) at ok))
    ]

    -- Where parsing undoes serializing and the producer ends with `EXIT_SUCCESS`, what the consumer
    -- logs of the messages that were sent is what it prints of the books of the files, in order,
    -- without those whose message is empty, too big or missing.
    pub producer_main-serve :
        (args : List Text) (peer : S)
        → (producer_main host args peer).0 ≡ true
        → serve reader (producer_main host args peer).1.sent
          ≡ books_log reader (books_of host 0 args)
    unfolding producer_main
    producer_main-serve [] peer ok = unfold log_line serve in refl
    producer_main-serve (arg ∷ args) peer ok =
        let (returns, same) = finish-true (produce host (arg ∷ args) (started host peer)) ok in
        rw same (produce-serve (arg ∷ args) peer returns)
