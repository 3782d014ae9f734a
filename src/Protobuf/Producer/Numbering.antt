-- ===== src/Protobuf/Producer/Numbering.antt =====
-- The ids of the people in the messages that are sent.
use kos_ce_extra.Prelude.{
  ℕ, zero, suc, ◌+◌, ◌^◌, ◌<◌, ◌≤◌, Option, none, some, List, [], ◌∷◌, ◌++◌, append_assoc,
  append-nil, length, Text, ltb, ◌==◌, Bool-cases, Option-cases, inl, inr, All, All-append, All-map,
  ◌≡◌, sym, ap, ◌∙◌, arith,
}
use kos_ce_extra.Protobuf.Books.{Try, returned, thrown, AddressBook, read_address_book}
use kos_ce_extra.Protobuf.Books.Ids.{numbers_from, ids, Returns, HasIds, read_address_book-HasIds}
use kos_ce_extra.Protobuf.Producer.{
  Host, Production, max_message_size, log_line, send_book, produce_file, produce_files, finish,
  produce, started, producer_main,
}

-- Each number is greater than those before it.
abbrev pub Increasing : List ℕ → Type 0
Increasing [] = Unit
Increasing (x ∷ xs) = All (λ y. x < y) xs × Increasing xs

abbrev Numbered : ℕ → List ℕ → Type 0
Numbered n xs = Increasing xs × All (λ x. x < n) xs

numbers_from-All-gt : (x n k : ℕ) → x < n → All (λ y. x < y) (numbers_from n k)
numbers_from-All-gt x n zero h = tt
numbers_from-All-gt x n (suc k) h = (h, numbers_from-All-gt x (n + 1) k (omega arith))

numbers_from-Numbered : (n k : ℕ) → Numbered (n + k) (numbers_from n k)
numbers_from-Numbered n zero = (tt, tt)
numbers_from-Numbered n (suc k) =
    let (rest, below) = numbers_from-Numbered (n + 1) k in
    (
      (numbers_from-All-gt n (n + 1) k (omega arith), rest),
      (
        omega arith,
        All-map (λ x. x < n + 1 + k) (λ x. x < n + suc k) (numbers_from (n + 1) k)
            (λ x h. omega arith) below,
      ),
    )

Numbered-le : (n m : ℕ) (xs : List ℕ) → n ≤ m → Numbered n xs → Numbered m xs
Numbered-le n m xs le (inc, below) =
    (inc, All-map (λ x. x < n) (λ x. x < m) xs (λ x h. omega arith) below)

Increasing-append : (n k : ℕ) (xs : List ℕ) → Numbered n xs → Increasing (xs ++ numbers_from n k)
Increasing-append n k [] h = (numbers_from-Numbered n k).0
Increasing-append n k (x ∷ xs) ((more, inc), (small, below)) = (
  All-append (λ y. x < y) xs (numbers_from n k) more (numbers_from-All-gt x n k small),
  Increasing-append n k xs (inc, below),
)

Numbered-append :
    (n k : ℕ) (xs : List ℕ) → Numbered n xs → Numbered (n + k) (xs ++ numbers_from n k)
Numbered-append n k xs h = (
  Increasing-append n k xs h,
  All-append (λ x. x < n + k) xs (numbers_from n k) (Numbered-le n (n + k) xs (omega arith) h).1
      (numbers_from-Numbered n k).1,
)

module _ {J S : Type 0} (host : Host J S) (parse : List ℕ → Option AddressBook) where
  abbrev ids_in : Option AddressBook → List ℕ
  ids_in none = []
  ids_in (some book) = ids book

  -- The ids of all the people in the messages, as a receiver parses them.
  abbrev pub message_ids : List (List ℕ) → List ℕ
  message_ids [] = []
  message_ids (message ∷ messages) = ids_in (parse message) ++ message_ids messages

  message_ids-snoc :
      (messages : List (List ℕ)) (message : List ℕ) (book : AddressBook)
      → parse message ≡ some book
      → message_ids (messages ++ message ∷ []) ≡ message_ids messages ++ ids book
  message_ids-snoc [] message book e = rw (message_ids, e) (append-nil (ids book))
  message_ids-snoc (m ∷ messages) message book e =
      ap (λ l. ids_in (parse m) ++ l) (message_ids-snoc messages message book e)
      ∙ sym (append_assoc (ids_in (parse m)) (message_ids messages) (ids book))

  abbrev IsNumbered : Production S → Type 0
  IsNumbered p = Numbered p.next_id (message_ids p.sent)

  module _
      (parse_serialize : (book : AddressBook) (message : List ℕ)
        → host.serialize book ≡ some message
        → parse message ≡ some book) where
    send_book-IsNumbered :
        (name : Text) (book : AddressBook) (p : Production S) (id : ℕ)
        → HasIds host.json host.clock id (book, p.next_id)
        → Numbered id (message_ids p.sent)
        → IsNumbered (send_book host name book p).1
    unfolding send_book log_line
    send_book-IsNumbered name book p id (same, after) h =
        let unsent : IsNumbered p = Numbered-le id p.next_id (message_ids p.sent) (omega arith) h in
        elim (Option-cases (host.serialize book)) [
          | inl e ↦ rw (send_book, e) unsent
          | inr (message, e) ↦ elim (Bool-cases (length message == 0)) [
            | inl empty ↦ rw (send_book, e, empty) unsent
            | inr some_size ↦ elim (Bool-cases (ltb max_message_size (length message))) [
              | inl big ↦ rw (send_book, e, some_size, big) unsent
              | inr small ↦
                  rw
                    (
                      send_book,
                      e,
                      some_size,
                      small,
                      message_ids-snoc p.sent message book (parse_serialize book message e),
                      same,
                      after,
                    )
                    (Numbered-append id (length book) (message_ids p.sent) h)
            ]
          ]
        ]

    produce_file-IsNumbered :
        (name : Text) (p : Production S) → IsNumbered p → IsNumbered (produce_file host name p).1
    unfolding produce_file log_line
    produce_file-IsNumbered name p h = elim (Option-cases (host.file name)) [
      | inl e ↦ rw (produce_file, e) h
      | inr (content, e) ↦
          rw (produce_file, e)
            (with_read (read_address_book host.json host.clock p.next_id content)
              (read_address_book-HasIds host.json host.clock p.next_id content))
    ]
      where
        with_read :
            (m : Try (AddressBook × ℕ))
            → Returns (HasIds host.json host.clock p.next_id) m
            → IsNumbered
                (elim m as (λ x. Option Text × Production S) [
                  | returned read ↦ send_book host name read.0 (record p { next_id = read.1 })
                  | thrown what ↦ (some what, p)
                ]).1
        with_read (returned (book, next)) ok =
            send_book-IsNumbered name book (record p { next_id = next }) p.next_id ok h
        with_read (thrown what) ok = h

    produce_files-IsNumbered :
        (names : List Text) (p : Production S)
        → IsNumbered p
        → IsNumbered (produce_files host names p).1
    unfolding produce_files
    produce_files-IsNumbered [] p h = h
    produce_files-IsNumbered (name ∷ names) p h =
        let h' = produce_file-IsNumbered name p h in
        elim (Option-cases (produce_file host name p).0) [
          | inl e ↦ rw (produce_files, e) (produce_files-IsNumbered names _ h')
          | inr (what, e) ↦ rw (produce_files, e) h'
        ]

    produce-IsNumbered :
        (names : List Text) (p : Production S) → IsNumbered p → IsNumbered (produce host names p).1
    unfolding produce
    produce-IsNumbered names p h = elim (Option-cases (host.connect p.peer).0) [
      | inl e ↦ rw (produce, e) (produce_files-IsNumbered names _ h)
      | inr (what, e) ↦ rw (produce, e) h
    ]

    finish-IsNumbered : (r : Option Text × Production S) → IsNumbered r.1 → IsNumbered (finish r).1
    unfolding finish log_line
    finish-IsNumbered (none, p) h = h
    finish-IsNumbered (some what, p) h = h

    main-IsNumbered : (args : List Text) (peer : S) → IsNumbered (producer_main host args peer).1
    unfolding producer_main log_line
    main-IsNumbered [] peer = (tt, tt)
    main-IsNumbered (arg ∷ args) peer =
        finish-IsNumbered _ (produce-IsNumbered (arg ∷ args) (started host peer) (tt, tt))

    -- However `main` ends, no two people in the messages that it sends have the same id, also not
    -- people of different files: the ids grow from each person to the next. Parsing undoes
    -- serializing, and the counter has not passed `2 ^ 31`; then each id fits an `int32`.
    pub producer_main-ids :
        (args : List Text) (peer : S)
        → (producer_main host args peer).1.next_id ≤ 2 ^ 31
        → Increasing (message_ids (producer_main host args peer).1.sent)
          × All (λ id. id < 2 ^ 31) (message_ids (producer_main host args peer).1.sent)
    producer_main-ids args peer fits =
        Numbered-le _ (2 ^ 31) (message_ids (producer_main host args peer).1.sent) fits
          (main-IsNumbered args peer)
