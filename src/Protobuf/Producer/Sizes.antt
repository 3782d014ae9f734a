-- ===== src/Protobuf/Producer/Sizes.antt =====
-- The sizes of the messages that are sent.
use kos_ce_extra.Prelude.{
  ℕ, ◌<◌, ◌≤◌, Option, none, some, List, [], ◌∷◌, length, Text, ltb, ◌==◌, Bool-cases, Option-cases,
  inl, inr, All, All-append, arith,
}
use kos_ce_extra.Protobuf.Books.{Try, returned, thrown, AddressBook, read_address_book}
use kos_ce_extra.Protobuf.Producer.{
  Host, Production, max_message_size, log_line, send_book, produce_file, produce_files, finish,
  produce, started, producer_main,
}

-- A message that the channel takes.
abbrev pub IsMessage : List ℕ → Type 0
IsMessage message = (0 < length message) × (length message ≤ max_message_size)

abbrev pub SendsMessages : {S : Type 0} → Production S → Type 0
SendsMessages p = All IsMessage p.sent

module _ {J S : Type 0} (host : Host J S) where
  send_book-SendsMessages :
      (name : Text) (book : AddressBook) (p : Production S)
      → SendsMessages p
      → SendsMessages (send_book host name book p).1
  unfolding send_book log_line
  send_book-SendsMessages name book p h = elim (Option-cases (host.serialize book)) [
    | inl e ↦ rw (send_book, e) h
    | inr (message, e) ↦ elim (Bool-cases (length message == 0)) [
      | inl empty ↦ rw (send_book, e, empty) h
      | inr some_size ↦ elim (Bool-cases (ltb max_message_size (length message))) [
        | inl big ↦ rw (send_book, e, some_size, big) h
        | inr small ↦
            rw (send_book, e, some_size, small)
              (All-append IsMessage p.sent (message ∷ []) h ((ground arith, ground arith), tt))
      ]
    ]
  ]

  produce_file-SendsMessages :
      (name : Text) (p : Production S)
      → SendsMessages p
      → SendsMessages (produce_file host name p).1
  unfolding produce_file log_line
  produce_file-SendsMessages name p h = elim (Option-cases (host.file name)) [
    | inl e ↦ rw (produce_file, e) h
    | inr (content, e) ↦
        rw (produce_file, e) (with_read (read_address_book host.json host.clock p.next_id content))
  ]
    where
      with_read :
          (m : Try (AddressBook × ℕ))
          → SendsMessages
              (elim m as (λ x. Option Text × Production S) [
                | returned read ↦ send_book host name read.0 (record p { next_id = read.1 })
                | thrown what ↦ (some what, p)
              ]).1
      with_read (returned read) =
          send_book-SendsMessages name read.0 (record p { next_id = read.1 }) h
      with_read (thrown what) = h

  produce_files-SendsMessages :
      (names : List Text) (p : Production S)
      → SendsMessages p
      → SendsMessages (produce_files host names p).1
  unfolding produce_files
  produce_files-SendsMessages [] p h = h
  produce_files-SendsMessages (name ∷ names) p h =
      let h' = produce_file-SendsMessages name p h in
      elim (Option-cases (produce_file host name p).0) [
        | inl e ↦ rw (produce_files, e) (produce_files-SendsMessages names _ h')
        | inr (what, e) ↦ rw (produce_files, e) h'
      ]

  produce-SendsMessages :
      (names : List Text) (p : Production S)
      → SendsMessages p
      → SendsMessages (produce host names p).1
  unfolding produce
  produce-SendsMessages names p h = elim (Option-cases (host.connect p.peer).0) [
    | inl e ↦ rw (produce, e) (produce_files-SendsMessages names _ h)
    | inr (what, e) ↦ rw (produce, e) h
  ]

  finish-SendsMessages :
      (r : Option Text × Production S) → SendsMessages r.1 → SendsMessages (finish r).1
  unfolding finish log_line
  finish-SendsMessages (none, p) h = h
  finish-SendsMessages (some what, p) h = h

  -- Every message that the producer sends is one that the channel takes: it is not empty and has at
  -- most 1024 bytes, whatever the files hold and however `main` ends.
  pub producer_main-SendsMessages :
      (args : List Text) (peer : S) → SendsMessages (producer_main host args peer).1
  unfolding producer_main log_line
  producer_main-SendsMessages [] peer = tt
  producer_main-SendsMessages (arg ∷ args) peer =
      finish-SendsMessages _ (produce-SendsMessages (arg ∷ args) (started host peer) tt)
