-- ===== src/Hasher/Digest/Printing.antt =====
-- What the printed text is a digest of.
use kos_ce_extra.Prelude.{
  ℕ, ◌+◌, ◌-◌, ◌*◌, ◌/◌, ◌%◌, ◌<◌, true, some, List, [], ◌∷◌, ◌++◌, All, Text, codes, ltb,
  replicate, if◌then◌else◌, ◌≡◌, refl, ap, ◌∙◌, arith,
}
use kos_ce_extra.Hasher.Digest.{
  max_md_size, hex_digit, show_bytes, show_parts, digest_lines, Library, Digest, make_digest,
  update, shift, shift_all, get, print_message_digest,
}

-- A reader of hex text.
abbrev pub read_digit : ℕ → ℕ
read_digit d = if ltb d b'a' then d - b'0' else d - b'a' + 10

abbrev pub read_bytes : Text → List ℕ
read_bytes [] = []
read_bytes (high ∷ []) = []
read_bytes (high ∷ low ∷ text) = (read_digit high * 16 + read_digit low) ∷ read_bytes text

abbrev pub IsByte : ℕ → Type 0
IsByte v = v < 256

digit_lem : (d : ℕ) → d < 16 → read_digit (hex_digit d) ≡ d
unfolding hex_digit
digit_lem d h = ground arith

byte_lem :
    (v : ℕ) → v < 256 → read_digit (hex_digit (v / 16)) * 16 + read_digit (hex_digit (v % 16)) ≡ v
byte_lem v h = omega (arith, digit_lem (v / 16) (omega arith), digit_lem (v % 16) (omega arith))

read_bytes-show_bytes : (vect : List ℕ) → All IsByte vect → read_bytes (show_bytes vect) ≡ vect
unfolding show_bytes
read_bytes-show_bytes [] h = refl
read_bytes-show_bytes (v ∷ vect) (h, hs) = rw (byte_lem v h, read_bytes-show_bytes vect hs) refl

-- A message from its parts.
abbrev pub message : List Text → Text
message [] = []
message (part ∷ parts) = part ++ message parts

-- The parts that reach the library.
abbrev fed : List Text → List Text
fed [] = []
fed ([] ∷ parts) = fed parts
fed ((x ∷ part) ∷ parts) = (x ∷ part) ∷ fed parts

message-fed : (parts : List Text) → message (fed parts) ≡ message parts
message-fed [] = refl
message-fed ([] ∷ parts) = message-fed parts
message-fed ((x ∷ part) ∷ parts) = ap (λ (s : Text). (x ∷ part) ++ s) (message-fed parts)

module _ {C : Type 0} (lib : Library C) where
  abbrev pub feed : List Text → C → C
  feed [] c = c
  feed (part ∷ parts) c = feed parts (lib.digest_update part c)

  shift_all-feed :
      (parts : List Text) (d : Digest C) (c : C)
      → d.context ≡ some c
      → shift_all lib parts d ≡ record d { context = some (feed (fed parts) c) }
  unfolding shift_all shift update
  shift_all-feed [] d c e = ap (λ o. record d { context = o }) e
  shift_all-feed ([] ∷ parts) d c e = shift_all-feed parts d c e
  shift_all-feed ((x ∷ part) ∷ parts) d c e =
      let next = lib.digest_update (x ∷ part) c in
      ap (shift_all lib parts) (rw (shift, e, update, e) refl)
      ∙ shift_all-feed parts (record d { context = some next }) next refl

  module _ (hash : Text → Text → List ℕ) (bytes : (name text : Text) → All IsByte (hash name text))
      (streams : (name : Text) (c : C) (pieces : List Text)
        → lib.digest_init name lib.new_context ≡ some c
        → lib.digest_final (feed pieces c) ≡ hash name (message pieces)) where
    -- Where the library knows the algorithm, `PrintMessageDigest` prints the parts and, in hex, the
    -- hash of the whole message: a reader of the hex text gets the bytes of the hash. The library
    -- gives the hash of all that it is fed piece by piece.
    pub print_message_digest_lem :
        (algorithm : Text) (parts : List Text) (c : C)
        → lib.known algorithm ≡ true
        → lib.digest_init algorithm lib.new_context ≡ some c
        → (text : Text) × (print_message_digest lib algorithm parts
            ≡ digest_lines (codes "Message parts: " ++ show_parts parts) (
                codes "Message digest obtain with "
                ++ (algorithm ++ (codes " algorithm is: " ++ text))))
          × (read_bytes text ≡ hash algorithm (message parts))
    unfolding print_message_digest make_digest get
    print_message_digest_lem algorithm parts c known e =
        let fresh : Digest C = record {
          name = algorithm;
          context = some c;
          value = replicate max_md_size 0;
        } in
        let result = hash algorithm (message parts) in
        let fed_all = shift_all-feed parts fresh c refl in
        let whole : lib.digest_final (feed (fed parts) c) ≡ result =
          streams algorithm c (fed parts) e ∙ ap (hash algorithm) (message-fed parts) in
        (
          show_bytes result,
          rw (print_message_digest, make_digest, known, e, fed_all, get, whole) refl,
          read_bytes-show_bytes result (bytes algorithm (message parts)),
        )
