-- ===== src/Hasher/Tests.antt =====
-- A checksum in the place of BoringSSL, and the theorem at a concrete input.
use kos_ce_extra.Prelude.{
  ℕ, ◌+◌, ◌%◌, some, List, [], ◌∷◌, ◌++◌, Text, codes, text_eq, ◌≡◌, refl, arith,
}
use kos_ce_extra.Hasher.Digest.{
  Library, show_bytes, hex_digit, show_parts, error_line, digest_lines, make_digest,
  print_message_digest,
}
use kos_ce_extra.Hasher.Digest.Printing.{read_bytes, message, feed, print_message_digest_lem}

abbrev total : List ℕ → ℕ
total [] = 0
total (x ∷ xs) = x + total xs

abbrev checksum : Library ℕ
checksum = record {
  known = λ name. text_eq name (codes "sum");
  new_context = 0;
  digest_init = λ name c. some 0;
  digest_update = λ bytes c. c + total bytes;
  digest_final = λ c. c % 256 ∷ [];
}

total-append : (xs ys : List ℕ) → total (xs ++ ys) ≡ total xs + total ys
total-append [] ys = omega arith
total-append (x ∷ xs) ys = omega (arith, total-append xs ys)

feed-total : (pieces : List Text) (c : ℕ) → feed checksum pieces c ≡ c + total (message pieces)
feed-total [] c = omega arith
feed-total (piece ∷ pieces) c =
    omega (arith, feed-total pieces (c + total piece), total-append piece (message pieces))

abbrev sum_of : Text → Text → List ℕ
sum_of name text = total text % 256 ∷ []

sum_streams :
    (name : Text) (c : ℕ) (pieces : List Text)
    → some 0 ≡ some c
    → feed checksum pieces c % 256 ∷ [] ≡ sum_of name (message pieces)
sum_streams name c pieces e =
    let zero_context : 0 ≡ c = ground arith in
    let same : feed checksum pieces c ≡ total (message pieces) =
      omega (arith, feed-total pieces c) in
    rw same refl

show_bytes-pair : show_bytes (10 ∷ 255 ∷ []) ≡ codes "0aff"
unfolding show_bytes hex_digit
show_bytes-pair = refl

unknown_digest :
    print_message_digest checksum (codes "md") (codes "Test" ∷ [])
    ≡ error_line (codes "Error occurred :Unknown message digestmd")
unfolding print_message_digest make_digest text_eq
unknown_digest = refl

print_message_digest_lem_example :
    (text : Text) × (print_message_digest checksum
        (codes "sum")
        (codes "Test" ∷ [] ∷ codes "Message" ∷ [])
      ≡ digest_lines
          (codes "Message parts: " ++ show_parts (codes "Test" ∷ [] ∷ codes "Message" ∷ []))
          (codes "Message digest obtain with "
            ++ (codes "sum" ++ (codes " algorithm is: " ++ text))))
    × (read_bytes text ≡ sum_of (codes "sum") (codes "TestMessage"))
unfolding text_eq
print_message_digest_lem_example =
    print_message_digest_lem checksum sum_of (λ name text. (omega arith, tt)) sum_streams
      (codes "sum") (codes "Test" ∷ [] ∷ codes "Message" ∷ []) 0 refl refl
