-- ===== src/Cellular/Pdu/Fields.antt =====
-- What each field of a message leaves in the buffer.
use kos_ce_extra.Prelude.{
  ℕ, zero, suc, ◌+◌, ◌*◌, ◌/◌, ◌%◌, ◌<◌, ◌≤◌, ltb, ◌||◌, false, List, [], ◌∷◌, ◌++◌, length,
  replicate, All, length-append, append-nil, append_assoc, All-map, Text, sym, ◌≡◌, refl, ap, arith,
}
use kos_ce_extra.Cellular.Memory.{done, Pointer, advance, advance_by}
use kos_ce_extra.Cellular.Pdu.{digits_field, text_field, clear}
use kos_ce_extra.Cellular.Pdu.Digits.{
  IsDigit, semi_octets, number_to_nibbles_lem, length-semi_octets,
}
use kos_ce_extra.Cellular.Pdu.Packing.{stream, packed, pack_text-put_bits, put_bits-packed}
use kos_ce_extra.Cellular.Pdu.Unpacking.{IsAscii, length-stream, stream-IsBit}

abbrev pub at : List ℕ → List ℕ → Pointer
at written rest = record { written = written; rest = rest }

abbrev pub half : ℕ → ℕ
half n = (n + 1) / 2

abbrev pub text_bytes : Text → ℕ
text_bytes text = (length text * 7 + 7) / 8

-- The first `n` bytes, and those behind them.
split :
    (n : ℕ) (rest : List ℕ)
    → n ≤ length rest
    → (slots : List ℕ) × (post : List ℕ) × (rest ≡ slots ++ post) × (length slots ≡ n)
split zero rest h = ([], rest, refl, refl)
split (suc n) [] h = absurd (omega arith)
split (suc n) (x ∷ rest) h =
    let (slots, post, e, l) = split n rest (omega arith) in
    (x ∷ slots, post, ap (λ (r : List ℕ). x ∷ r) e, ap suc l)

advance_by-append :
    (xs w post : List ℕ) (n : ℕ)
    → n ≡ length xs
    → advance_by n w (xs ++ post) ≡ done (at (w ++ xs) post)
unfolding advance_by
advance_by-append [] w post zero e = rw append-nil
advance_by-append [] w post (suc n) e = absurd (omega arith)
advance_by-append (x ∷ xs) w post zero e = absurd (omega arith)
advance_by-append (x ∷ xs) w post (suc n) e =
    simp append_assoc at (advance_by-append xs (w ++ x ∷ []) post n (omega arith))

clear_lem :
    (slots post : List ℕ) (n : ℕ)
    → n ≡ length slots
    → clear n (slots ++ post) ≡ done (replicate n 0 ++ post)
unfolding clear
clear_lem [] post zero e = refl
clear_lem [] post (suc n) e = absurd (omega arith)
clear_lem (x ∷ slots) post zero e = absurd (omega arith)
clear_lem (x ∷ slots) post (suc n) e = rw (clear_lem slots post n (omega arith))

digits_field_slots :
    (s w slots post : List ℕ) (x buflen len : ℕ)
    → len ≤ buflen
    → length slots ≡ half (length s)
    → All IsDigit s
    → digits_field buflen len s (half (length s)) (at w (x ∷ (slots ++ post)))
      ≡ done (at (w ++ 0x91 ∷ semi_octets s) post, len)
unfolding digits_field advance
digits_field_slots s w slots post x buflen len le e h =
    let room : ltb buflen len ≡ false = ground arith in
    let nibbles = number_to_nibbles_lem s [] slots post 0 refl e h in
    let skip =
      advance_by-append (semi_octets s) (w ++ 0x91 ∷ []) post (half (length s))
        (sym (length-semi_octets s)) in
    rw (room, nibbles, skip, append_assoc)

-- The type and the digits of a number.
pub digits_field_lem :
    (s w rest : List ℕ) (buflen len : ℕ)
    → len ≤ buflen
    → 1 + half (length s) ≤ length rest
    → All IsDigit s
    → (post : List ℕ) × (length post + (1 + half (length s)) ≡ length rest)
      × (digits_field buflen len s (half (length s)) (at w rest)
          ≡ done (at (w ++ 0x91 ∷ semi_octets s) post, len))
digits_field_lem s w [] buflen len le room h = absurd (omega arith)
digits_field_lem s w (x ∷ rest) buflen len le room h =
    let (slots, post, e, l) = split (half (length s)) rest (omega arith) in
    (
      post,
      omega (arith, ap length e, length-append {0} slots post),
      rw e (digits_field_slots s w slots post x buflen len le l h),
    )

text_field_slots :
    (text w slots post : List ℕ) (x buflen len : ℕ)
    → len + text_bytes text + 1 ≤ buflen
    → length slots ≡ text_bytes text
    → length text ≤ 160
    → All IsAscii text
    → text_field text buflen len (at w (x ∷ (slots ++ post)))
      ≡ done (
        record {
          written = w ++ length text ∷ [];
          rest = packed (text_bytes text) (stream text) ++ post;
        },
        len + (1 + text_bytes text),
      )
unfolding text_field
text_field_slots text w slots post x buflen len le e short h =
    let room : (ltb buflen (len + text_bytes text + 1) || ltb 160 (length text)) ≡ false =
      ground arith in
    let count : length text % 256 ≡ length text = omega arith in
    let bytes = All-map IsAscii (λ c. c < 256) text (λ c k. omega arith) h in
    let packing =
      put_bits-packed (text_bytes text) (stream text) [] post 0 refl
        (omega (arith, length-stream text)) (stream-IsBit text) in
    rw (
      room,
      clear_lem slots post (text_bytes text) (sym e),
      pack_text-put_bits text 0 _ bytes,
      packing,
      count,
    )

-- The number of characters and their bits.
pub text_field_lem :
    (text w rest : List ℕ) (buflen len : ℕ)
    → len + text_bytes text + 1 ≤ buflen
    → 1 + text_bytes text ≤ length rest
    → length text ≤ 160
    → All IsAscii text
    → (post : List ℕ) × (length post + (1 + text_bytes text) ≡ length rest)
      × (text_field text buflen len (at w rest)
          ≡ done (
            record {
              written = w ++ length text ∷ [];
              rest = packed (text_bytes text) (stream text) ++ post;
            },
            len + (1 + text_bytes text),
          ))
text_field_lem text w [] buflen len le room short h = absurd (omega arith)
text_field_lem text w (x ∷ rest) buflen len le room short h =
    let (slots, post, e, l) = split (text_bytes text) rest (omega arith) in
    (
      post,
      omega (arith, ap length e, length-append {0} slots post),
      rw e (text_field_slots text w slots post x buflen len le l short h),
    )
