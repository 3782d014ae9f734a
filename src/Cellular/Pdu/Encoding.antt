-- ===== src/Cellular/Pdu/Encoding.antt =====
-- What `AsciiToPDU` leaves in a buffer with room for the message.
use kos_ce_extra.Prelude.{
  ℕ, suc, ◌+◌, ◌%◌, ◌≤◌, ltb, false, Option, none, some, List, [], ◌∷◌, ◌++◌, length, All,
  append_assoc, Text, ◌≡◌, refl, ◌∙◌, arith,
}
use kos_ce_extra.Cellular.Memory.{done, push}
use kos_ce_extra.Cellular.Pdu.{drop_plus, digits_field, dest_field, sca_field, push_two, encode}
use kos_ce_extra.Cellular.Pdu.Digits.{IsDigit, semi_octets}
use kos_ce_extra.Cellular.Pdu.Fields.{at, half, text_bytes, digits_field_lem, text_field_lem}
use kos_ce_extra.Cellular.Pdu.Packing.{stream, packed}
use kos_ce_extra.Cellular.Pdu.Unpacking.{IsAscii}

-- A number of at most twelve digits, with or without a leading plus.
abbrev pub IsNumber : Text → Type 0
IsNumber s = All IsDigit (drop_plus s) × (length (drop_plus s) ≤ 12)

abbrev pub IsCentre : Option Text → Type 0
IsCentre none = Unit {0}
IsCentre (some smsc) = IsNumber smsc

-- The fields as bytes.
abbrev pub sca_bytes : Option Text → List ℕ
sca_bytes none = 0 ∷ []
sca_bytes (some smsc) = suc (half (length (drop_plus smsc))) ∷ 0x91 ∷ semi_octets (drop_plus smsc)

abbrev pub dest_bytes : Text → List ℕ
dest_bytes dest = length (drop_plus dest) ∷ 0x91 ∷ semi_octets (drop_plus dest)

abbrev pub sca_len : Option Text → ℕ
sca_len none = 1
sca_len (some smsc) = 2 + half (length (drop_plus smsc))

abbrev pub dest_len : Text → ℕ
dest_len dest = 2 + half (length (drop_plus dest))

-- The bytes that a message needs.
abbrev pub pdu_len : Option Text → Text → Text → ℕ
pdu_len smsc dest text = sca_len smsc + 2 + dest_len dest + 2 + (1 + text_bytes text)

dest_field_lem :
    (dest w rest : List ℕ) (buflen len : ℕ)
    → len + dest_len dest ≤ buflen
    → dest_len dest ≤ length rest
    → IsNumber dest
    → (post : List ℕ) × (length post + dest_len dest ≡ length rest)
      × (dest_field dest buflen len (at w rest)
          ≡ done (at (w ++ dest_bytes dest) post, len + dest_len dest))
unfolding dest_field push
dest_field_lem dest w [] buflen len le room (h, short) = absurd (omega arith)
dest_field_lem dest w (x ∷ rest) buflen len le room (h, short) =
    let number = drop_plus dest in
    let fits : ltb 6 (half (length number)) ≡ false = ground arith in
    let count : length number % 256 ≡ length number = omega arith in
    let (post, l, e) =
      digits_field_lem number (w ++ length number ∷ []) rest buflen (len + dest_len dest) le
        (omega arith) h in
    let start : dest_field dest buflen len (at w (x ∷ rest))
        ≡ digits_field buflen (len + dest_len dest) number (half (length number))
            (at (w ++ length number ∷ []) rest) =
      ground (arith, fits, count) in
    (post, omega arith, start ∙ (simp append_assoc at e))

pub sca_field_lem :
    (smsc : Option Text) (rest : List ℕ) (buflen : ℕ)
    → sca_len smsc ≤ buflen
    → sca_len smsc ≤ length rest
    → IsCentre smsc
    → (post : List ℕ) × (length post + sca_len smsc ≡ length rest)
      × (sca_field smsc buflen (at [] rest) ≡ done (at (sca_bytes smsc) post, sca_len smsc))
unfolding sca_field push
sca_field_lem none [] buflen le room h = absurd (omega arith)
sca_field_lem (some smsc) [] buflen le room h = absurd (omega arith)
sca_field_lem none (x ∷ rest) buflen le room h = (rest, omega arith, refl)
sca_field_lem (some smsc) (x ∷ rest) buflen le room (h, short) =
    let number = drop_plus smsc in
    let fits : ltb 6 (half (length number)) ≡ false = ground arith in
    let count : (1 + half (length number)) % 256 ≡ suc (half (length number)) = omega arith in
    let (post, l, e) =
      digits_field_lem number (suc (half (length number)) ∷ []) rest buflen (sca_len (some smsc)) le
        (omega arith) h in
    let start : sca_field (some smsc) buflen (at [] (x ∷ rest))
        ≡ digits_field buflen (sca_len (some smsc)) number (half (length number))
            (at (suc (half (length number)) ∷ []) rest) =
      ground (arith, fits, count) in
    (post, omega arith, start ∙ e)

push_two_lem :
    (a b : ℕ) (w rest : List ℕ)
    → 2 ≤ length rest
    → (post : List ℕ) × (length post + 2 ≡ length rest)
      × (push_two a b (at w rest) ≡ done (at (w ++ a ∷ b ∷ []) post))
unfolding push_two push
push_two_lem a b w [] h = absurd (omega arith)
push_two_lem a b w (x ∷ []) h = absurd (omega arith)
push_two_lem a b w (x ∷ y ∷ rest) h = (rest, omega arith, simp append_assoc)

-- The whole message.
abbrev pub pdu_bytes : Option Text → Text → Text → List ℕ
pdu_bytes smsc dest text =
    sca_bytes smsc
    ++ 1 ∷ 0 ∷ (dest_bytes dest ++ 0 ∷ 0 ∷ length text ∷ packed (text_bytes text) (stream text))

pub encode_lem :
    (smsc : Option Text) (dest text pdu : List ℕ) (buflen : ℕ)
    → pdu_len smsc dest text ≤ buflen
    → length pdu ≡ buflen
    → IsCentre smsc
    → IsNumber dest
    → length text ≤ 160
    → All IsAscii text
    → (post : List ℕ) × (encode smsc dest text buflen pdu
        ≡ done (pdu_len smsc dest text, pdu_bytes smsc dest text ++ post))
unfolding encode
encode_lem smsc dest text pdu buflen room whole hs hd short ht =
    let (p1, l1, e1) = sca_field_lem smsc pdu buflen (omega arith) (omega arith) hs in
    let (p2, l2, e2) = push_two_lem 1 0 (sca_bytes smsc) p1 (omega arith) in
    let w2 = sca_bytes smsc ++ 1 ∷ 0 ∷ [] in
    let (p3, l3, e3) =
      dest_field_lem dest w2 p2 buflen (sca_len smsc + 2) (omega arith) (omega arith) hd in
    let (p4, l4, e4) = push_two_lem 0 0 (w2 ++ dest_bytes dest) p3 (omega arith) in
    let (p5, l5, e5) =
      text_field_lem text ((w2 ++ dest_bytes dest) ++ 0 ∷ 0 ∷ []) p4 buflen
        (sca_len smsc + 2 + dest_len dest + 2) (omega arith) (omega arith) short ht in
    (p5, rw (e1, e2, e3, e4, e5) (simp append_assoc))
