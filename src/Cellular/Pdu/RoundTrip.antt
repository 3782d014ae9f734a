-- ===== src/Cellular/Pdu/RoundTrip.antt =====
-- A message that `AsciiToPDU` makes reads back as what it was made of.
use kos_ce_extra.Prelude.{
  ℕ, zero, suc, ◌≤◌, ltb, false, true, ◌*◌, ◌+◌, ◌/◌, ◌==◌, Option, none, some, List, [], ◌∷◌, ◌++◌,
  length, length-append, take, append-nil, drop, ap, All, append_assoc, Text, sym, ◌≡◌, refl, arith,
}
use mathlib.Core.Option
use mathlib.Core.Path.{subst}
use kos_ce_extra.Cellular.Memory.{done}
use kos_ce_extra.Cellular.Pdu.{drop_plus, ascii_to_pdu}
use kos_ce_extra.Cellular.Pdu.Digits.{
  IsDigit, semi_octets, length-semi_octets, read_digits-semi_octets, read_filled-semi_octets,
}
use kos_ce_extra.Cellular.Pdu.Fields.{half, text_bytes}
use kos_ce_extra.Cellular.Pdu.Packing.{stream, packed}
use kos_ce_extra.Cellular.Pdu.Reading.{read_message, read_submit, read_filled}
use kos_ce_extra.Cellular.Pdu.Unpacking.{IsAscii, length-packed, septets-packed}
use kos_ce_extra.Cellular.Pdu.Encoding.{
  IsNumber, IsCentre, sca_bytes, dest_bytes, sca_len, pdu_len, pdu_bytes, encode_lem,
}

drop-append : (xs ys : List ℕ) (n : ℕ) → n ≡ length xs → drop n (xs ++ ys) ≡ ys
drop-append [] ys zero e = refl
drop-append [] ys (suc n) e = absurd (omega arith)
drop-append (x ∷ xs) ys zero e = absurd (omega arith)
drop-append (x ∷ xs) ys (suc n) e = drop-append xs ys n (omega arith)

read_submit_lem :
    (smsc : Option Text) (dest text post : List ℕ)
    → length post ≡ 0
    → All IsDigit dest
    → All IsAscii text
    → read_submit smsc (
        1
        ∷ 0
        ∷ length dest
        ∷ 0x91
        ∷ (semi_octets dest
            ++ 0 ∷ 0 ∷ length text ∷ (packed (text_bytes text) (stream text) ++ post)))
      ≡ some (record { smsc = smsc; dest = dest; text = text })
unfolding read_submit
read_submit_lem smsc dest text post last hd ht =
    let bytes = packed (text_bytes text) (stream text) ++ post in
    let exact : (length bytes == (length text * 7 + 7) / 8) ≡ true = ground (
      arith,
      length-append {0} (packed (text_bytes text) (stream text)) post,
      length-packed (text_bytes text) (stream text),
    ) in
    let behind = 0 ∷ 0 ∷ length text ∷ (packed (text_bytes text) (stream text) ++ post) in
    rw (
      read_digits-semi_octets dest behind hd,
      drop-append (semi_octets dest) behind (half (length dest)) (sym (length-semi_octets dest)),
      exact,
      septets-packed text (text_bytes text) post (omega arith) ht,
    )

read_message_lem :
    (smsc : Option Text) (dest text post : List ℕ)
    → length post ≡ 0
    → IsCentre smsc
    → All IsDigit (drop_plus dest)
    → All IsAscii text
    → read_message (pdu_bytes smsc dest text ++ post)
      ≡ some (record { smsc = Option.map drop_plus smsc; dest = drop_plus dest; text = text })
unfolding read_message
read_message_lem none dest text post last hs hd ht =
    simp append_assoc (read_submit_lem none (drop_plus dest) text post last hd ht)
read_message_lem (some smsc) dest text post last hs hd ht =
    let number = drop_plus smsc in
    let behind =
      1
      ∷ 0
      ∷ (dest_bytes dest
          ++ 0 ∷ 0 ∷ length text ∷ (packed (text_bytes text) (stream text) ++ post)) in
    let filled =
      subst (λ n. read_filled n (semi_octets number ++ behind) ≡ number) (length-semi_octets number)
        (read_filled-semi_octets number behind hs.0) in
    let rest =
      drop-append (semi_octets number) behind (half (length number))
        (sym (length-semi_octets number)) in
    simp append_assoc
      (rw (filled, rest) (read_submit_lem (some number) (drop_plus dest) text post last hd ht))

length-pdu_bytes :
    (smsc : Option Text) (dest text : Text)
    → length (pdu_bytes smsc dest text) ≡ pdu_len smsc dest text
length-pdu_bytes smsc dest text = omega (
  arith,
  length-sca_bytes smsc,
  length-append {0} (sca_bytes smsc)
      (1 ∷ 0 ∷ (dest_bytes dest ++ 0 ∷ 0 ∷ length text ∷ packed (text_bytes text) (stream text))),
  length-append {0} (semi_octets (drop_plus dest))
      (0 ∷ 0 ∷ length text ∷ packed (text_bytes text) (stream text)),
  length-semi_octets (drop_plus dest),
  length-packed (text_bytes text) (stream text),
)
  where
    length-sca_bytes : (centre : Option Text) → length (sca_bytes centre) ≡ sca_len centre
    length-sca_bytes none = refl
    length-sca_bytes (some centre) = omega (arith, length-semi_octets (drop_plus centre))

take-append : (xs ys : List ℕ) (n : ℕ) → length xs ≡ n → take n (xs ++ ys) ≡ xs
take-append [] ys zero e = refl
take-append [] ys (suc n) e = absurd (omega arith)
take-append (x ∷ xs) ys zero e = absurd (omega arith)
take-append (x ∷ xs) ys (suc n) e = ap (λ (l : List ℕ). x ∷ l) (take-append xs ys n (omega arith))

-- `AsciiToPDU` makes a message from which a receiver reads the number of the service centre, where
-- one is given, the number of the addressee, and the text: for numbers of at most twelve digits,
-- each with or without a plus, a text of at most 160 characters of seven bits, and a buffer with
-- room for the message. The receiver reads exactly as many bytes as the length that is returned,
-- and takes no message that is longer or shorter than its text needs.
pub read_message-ascii_to_pdu :
    (smsc : Option Text) (dest text pdu : List ℕ)
    → 9 ≤ length pdu
    → pdu_len smsc dest text ≤ length pdu
    → IsCentre smsc
    → IsNumber dest
    → length text ≤ 160
    → All IsAscii text
    → (n : ℕ) × (out : List ℕ) × (ascii_to_pdu smsc (some dest) (some text) (some pdu) (length pdu)
        ≡ done (n, out))
      × (read_message (take n out)
          ≡ some (record { smsc = Option.map drop_plus smsc; dest = drop_plus dest; text = text }))
unfolding ascii_to_pdu
read_message-ascii_to_pdu smsc dest text pdu le room hs hd short ht =
    let enough : ltb (length pdu) 9 ≡ false = ground arith in
    let (post, e) = encode_lem smsc dest text pdu (length pdu) room refl hs hd short ht in
    let bytes = pdu_bytes smsc dest text in
    let whole = take-append bytes post (pdu_len smsc dest text) (length-pdu_bytes smsc dest text) in
    (
      pdu_len smsc dest text,
      bytes ++ post,
      rw (enough, e),
      rw whole (simp append-nil at (read_message_lem smsc dest text [] refl hs hd.0 ht)),
    )
