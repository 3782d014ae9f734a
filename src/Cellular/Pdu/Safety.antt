-- ===== src/Cellular/Pdu/Safety.antt =====
-- `AsciiToPDU` and the end of its buffer: what it checks, and what it writes before the check.
use kos_ce_extra.Prelude.{
  ℕ, suc, ◌+◌, ◌<◌, ◌≤◌, ltb, ◌||◌, Option, none, some, List, [], ◌∷◌, length, length-append, Text,
  ◌≡◌, refl, ◌∙◌, arith,
}
use kos_ce_extra.Cellular.Memory.{Outcome, done, failed, overrun, Pointer, push}
use kos_ce_extra.Cellular.Pdu.{
  u8, drop_plus, dest_field, sca_field, text_field, clear, pack_text, push_two, encode,
  ascii_to_pdu,
}
use kos_ce_extra.Cellular.Pdu.Bounds.{
  InBounds, >>=-InBounds, if-InBounds, HasLength, IsAt, EndsAt, push-InBounds, clear-InBounds,
  pack_text-InBounds, digits_field-InBounds, push_two-InBounds,
}
use kos_ce_extra.Cellular.Pdu.Fields.{half, text_bytes, at}
use kos_ce_extra.Cellular.Pdu.Encoding.{IsNumber, sca_field_lem, sca_bytes}

-- The offset behind a field, at most `most` bytes behind `k`.
abbrev EndsWithin : ℕ → ℕ → Pointer × ℕ → Type 0
EndsWithin size most r = (r.1 ≤ most) × (r.1 ≤ size) × IsAt size r.1 r.0

field_within :
    (size len most : ℕ) (m : Outcome (Pointer × ℕ))
    → len ≤ most
    → InBounds (EndsAt size len) m
    → InBounds (EndsWithin size most) m
field_within size len most (done r) h (e, le, (w, t)) =
    (omega arith, omega arith, (omega arith, omega arith))
field_within size len most failed h k = tt
field_within size len most overrun h k = absurd k

sca_field-InBounds :
    (smsc : Option Text) (p : Pointer) (size : ℕ)
    → IsAt size 0 p
    → 1 ≤ size
    → InBounds (EndsWithin size 8) (sca_field smsc size p)
unfolding sca_field
sca_field-InBounds none p size h room =
    >>=-InBounds (IsAt size 1) (EndsWithin size 8) (push 0 p) _ (push-InBounds 0 p size 0 h room)
      λ p1 at1. (omega arith, room, at1)
sca_field-InBounds (some smsc) p size h room =
    let number = drop_plus smsc in
    if-InBounds (EndsWithin size 8) (ltb 6 (half (length number))) _ λ short.
      >>=-InBounds (IsAt size 1) (EndsWithin size 8) (push (u8 (1 + half (length number))) p) _
        (push-InBounds _ p size 0 h room)
        λ p1 at1.
          field_within size (2 + half (length number)) 8 _ (ground arith)
            (digits_field-InBounds number p1 size (2 + half (length number)) 1 at1 (omega arith))

dest_field-InBounds :
    (dest : Text) (p : Pointer) (size len : ℕ)
    → IsAt size len p
    → len < size
    → InBounds (EndsWithin size (len + 8)) (dest_field dest size len p)
unfolding dest_field
dest_field-InBounds dest p size len h room =
    let number = drop_plus dest in
    if-InBounds (EndsWithin size (len + 8)) (ltb 6 (half (length number))) _ λ short.
      >>=-InBounds (IsAt size (suc len)) (EndsWithin size (len + 8)) (push (u8 (length number)) p) _
        (push-InBounds _ p size len h room)
        λ p1 at1. field_within size (len + (2 + half (length number))) (len + 8) _ (ground arith) (
          digits_field-InBounds number p1 size (len + (2 + half (length number))) (suc len) at1
            (omega arith))

-- A message that ends in the buffer, which keeps its size.
abbrev pub Encoded : ℕ → ℕ × List ℕ → Type 0
Encoded size r = (r.0 ≤ size) × (length r.1 ≡ size)

text_field-InBounds :
    (text : Text) (p : Pointer) (size len : ℕ)
    → IsAt size len p
    → InBounds
        (λ r. (r.1 ≤ size) × (length r.0.written + length r.0.rest ≡ size))
        (text_field text size len p)
unfolding text_field
text_field-InBounds text p size len h =
    let n = text_bytes text in
    let Within : Pointer × ℕ → Type 0 =
      λ r. (r.1 ≤ size) × (length r.0.written + length r.0.rest ≡ size) in
    if-InBounds Within (ltb size (len + n + 1) || ltb 160 (length text)) _ λ room.
      >>=-InBounds (IsAt size (suc len)) Within (push (u8 (length text)) p) _
        (push-InBounds _ p size len h (ground arith))
        λ p1 at1.
          let left = length p1.rest in
          >>=-InBounds (HasLength left) Within (clear n p1.rest) _
            (clear-InBounds n p1.rest left refl (ground arith))
            λ cleared l.
              >>=-InBounds (HasLength left) Within (pack_text text 0 cleared) _
                (pack_text-InBounds text 0 cleared left l (ground arith))
                λ packed k. (ground arith, omega arith)

encode-InBounds :
    (smsc : Option Text) (dest text pdu : List ℕ) (size : ℕ)
    → length pdu ≡ size
    → 20 ≤ size
    → InBounds (Encoded size) (encode smsc dest text size pdu)
unfolding encode
encode-InBounds smsc dest text pdu size e room =
    >>=-InBounds (EndsWithin size 8) (Encoded size) (sca_field smsc size (at [] pdu)) _
      (sca_field-InBounds smsc (at [] pdu) size (omega arith) (omega arith))
      λ r1 (le1, _, at1).
        >>=-InBounds (IsAt size (r1.1 + 2)) (Encoded size) (push_two 1 0 r1.0) _
          (push_two-InBounds 1 0 r1.0 size r1.1 at1 (omega arith))
          λ p2 at2.
            >>=-InBounds (EndsWithin size (r1.1 + 2 + 8)) (Encoded size)
              (dest_field dest size (r1.1 + 2) p2) _
              (dest_field-InBounds dest p2 size (r1.1 + 2) at2 (omega arith))
              λ r3 (le3, _, at3).
                >>=-InBounds (IsAt size (r3.1 + 2)) (Encoded size) (push_two 0 0 r3.0) _
                  (push_two-InBounds 0 0 r3.0 size r3.1 at3 (omega arith))
                  λ p4 at4.
                    >>=-InBounds (λ r. (r.1 ≤ size) × (length r.0.written + length r.0.rest ≡ size))
                      (Encoded size) (text_field text size (r3.1 + 2) p4) _
                      (text_field-InBounds text p4 size (r3.1 + 2) at4)
                      λ r5 (le5, whole). (le5, length-append r5.0.written r5.0.rest ∙ whole)

-- Whatever its arguments hold, `AsciiToPDU` writes to no byte outside its buffer, if that has the
-- size that it is told and at least twenty bytes; a length that it returns is at most that size.
pub ascii_to_pdu-InBounds :
    (smsc dest text : Option Text) (pdu : List ℕ)
    → 20 ≤ length pdu
    → InBounds (Encoded (length pdu)) (ascii_to_pdu smsc dest text (some pdu) (length pdu))
unfolding ascii_to_pdu
ascii_to_pdu-InBounds smsc none none pdu room = tt
ascii_to_pdu-InBounds smsc none (some text) pdu room = tt
ascii_to_pdu-InBounds smsc (some dest) none pdu room = tt
ascii_to_pdu-InBounds smsc (some dest) (some text) pdu room =
    if-InBounds (Encoded (length pdu)) (ltb (length pdu) 9) _
      λ _. encode-InBounds smsc dest text pdu (length pdu) refl room

push_two_overruns :
    (a b : ℕ) (w rest : List ℕ) → length rest ≡ 1 → push_two a b (at w rest) ≡ overrun
unfolding push_two push
push_two_overruns a b w [] e = absurd (omega arith)
push_two_overruns a b w (x ∷ []) e = refl
push_two_overruns a b w (x ∷ y ∷ rest) e = absurd (omega arith)

-- The smallest buffer that passes the check of `AsciiToPDU` is too small for it: with a service
-- centre of eleven or twelve digits it writes behind a buffer of nine bytes. What follows that
-- write is undefined, and is not modelled.
pub ascii_to_pdu-overruns :
    (smsc dest text pdu : List ℕ)
    → IsNumber smsc
    → 11 ≤ length (drop_plus smsc)
    → length pdu ≡ 9
    → ascii_to_pdu (some smsc) (some dest) (some text) (some pdu) 9 ≡ overrun
unfolding ascii_to_pdu encode
ascii_to_pdu-overruns smsc dest text pdu h long e =
    let (post, l, s) = sca_field_lem (some smsc) pdu 9 (omega arith) (omega arith) h in
    rw (s, push_two_overruns 1 0 (sca_bytes (some smsc)) post (omega arith))
