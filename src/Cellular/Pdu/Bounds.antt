-- ===== src/Cellular/Pdu/Bounds.antt =====
-- `AsciiToPDU` and the end of its buffer.
use kos_ce_extra.Prelude.{
  ℕ, zero, suc, ◌+◌, ◌-◌, ◌*◌, ◌/◌, ◌%◌, ◌^◌, ◌<◌, ◌≤◌, ltb, ◌||◌, Bool, true, false, if◌then◌else◌,
  List, [], ◌∷◌, ◌++◌, length, length-append, Text, ◌≡◌, refl, ap, arith,
}
use Prim.Native.Nat.{bit_or}
use kos_ce_extra.Cellular.Memory.{
  Outcome, done, failed, overrun, ◌>>=◌, modify, Pointer, push, advance, advance_by,
}
use kos_ce_extra.Cellular.Pdu.{
  u8, nibble, char_bit, number_to_nibbles, digits_field, clear, pack_char, pack_text, push_two,
}
use kos_ce_extra.Cellular.Pdu.Fields.{half}

-- No write leaves the buffer, and where the function returns, `P` holds.
abbrev pub InBounds {ℓ} : {A : Type ℓ} → (A → Type 0) → Outcome A → Type 0
InBounds P (done a) = P a
InBounds P failed = Unit
InBounds P overrun = ⊥

pub >>=-InBounds {ℓ κ} :
    {A : Type ℓ} {B : Type κ} (P : A → Type 0) (Q : B → Type 0) (m : Outcome A) (f : A → Outcome B)
    → InBounds P m
    → ((a : A) → P a → InBounds Q (f a))
    → InBounds Q (m >>= f)
>>=-InBounds P Q (done a) f h k = k a h
>>=-InBounds P Q failed f h k = tt
>>=-InBounds P Q overrun f h k = absurd h

pub if-InBounds {ℓ} :
    {A : Type ℓ} (P : A → Type 0) (b : Bool) (m : Outcome A)
    → (b ≡ false → InBounds P m)
    → InBounds P (if b then failed else m)
if-InBounds P true m h = tt
if-InBounds P false m h = h refl

abbrev pub HasLength : ℕ → List ℕ → Type 0
HasLength size p = length p ≡ size

modify-InBounds :
    (k : ℕ) (f : ℕ → ℕ) (p : List ℕ) (size : ℕ)
    → HasLength size p
    → k < size
    → InBounds (HasLength size) (modify k f p)
unfolding modify
modify-InBounds k f [] size e h = absurd (omega arith)
modify-InBounds zero f (b ∷ p) size e h = e
modify-InBounds (suc k) f (b ∷ p) size e h =
    >>=-InBounds (HasLength (length p)) (HasLength size) (modify k f p) _
      (modify-InBounds k f p (length p) refl (omega arith)) (λ p' l. omega arith)

pub number_to_nibbles-InBounds :
    (s : Text) (i : ℕ) (dst : List ℕ) (size : ℕ)
    → HasLength size dst
    → (i + length s + 1) / 2 ≤ size
    → InBounds (λ r. HasLength size r.1) (number_to_nibbles i s dst)
unfolding number_to_nibbles
number_to_nibbles-InBounds [] i dst size e h = e
number_to_nibbles-InBounds (c ∷ s) i dst size e h =
    if-InBounds (λ r. HasLength size r.1) (ltb c b'0' || ltb b'9' c) _
      λ _.
        >>=-InBounds (HasLength size) (λ r. HasLength size r.1)
          (modify (i / 2) (nibble i (c - b'0')) dst) _
          (modify-InBounds (i / 2) _ dst size e (omega arith))
          (λ d l. number_to_nibbles-InBounds s (suc i) d size l (omega arith))

pack_char-InBounds :
    (left j c n : ℕ) (pdu : List ℕ) (total size : ℕ)
    → HasLength size pdu
    → n + left ≡ total
    → total ≤ 8 * size
    → InBounds (λ r. (r.0 ≡ total) × HasLength size r.1) (pack_char left j c n pdu)
unfolding pack_char
pack_char-InBounds zero j c n pdu total size e t h = (omega arith, e)
pack_char-InBounds (suc left) j c n pdu total size e t h =
    >>=-InBounds (HasLength size) (λ r. (r.0 ≡ total) × HasLength size r.1)
      (modify (n / 8) (λ b. u8 (bit_or b (char_bit c j * 2 ^ (n % 8)))) pdu) _
      (modify-InBounds (n / 8) _ pdu size e (omega arith))
      (λ d l. pack_char-InBounds left (suc j) c (suc n) d total size l (omega arith) h)

pub pack_text-InBounds :
    (text : Text) (n : ℕ) (pdu : List ℕ) (size : ℕ)
    → HasLength size pdu
    → n + 7 * length text ≤ 8 * size
    → InBounds (HasLength size) (pack_text text n pdu)
unfolding pack_text
pack_text-InBounds [] n pdu size e h = e
pack_text-InBounds (c ∷ text) n pdu size e h =
    >>=-InBounds (λ r. (r.0 ≡ n + 7) × HasLength size r.1) (HasLength size) (pack_char 7 0 c n pdu)
      _ (pack_char-InBounds 7 0 c n pdu (n + 7) size e refl (omega arith))
      (λ r l. pack_text-InBounds text r.0 r.1 size l.1 (omega arith))

pub clear-InBounds :
    (n : ℕ) (pdu : List ℕ) (size : ℕ)
    → HasLength size pdu
    → n ≤ size
    → InBounds (HasLength size) (clear n pdu)
unfolding clear
clear-InBounds zero pdu size e h = e
clear-InBounds (suc n) [] size e h = absurd (omega arith)
clear-InBounds (suc n) (b ∷ pdu) size e h =
    >>=-InBounds (HasLength (length pdu)) (HasLength size) (clear n pdu) _
      (clear-InBounds n pdu (length pdu) refl (omega arith)) (λ d l. omega arith)

-- A pointer at the offset `k` of a buffer of `size` bytes.
abbrev pub IsAt : ℕ → ℕ → Pointer → Type 0
IsAt size k p = (length p.written ≡ k) × (k + length p.rest ≡ size)

pub push-InBounds :
    (v : ℕ) (p : Pointer) (size k : ℕ)
    → IsAt size k p
    → k < size
    → InBounds (IsAt size (suc k)) (push v p)
unfolding push
push-InBounds v p size k h room = room_for p.rest refl
  where
    room_for :
        (rest : List ℕ)
        → rest ≡ p.rest
        → InBounds (IsAt size (suc k)) (push v (record p { rest = rest }))
    room_for [] e = absurd (omega (arith, ap length e))
    room_for (b ∷ rest) e =
        (omega (arith, length-append {0} p.written (v ∷ [])), omega (arith, ap length e))

advance_by-InBounds :
    (n : ℕ) (w rest : List ℕ) (size k : ℕ)
    → length w + n ≡ k
    → length w + length rest ≡ size
    → k ≤ size
    → InBounds (IsAt size k) (advance_by n w rest)
unfolding advance_by
advance_by-InBounds zero w rest size k e t h = (omega arith, omega arith)
advance_by-InBounds (suc n) w [] size k e t h = absurd (omega arith)
advance_by-InBounds (suc n) w (b ∷ rest) size k e t h =
    advance_by-InBounds n (w ++ b ∷ []) rest size k (omega (arith, length-append {0} w (b ∷ [])))
      (omega (arith, length-append {0} w (b ∷ []))) h

-- A field ends at the offset `len` that it reports, and what it checked lies in the buffer.
abbrev pub EndsAt : ℕ → ℕ → Pointer × ℕ → Type 0
EndsAt size len r = (r.1 ≡ len) × (len ≤ size) × IsAt size len r.0

pub digits_field-InBounds :
    (s : Text) (p : Pointer) (size len k : ℕ)
    → IsAt size k p
    → k + 1 + half (length s) ≡ len
    → InBounds (EndsAt size len) (digits_field size len s (half (length s)) p)
unfolding digits_field advance
digits_field-InBounds s p size len k h e = if-InBounds (EndsAt size len) (ltb size len) _ λ room.
    >>=-InBounds (IsAt size (suc k)) (EndsAt size len) (push 0x91 p) _
      (push-InBounds 0x91 p size k h (ground arith))
      λ p1 at1.
        >>=-InBounds (λ r. HasLength (length p1.rest) r.1) (EndsAt size len)
          (number_to_nibbles 0 s p1.rest) _
          (number_to_nibbles-InBounds s 0 p1.rest (length p1.rest) refl (ground arith))
          λ r l.
            >>=-InBounds (IsAt size len) (EndsAt size len)
              (advance_by (half (length s)) p1.written r.1) _
              (advance_by-InBounds (half (length s)) p1.written r.1 size len (omega arith)
                (omega arith) (ground arith))
              λ p2 at2. (refl, ground arith, at2)

pub push_two-InBounds :
    (a b : ℕ) (p : Pointer) (size k : ℕ)
    → IsAt size k p
    → k + 2 ≤ size
    → InBounds (IsAt size (k + 2)) (push_two a b p)
unfolding push_two
push_two-InBounds a b p size k h room =
    >>=-InBounds (IsAt size (suc k)) (IsAt size (k + 2)) (push a p) _
      (push-InBounds a p size k h (omega arith))
      λ p1 at1. rw two (push-InBounds b p1 size (suc k) at1 (omega arith))
  where
    two : k + 2 ≡ suc (suc k)
    two = omega arith
