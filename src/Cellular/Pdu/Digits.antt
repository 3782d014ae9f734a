-- ===== src/Cellular/Pdu/Digits.antt =====
-- The digits of a number: what the loop of `NumberToNibbles` leaves in the buffer, and how it is
-- read back.
use native.Mathlib.Nat.{add-zero}
use kos_ce_extra.Prelude.{
  ℕ, suc, ◌+◌, ◌-◌, ◌*◌, ◌/◌, ◌≤◌, List, [], ◌∷◌, ◌++◌, length, length-append, All, append_assoc,
  Text, ◌≡◌, refl, arith, ltb, ◌||◌, false,
}
use kos_ce_extra.Cellular.Memory.{done}
use kos_ce_extra.Cellular.Pdu.{number_to_nibbles, nibble}
use kos_ce_extra.Cellular.Pdu.Bits.{nibble_even, nibble_odd}
use kos_ce_extra.Cellular.Pdu.Packing.{modify-append}
use kos_ce_extra.Cellular.Pdu.Reading.{read_digits, read_filled}

abbrev pub IsDigit : ℕ → Type 0
IsDigit c = (b'0' ≤ c) × (c ≤ b'9')

-- The first digit of a byte is in its low half; a half that is left over is filled with ones.
abbrev pub semi_octets : Text → List ℕ
semi_octets [] = []
semi_octets (a ∷ []) = (240 + (a - b'0')) ∷ []
semi_octets (a ∷ b ∷ s) = (a - b'0' + (b - b'0') * 16) ∷ semi_octets s

digit_passes : (c : ℕ) → IsDigit c → (ltb c b'0' || ltb b'9' c) ≡ false
digit_passes c h = ground arith

pub number_to_nibbles_lem :
    (s pre slots post : List ℕ) (i : ℕ)
    → i ≡ 2 * length pre
    → length slots ≡ (length s + 1) / 2
    → All IsDigit s
    → number_to_nibbles i s (pre ++ (slots ++ post))
      ≡ done ((i + length s + 1) / 2, pre ++ (semi_octets s ++ post))
unfolding number_to_nibbles
number_to_nibbles_lem [] pre [] post i e le h = rw add-zero
number_to_nibbles_lem [] pre (x ∷ slots) post i e le h = absurd (omega arith)
number_to_nibbles_lem (a ∷ s) pre [] post i e le h = absurd (omega arith)
number_to_nibbles_lem (a ∷ []) pre (x ∷ y ∷ slots) post i e le h = absurd (omega arith)
number_to_nibbles_lem (a ∷ []) pre (x ∷ []) post i e le (h, _) =
    let byte = modify-append pre x post (i / 2) (nibble i (a - b'0')) (omega arith) in
    let half = nibble_even i (a - b'0') x (omega arith) (omega arith) in
    let count : suc i + 1 ≡ i + 1 + 1 = omega arith in rw (digit_passes a h, byte, half, count)
number_to_nibbles_lem (a ∷ b ∷ s) pre (x ∷ slots) post i e le (h, (k, hs)) =
    let low = 240 + (a - b'0') in
    let both = a - b'0' + (b - b'0') * 16 in
    let byte = modify-append pre x (slots ++ post) (i / 2) (nibble i (a - b'0')) (omega arith) in
    let half = nibble_even i (a - b'0') x (omega arith) (omega arith) in
    let again =
      modify-append pre low (slots ++ post) (suc i / 2) (nibble (suc i) (b - b'0')) (omega arith) in
    let other =
      nibble_odd (suc i) (a - b'0') (b - b'0') (omega arith) (omega arith) (omega arith) in
    let ih =
      number_to_nibbles_lem s (pre ++ both ∷ []) slots post (suc (suc i))
        (omega (arith, length-append {0} pre (both ∷ []))) (omega arith) hs in
    let count : suc (suc i) + length s + 1 ≡ i + suc (suc (length s)) + 1 = omega arith in
    rw (digit_passes a h, byte, half, digit_passes b k, again, other)
      (simp (append_assoc, count) at ih)

pub length-semi_octets : (s : Text) → length (semi_octets s) ≡ (length s + 1) / 2
length-semi_octets [] = refl
length-semi_octets (a ∷ []) = refl
length-semi_octets (a ∷ b ∷ s) = omega (arith, length-semi_octets s)

pub read_digits-semi_octets :
    (s : Text) (post : List ℕ) → All IsDigit s → read_digits (length s) (semi_octets s ++ post) ≡ s
unfolding read_digits
read_digits-semi_octets [] post h = refl
read_digits-semi_octets (a ∷ []) post (h, _) = ground arith
read_digits-semi_octets (a ∷ b ∷ s) post (h, (k, hs)) =
    ground (arith, read_digits-semi_octets s post hs)

pub read_filled-semi_octets :
    (s : Text) (post : List ℕ)
    → All IsDigit s
    → read_filled (length (semi_octets s)) (semi_octets s ++ post) ≡ s
unfolding read_filled
read_filled-semi_octets [] post h = refl
read_filled-semi_octets (a ∷ []) post (h, _) = ground arith
read_filled-semi_octets (a ∷ b ∷ s) post (h, (k, hs)) =
    ground (arith, read_filled-semi_octets s post hs)
