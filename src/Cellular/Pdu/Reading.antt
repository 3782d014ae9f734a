-- ===== src/Cellular/Pdu/Reading.antt =====
-- How the receiver reads the fields of a message: the numbers, two digits in each byte, and the
-- text, seven bits for each character.
use kos_ce_extra.Prelude.{
  ℕ, zero, suc, ◌+◌, ◌*◌, length, ◌/◌, ◌%◌, Option, none, some, List, [], ◌∷◌, ◌++◌, drop, Text,
  ◌==◌, if◌then◌else◌,
}
use kos_ce_extra.Cellular.Pdu.Bits.{value, bits}

unfoldable pub unbits : List ℕ → List ℕ
unbits [] = []
unbits (b ∷ bytes) = bits 8 b ++ unbits bytes

unfoldable pub septets : ℕ → List ℕ → Text
septets (suc n) (a ∷ b ∷ c ∷ d ∷ e ∷ f ∷ g ∷ r) =
    value (a ∷ b ∷ c ∷ d ∷ e ∷ f ∷ g ∷ []) ∷ septets n r
septets _ _ = []

-- `n` digits.
unfoldable pub read_digits : ℕ → List ℕ → Text
read_digits (suc (suc n)) (b ∷ bytes) = (b'0' + b % 16) ∷ (b'0' + b / 16) ∷ read_digits n bytes
read_digits (suc zero) (b ∷ bytes) = (b'0' + b % 16) ∷ []
read_digits _ _ = []

-- The digits in `n` bytes: a last half byte of ones is none.
unfoldable pub read_filled : ℕ → List ℕ → Text
read_filled (suc n) (b ∷ bytes) =
    let more = read_filled n bytes in
    if b / 16 == 15 then (b'0' + b % 16) ∷ [] else (b'0' + b % 16) ∷ (b'0' + b / 16) ∷ more
read_filled _ _ = []

pub record Message : Type 0 where
  pub smsc : Option Text
  pub dest : Text
  pub text : Text

-- Behind the destination: PID, DCS, the number of characters, and the characters, in as many bytes
-- as they need: a message that is longer or shorter is none.
unfoldable pub read_text : Option Text → Text → List ℕ → Option Message
unfolding unbits septets
read_text smsc dest (pid ∷ dcs ∷ n ∷ bytes) =
    if length bytes == (n * 7 + 7) / 8
    then some (record { smsc = smsc; dest = dest; text = septets n (unbits bytes) })
    else none
read_text smsc dest _ = none

-- The flags of an SMS-SUBMIT without a validity period, the message reference, the number of
-- digits, their type, and the digits.
unfoldable pub read_submit : Option Text → List ℕ → Option Message
unfolding read_text read_digits
read_submit smsc (flags ∷ reference ∷ n ∷ type ∷ bytes) =
    if flags == 1 then read_text smsc (read_digits n bytes) (drop ((n + 1) / 2) bytes) else none
read_submit smsc _ = none

-- A message begins with the length of the service centre's address, its type included.
unfoldable pub read_message : List ℕ → Option Message
unfolding read_submit read_filled
read_message (zero ∷ bytes) = read_submit none bytes
read_message (suc n ∷ type ∷ bytes) = read_submit (some (read_filled n bytes)) (drop n bytes)
read_message _ = none
