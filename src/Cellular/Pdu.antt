-- ===== src/Cellular/Pdu.antt =====
-- `NumberToNibbles` and `AsciiToPDU` (cellular/mbim_sms/client/src/main.c): the SMS-SUBMIT message
-- for a number and a text. A C string is the list of its bytes before the closing zero.
pub mod Bits
pub mod Packing
pub mod Reading
pub mod Unpacking
pub mod Digits
pub mod Fields
pub mod Encoding
pub mod RoundTrip
pub mod Bounds
pub mod Safety
use Prim.Native.Nat.{bit_or}
use kos_ce_extra.Prelude.{
  ℕ, zero, suc, ◌+◌, ◌-◌, ◌*◌, ◌/◌, ◌%◌, ◌^◌, bit_and, ◌||◌, Option, none, some, List, [], ◌∷◌,
  ◌++◌, length, Text, ltb, ◌==◌, if◌then◌else◌,
}
use kos_ce_extra.Cellular.Memory.{Outcome, done, failed, ◌>>=◌, modify, Pointer, push, advance}

abbrev pub u8 : ℕ → ℕ
u8 n = n % 256

abbrev pub pdu_num_international : ℕ
pdu_num_international = 0x91

abbrev pub pdu_len_min : ℕ
pdu_len_min = 9

abbrev pub pdu_num_len_max : ℕ
pdu_num_len_max = 6

abbrev pub pdu_flags_mti_sms_submit : ℕ
pdu_flags_mti_sms_submit = 1

abbrev pub pdu_dcs_ascii7 : ℕ
pdu_dcs_ascii7 = 0

abbrev pub pdu_ascii7_max_data_len : ℕ
pdu_ascii7_max_data_len = 160

-- What the digit `c` at the index `i` makes of its byte of `dst`: `c` is already `c - '0'`.
unfoldable pub nibble : ℕ → ℕ → ℕ → ℕ
nibble i c b =
    if i % 2 == 0 then bit_or 0xf0 c else bit_or (bit_and b 0x0f) (bit_and (c * 2 ^ 4) 0xf0)

-- The loop of `NumberToNibbles` over what is left of `data`, and its result.
unfoldable pub number_to_nibbles : ℕ → Text → List ℕ → Outcome (ℕ × List ℕ)
unfolding modify nibble
number_to_nibbles i [] dst = done ((i + 1) / 2, dst)
number_to_nibbles i (c ∷ rest) dst =
    if ltb c b'0' || ltb b'9' c
    then failed
    else (modify (i / 2) (nibble i (c - b'0')) dst >>= λ dst'. number_to_nibbles (suc i) rest dst')

-- `if (number[0] == '+') number++;`.
unfoldable pub drop_plus : Text → Text
drop_plus [] = []
drop_plus (c ∷ number) = if c == b'+' then number else c ∷ number

-- The bytes of an address behind its first one: its type and its digits.
unfoldable pub digits_field : ℕ → ℕ → Text → ℕ → Pointer → Outcome (Pointer × ℕ)
unfolding number_to_nibbles push advance
digits_field buflen len number numbytes p =
    if ltb buflen len
    then failed
    else (push pdu_num_international p >>= λ p1. number_to_nibbles 0 number p1.rest >>= λ (n, dst).
        advance numbytes (record p1 { rest = dst }) >>= λ p2. done (p2, len))

-- `SCA`: the service centre, or the default one. The pointer, and `len`.
unfoldable pub sca_field : Option Text → ℕ → Pointer → Outcome (Pointer × ℕ)
unfolding drop_plus digits_field push
sca_field none buflen p = push 0 p >>= λ p1. done (p1, 1)
sca_field (some smsc) buflen p =
    let number = drop_plus smsc in
    let numbytes = (length number + 1) / 2 in
    if ltb pdu_num_len_max numbytes
    then failed
    else (push (u8 (1 + numbytes)) p >>= λ p1.
        digits_field buflen (2 + numbytes) number numbytes p1)

-- The destination address.
unfoldable pub dest_field : Text → ℕ → ℕ → Pointer → Outcome (Pointer × ℕ)
unfolding drop_plus digits_field push
dest_field dest buflen len p =
    let number = drop_plus dest in
    let numbytes = (length number + 1) / 2 in
    if ltb pdu_num_len_max numbytes
    then failed
    else (push (u8 (length number)) p >>= λ p1.
        digits_field buflen (len + (2 + numbytes)) number numbytes p1)

-- `!!(c & (1 << j))`.
unfoldable pub char_bit : ℕ → ℕ → ℕ
char_bit c j = if bit_and c (2 ^ j) == 0 then 0 else 1

-- The inner loop, `left` rounds before its end, and the outer loop.
unfoldable pub pack_char : ℕ → ℕ → ℕ → ℕ → List ℕ → Outcome (ℕ × List ℕ)
unfolding modify char_bit
pack_char zero j c bitnum pdu = done (bitnum, pdu)
pack_char (suc left) j c bitnum pdu =
    modify (bitnum / 8) (λ b. u8 (bit_or b (char_bit c j * 2 ^ (bitnum % 8)))) pdu >>= λ pdu'.
    pack_char left (suc j) c (suc bitnum) pdu'

unfoldable pub pack_text : Text → ℕ → List ℕ → Outcome (List ℕ)
unfolding pack_char
pack_text [] bitnum pdu = done pdu
pack_text (c ∷ text) bitnum pdu =
    pack_char 7 0 c bitnum pdu >>= λ (bitnum', pdu'). pack_text text bitnum' pdu'

-- `memset(pdu, 0, n)`.
unfoldable pub clear : ℕ → List ℕ → Outcome (List ℕ)
unfolding modify
clear zero pdu = done pdu
clear (suc n) [] = Outcome.overrun
clear (suc n) (b ∷ pdu) = clear n pdu >>= λ pdu'. done (0 ∷ pdu')

unfoldable pub text_field : Text → ℕ → ℕ → Pointer → Outcome (Pointer × ℕ)
unfolding clear pack_text push
text_field text buflen len p =
    let text_len = length text in
    let text_bytes = (text_len * 7 + 7) / 8 in
    if ltb buflen (len + text_bytes + 1) || ltb pdu_ascii7_max_data_len text_len
    then failed
    else (push (u8 text_len) p >>= λ p1. clear text_bytes p1.rest >>= λ cleared.
        pack_text text 0 cleared >>= λ packed.
        done (record p1 { rest = packed }, len + (1 + text_bytes)))

-- Two bytes: flags and message reference, or PID and DCS.
unfoldable pub push_two : ℕ → ℕ → Pointer → Outcome Pointer
unfolding push
push_two a b p = push a p >>= λ p1. push b p1

-- `AsciiToPDU` behind its test of the arguments.
unfoldable pub encode : Option Text → Text → Text → ℕ → List ℕ → Outcome (ℕ × List ℕ)
unfolding sca_field dest_field text_field push_two
encode smsc dest text buflen pdu =
    sca_field smsc buflen (record { written = []; rest = pdu }) >>= λ (p1, len1).
    push_two pdu_flags_mti_sms_submit 0 p1 >>= λ p2.
    dest_field dest buflen (len1 + 2) p2 >>= λ (p3, len3). push_two 0 pdu_dcs_ascii7 p3 >>= λ p4.
    text_field text buflen (len3 + 2) p4 >>= λ (p5, len5). done (len5, p5.written ++ p5.rest)

-- The arguments are null pointers, or point to what they should: the buffer's bytes are `pdu`.
unfoldable pub ascii_to_pdu :
    Option Text → Option Text → Option Text → Option (List ℕ) → ℕ → Outcome (ℕ × List ℕ)
unfolding encode
ascii_to_pdu smsc (some dest) (some text) (some pdu) buflen =
    if ltb buflen pdu_len_min then failed else encode smsc dest text buflen pdu
ascii_to_pdu smsc _ _ _ buflen = failed
