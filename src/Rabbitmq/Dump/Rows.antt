-- ===== src/Rabbitmq/Dump/Rows.antt =====
-- The lines that `DumpRow` prints.
use kos_ce_extra.Prelude.{
  ℕ, zero, suc, ◌+◌, ◌-◌, ◌*◌, ◌/◌, ◌%◌, ◌^◌, ◌<◌, ◌≤◌, ◌≡◌, refl, List, [], ◌∷◌, ◌++◌, ◌==◌, arith,
  if◌then◌else◌, Text, codes, length, length-append, All, ap, leb, ltb, ◌&&◌,
}
use native.Mathlib.Nat.{pow-suc}
use kos_ce_extra.Rabbitmq.Dump.{
  hex_from, hex, hex_columns, blank_columns, characters, dump_row, newline, hex_digit,
}

div_bound : (n width : ℕ) → n < 16 ^ suc width → n / 16 < 16 ^ width
div_bound n width h = omega (arith, pow-suc 16 width)

length-snoc : (s : Text) (d : ℕ) → length (s ++ d ∷ []) ≡ length s + 1
length-snoc s d = length-append s (d ∷ [])

-- A number that its width holds is printed in just that width.
length-hex_from :
    (digits width n : ℕ)
    → width ≤ digits
    → n < 16 ^ width
    → length (hex_from digits width n) ≡ width
unfolding hex_from
length-hex_from zero width n h k = omega arith
length-hex_from (suc digits) zero n h k = ground arith
length-hex_from (suc digits) (suc width) n h k =
    let step : suc width - 1 ≡ width = omega arith in
    let ih = length-hex_from digits width (n / 16) (omega arith) (div_bound n width k) in
    let more = length-snoc (hex_from digits (suc width - 1) (n / 16)) (hex_digit (n % 16)) in
    ground (arith, ap (λ w. length (hex_from digits w (n / 16))) step)

abbrev IsByte : ℕ → Type 0
IsByte ch = ch < 256

length-hex_byte : (ch : ℕ) → IsByte ch → length (hex 2 ch) ≡ 2
unfolding hex
length-hex_byte ch h = length-hex_from 16 2 ch (omega arith) (omega arith)

length-hex_offset : (n : ℕ) → n < 2 ^ 32 → length (hex 8 n) ≡ 8
unfolding hex
length-hex_offset n h = length-hex_from 16 8 n (omega arith) (omega arith)

-- The mark before the eighth byte, where the columns from `i` on hold it.
abbrev mark : ℕ → ℕ → ℕ
mark i n = if leb i 8 && ltb 8 (i + n) then 2 else 0

length-hex_columns :
    (i : ℕ) (chs : List ℕ)
    → All IsByte chs
    → length (hex_columns i chs) ≡ mark i (length chs) + 2 * length chs
unfolding hex_columns
length-hex_columns i [] h = ground arith
length-hex_columns i (ch ∷ chs) (h, k) =
    let byte = length-hex_byte ch h in
    let ih = length-hex_columns (i + 1) chs k in
    let joined = length-append (hex 2 ch) (hex_columns (i + 1) chs) in
    let whole =
      length-append (if i == 8 then codes " :" else []) (hex 2 ch ++ hex_columns (i + 1) chs) in
    ground arith

length-blank_columns : (i n : ℕ) → length (blank_columns i n) ≡ mark i n + 3 * n
unfolding blank_columns
length-blank_columns i zero = ground arith
length-blank_columns i (suc n) =
    let ih = length-blank_columns (i + 1) n in
    let whole =
      length-append (if i == 8 then codes " :" else []) (codes "   " ++ blank_columns (i + 1) n) in
    ground arith

length-characters : (chs : List ℕ) → length (characters chs) ≡ length chs
unfolding characters
length-characters [] = refl
length-characters (ch ∷ chs) = ap suc (length-characters chs)

-- Every row of one to sixteen bytes is printed on a line of 60 characters and its end, whatever
-- the number of bytes, as long as the offset needs no more than eight digits.
length-dump_row :
    (count : ℕ) (chs : List ℕ)
    → All IsByte chs
    → 0 < length chs
    → length chs ≤ 16
    → count < 2 ^ 32
    → length (dump_row count chs) ≡ 61
unfolding dump_row
length-dump_row count chs bytes some_bytes fits small =
    let n = length chs in
    let offset = length-hex_offset (count - n) (omega arith) in
    let columns = length-hex_columns 0 chs bytes in
    let blanks = length-blank_columns n (16 - n) in
    let right = codes "  " ++ characters chs in
    let a = length-characters chs in
    let b = length-append (blank_columns n (16 - n)) right in
    let middle = hex_columns 0 chs ++ (blank_columns n (16 - n) ++ right) in
    let c = length-append (hex_columns 0 chs) (blank_columns n (16 - n) ++ right) in
    let body = (if ltb 0 n then middle else []) ++ newline ∷ [] in
    let d = length-append (hex 8 (count - n)) body in
    let e = length-append (if ltb 0 n then middle else []) (newline ∷ []) in ground arith
