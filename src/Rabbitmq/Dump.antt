-- ===== src/Rabbitmq/Dump.antt =====
-- The hex dump of a message body: `DumpRow`, `RowsEq` and `AmqpDump` of common/utils/utils.cpp.
pub mod Rows
pub mod Refinement
use kos_ce_extra.Prelude.{
  ℕ, zero, suc, ◌+◌, ◌-◌, ◌/◌, ◌%◌, Bool, true, false, not, List, [], ◌∷◌, ◌++◌, ◌==◌, ltb, leb,
  ◌&&◌, if◌then◌else◌, Text, codes, length, replicate,
}

abbrev pub hex_digit : ℕ → ℕ
hex_digit d = if ltb d 10 then b'0' + d else b'a' + d - 10

-- `std::hex << std::setw(w) << std::setfill('0') << n`: the last digits first. 16 digits hold a
-- 64-bit number; what lies above the width is printed only where it is not zero.
unfoldable pub hex_from : ℕ → ℕ → ℕ → Text
hex_from zero width n = []
hex_from (suc digits) width n =
    let more = hex_from digits (width - 1) (n / 16) in
    if leb width 0 && n == 0 then [] else more ++ hex_digit (n % 16) ∷ []

unfoldable pub hex : ℕ → ℕ → Text
unfolding hex_from
hex width n = hex_from 16 width n

-- The bytes `i, i + 1, …` of a row in hex, with ` :` before the eighth.
unfoldable pub hex_columns : ℕ → List ℕ → Text
unfolding hex
hex_columns i [] = []
hex_columns i (ch ∷ chs) =
    (if i == 8 then codes " :" else []) ++ (hex 2 ch ++ hex_columns (i + 1) chs)

-- The same columns left empty.
unfoldable pub blank_columns : ℕ → ℕ → Text
blank_columns i zero = []
blank_columns i (suc n) =
    (if i == 8 then codes " :" else []) ++ (codes "   " ++ blank_columns (i + 1) n)

-- `isprint` of the C locale.
abbrev pub printable : ℕ → ℕ
printable ch = if leb 32 ch && leb ch 126 then ch else b'.'

unfoldable pub characters : List ℕ → Text
characters [] = []
characters (ch ∷ chs) = printable ch ∷ characters chs

abbrev pub newline : ℕ
newline = 10

-- `numinrow` is the length of `chs`.
unfoldable pub dump_row : ℕ → List ℕ → Text
unfolding hex hex_columns blank_columns characters
dump_row count chs =
    hex 8 (count - length chs)
    ++ ((if ltb 0 (length chs)
          then hex_columns 0 chs
            ++ (blank_columns (length chs) (16 - length chs) ++ (codes "  " ++ characters chs))
          else [])
        ++ newline ∷ [])

unfoldable pub rows_eq : List ℕ → List ℕ → Bool
rows_eq [] [] = true
rows_eq (a ∷ x) (b ∷ y) = a == b && rows_eq x y
rows_eq _ _ = false

-- `memccpy(oldchs, chs, 16, sizeof(int))` copies four bytes at most, and none behind a byte 16:
-- the first `int`, whose upper bytes are 0 in both arrays, since it holds a byte.
unfoldable pub copy_row : List ℕ → List ℕ → List ℕ
copy_row (old ∷ rest) (ch ∷ chs) = ch ∷ rest
copy_row rest _ = rest

abbrev pub dots_line : Text
dots_line = codes "          .. .. .. .. .. .. .. .. : .. .. .. .. .. .. .. .." ++ newline ∷ []

-- The variables of `AmqpDump`, and what it has printed.
pub record Dumping : Type 0 where
  pub count : ℕ
  pub chs : List ℕ
  pub oldchs : List ℕ
  pub showed_dots : Bool
  pub out : Text

abbrev pub start : Dumping
start = record { count = 0; chs = []; oldchs = replicate 16 0; showed_dots = false; out = [] }

-- The block under `if (numinrow == 16)`.
unfoldable pub flush : Dumping → Dumping
unfolding copy_row
flush s =
    let shown =
      if rows_eq s.oldchs s.chs
      then (if not s.showed_dots
          then record s { showed_dots = true; out = s.out ++ dots_line }
          else s)
      else record s { showed_dots = false; out = s.out ++ dump_row s.count s.chs } in
    record shown { oldchs = copy_row s.oldchs s.chs; chs = [] }

-- One round of the loop.
unfoldable pub take_byte : Dumping → ℕ → Dumping
take_byte s ch =
    let s' = if length s.chs == 16 then flush s else s in
    record s' { count = s'.count + 1; chs = s'.chs ++ ch ∷ [] }

unfoldable pub dump_loop : Dumping → List ℕ → Dumping
dump_loop s [] = s
dump_loop s (ch ∷ buf) = dump_loop (take_byte s ch) buf

unfoldable pub amqp_dump : List ℕ → Text
amqp_dump buf =
    let s = dump_loop start buf in
    (s.out ++ dump_row s.count s.chs)
    ++ (if not (length s.chs == 0) then hex 8 s.count ++ newline ∷ [] else [])
