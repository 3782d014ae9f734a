-- ===== src/Rabbitmq/Dump/Refinement.antt =====
-- The dump, row by row.
use kos_ce_extra.Prelude.{
  ℕ, suc, ◌+◌, ◌<◌, ◌≤◌, ◌≡◌, refl, ◌≢◌, sym, ap, ◌∙◌, Bool, true, false, not, List, [], ◌∷◌, ◌++◌,
  append_assoc, append-nil, if◌then◌else◌, ◌==◌, arith, Text, length, length-append, replicate,
  Bool-cases, inl, inr, ◌↔◌,
}
use native.Mathlib.Nat.{add-zero}
use mathlib.Core.List.{tail}
use kos_ce_extra.Rabbitmq.Dump.{
  Dumping, hex, dump_row, rows_eq, dots_line, newline, flush, take_byte, dump_loop, amqp_dump,
}

rows_eq_iff : (x y : List ℕ) → (rows_eq x y ≡ true) ↔ (x ≡ y)
unfolding rows_eq
rows_eq_iff [] [] = ground arith
rows_eq_iff [] (b ∷ y) = ground arith
rows_eq_iff (a ∷ x) [] = ground arith
rows_eq_iff (a ∷ x) (b ∷ y) = ground (arith, rows_eq_iff x y)

-- The row that the dump takes for a repetition: a first byte, and fifteen zeros.
abbrev pub faint : ℕ → List ℕ
faint first = first ∷ replicate 15 0

-- The state between two rows.
abbrev dumping : ℕ → List ℕ → ℕ → Bool → Text → Dumping
dumping count chs first shown out = record {
  count = count;
  chs = chs;
  oldchs = faint first;
  showed_dots = shown;
  out = out;
}

take_byte-room :
    (count : ℕ) (chs : List ℕ) (first : ℕ) (shown : Bool) (out : Text) (ch : ℕ)
    → length chs < 16
    → take_byte (dumping count chs first shown out) ch
      ≡ dumping (count + 1) (chs ++ ch ∷ []) first shown out
unfolding take_byte
take_byte-room count chs first shown out ch h = ground arith

-- Bytes that the row still has room for are stored.
dump_loop-fill :
    (count : ℕ) (chs : List ℕ) (first : ℕ) (shown : Bool) (out : Text) (row buf : List ℕ)
    → length chs + length row ≤ 16
    → dump_loop (dumping count chs first shown out) (row ++ buf)
      ≡ dump_loop (dumping (count + length row) (chs ++ row) first shown out) buf
unfolding dump_loop
dump_loop-fill count chs first shown out [] buf h = simp (append-nil, add-zero)
dump_loop-fill count chs first shown out (ch ∷ row) buf h =
    let longer = length-append chs (ch ∷ []) in
    let ih = dump_loop-fill (count + 1) (chs ++ ch ∷ []) first shown out row buf (omega arith) in
    let moved : count + 1 + length row ≡ count + suc (length row) = omega arith in
    let stored = take_byte-room count chs first shown out ch (omega arith) in
    ap (λ s. dump_loop s (row ++ buf)) stored ∙ (rw (append_assoc, moved) at ih)

take_byte-full :
    (s : Dumping) (ch : ℕ) → length s.chs ≡ 16 → take_byte s ch ≡ take_byte (flush s) ch
unfolding take_byte flush
take_byte-full s ch h = rw h refl

-- A full row is printed when one more byte comes.
dump_loop-flush :
    (s : Dumping) (ch : ℕ) (buf : List ℕ)
    → length s.chs ≡ 16
    → dump_loop s (ch ∷ buf) ≡ dump_loop (flush s) (ch ∷ buf)
unfolding dump_loop
dump_loop-flush s ch buf h = ap (λ t. dump_loop t buf) (take_byte-full s ch h)

-- What is printed for a full row: nothing or the dots for a repetition, or its line.
abbrev pub row_text : ℕ → ℕ → Bool → ℕ × List ℕ → Text
row_text count first shown (ch, rest) =
    if rows_eq (faint first) (ch ∷ rest)
    then (if shown then [] else dots_line)
    else dump_row count (ch ∷ rest)

-- The whole dump: the full rows, each with the first byte of the one before it, then the last row.
abbrev pub dump_spec : ℕ → ℕ → Bool → List (ℕ × List ℕ) → List ℕ → Text
dump_spec count first shown [] last =
    dump_row (count + length last) last ++ (hex 8 (count + length last) ++ newline ∷ [])
dump_spec count first shown ((ch, rest) ∷ rows) last =
    row_text (count + 16) first shown (ch, rest)
    ++ dump_spec (count + 16) ch (rows_eq (faint first) (ch ∷ rest)) rows last

flush-row :
    (count first : ℕ) (shown : Bool) (out : Text) (ch : ℕ) (rest : List ℕ)
    → flush (dumping count (ch ∷ rest) first shown out)
      ≡ dumping count [] ch
          (rows_eq (faint first) (ch ∷ rest))
          (out ++ row_text count first shown (ch, rest))
unfolding flush
flush-row count first true out ch rest = ground (arith, append-nil out)
flush-row count first false out ch rest = ground (arith, append-nil out)

-- The bytes of the rows.
abbrev pub flat : List (ℕ × List ℕ) → List ℕ → List ℕ
flat [] last = last
flat ((ch, rest) ∷ rows) last = (ch ∷ rest) ++ flat rows last

abbrev pub AreRows : List (ℕ × List ℕ) → Type 0
AreRows [] = Unit
AreRows ((ch, rest) ∷ rows) = (length rest ≡ 15) × AreRows rows

-- What `AmqpDump` prints behind its loop.
abbrev finish : Dumping → Text
finish s =
    (s.out ++ dump_row s.count s.chs)
    ++ (if not (length s.chs == 0) then hex 8 s.count ++ newline ∷ [] else [])

dump_loop-flushed :
    (s : Dumping) (rows : List (ℕ × List ℕ)) (l : ℕ) (last : List ℕ)
    → length s.chs ≡ 16
    → dump_loop s (flat rows (l ∷ last)) ≡ dump_loop (flush s) (flat rows (l ∷ last))
dump_loop-flushed s [] l last h = dump_loop-flush s l last h
dump_loop-flushed s ((ch, rest) ∷ rows) l last h =
    dump_loop-flush s ch (rest ++ flat rows (l ∷ last)) h

finish-row :
    (count l : ℕ) (last : List ℕ) (first : ℕ) (shown : Bool) (out : Text)
    → finish (dumping count (l ∷ last) first shown out)
      ≡ out ++ (dump_row count (l ∷ last) ++ (hex 8 count ++ newline ∷ []))
finish-row count l last first shown out =
    ground (arith, append_assoc out (dump_row count (l ∷ last)) (hex 8 count ++ newline ∷ []))

dump_loop-rows :
    (rows : List (ℕ × List ℕ)) (l : ℕ) (last : List ℕ) (count first : ℕ) (shown : Bool) (out : Text)
    → AreRows rows
    → length last < 16
    → finish (dump_loop (dumping count [] first shown out) (flat rows (l ∷ last)))
      ≡ out ++ dump_spec count first shown rows (l ∷ last)
unfolding dump_loop
dump_loop-rows [] l last count first shown out _ h =
    let filled = dump_loop-fill count [] first shown out (l ∷ last) [] (omega arith) in
    ap finish (rw (append-nil) at filled)
    ∙ finish-row (count + length (l ∷ last)) l last first shown out
dump_loop-rows ((ch, rest) ∷ rows) l last count first shown out (full, h') h =
    let row = ch ∷ rest in
    let more = flat rows (l ∷ last) in
    let sixteen : count + length row ≡ count + 16 = omega arith in
    let filled = dump_loop-fill count [] first shown out row more (omega arith) in
    let full_row = dumping (count + 16) row first shown out in
    let flushed = dump_loop-flushed full_row rows l last (omega arith) in
    let printed = flush-row (count + 16) first shown out ch rest in
    let text = row_text (count + 16) first shown (ch, rest) in
    let ih =
      dump_loop-rows rows l last (count + 16) ch (rows_eq (faint first) row) (out ++ text) h' h in
    ap finish ((rw sixteen at filled) ∙ flushed ∙ ap (λ s. dump_loop s more) printed)
    ∙ ih
    ∙ append_assoc out text _

-- `AmqpDump` prints a buffer row by row. Every full row but the last one is a line of its own,
-- unless it consists of the first byte of the row before it (0 for the first row) and fifteen
-- zeros: then nothing is printed, or the line of dots, if the row before was not such a row. The
-- last row, of one to sixteen bytes, is always a line, and the length of the buffer follows.
pub amqp_dump-eq-spec :
    (rows : List (ℕ × List ℕ)) (l : ℕ) (last : List ℕ)
    → AreRows rows
    → length last < 16
    → amqp_dump (flat rows (l ∷ last)) ≡ dump_spec 0 0 false rows (l ∷ last)
unfolding amqp_dump
amqp_dump-eq-spec rows l last h k = dump_loop-rows rows l last 0 0 false [] h k

-- A dump that leaves nothing out.
abbrev pub plain_spec : ℕ → List (ℕ × List ℕ) → List ℕ → Text
plain_spec count [] last =
    dump_row (count + length last) last ++ (hex 8 (count + length last) ++ newline ∷ [])
plain_spec count ((ch, rest) ∷ rows) last =
    dump_row (count + 16) (ch ∷ rest) ++ plain_spec (count + 16) rows last

abbrev pub HaveMore : List (ℕ × List ℕ) → Type 0
HaveMore [] = Unit
HaveMore ((ch, rest) ∷ rows) = (rest ≢ replicate 15 0) × HaveMore rows

not-faint :
    (first ch : ℕ) (rest : List ℕ)
    → rest ≢ replicate 15 0
    → rows_eq (faint first) (ch ∷ rest) ≡ false
not-faint first ch rest h = elim (Bool-cases (rows_eq (faint first) (ch ∷ rest))) [
  | inl same ↦ absurd (h (ap tail (sym ((rows_eq_iff (faint first) (ch ∷ rest)).0 same))))
  | inr e ↦ e
]

dump_spec-plain :
    (rows : List (ℕ × List ℕ)) (last : List ℕ) (count first : ℕ) (shown : Bool)
    → HaveMore rows
    → dump_spec count first shown rows last ≡ plain_spec count rows last
dump_spec-plain [] last count first shown h = refl
dump_spec-plain ((ch, rest) ∷ rows) last count first shown (more, h) =
    rw (not-faint first ch rest more) (
      ap (λ t. dump_row (count + 16) (ch ∷ rest) ++ t)
        (dump_spec-plain rows last (count + 16) ch false h))

-- Rows that are not zero behind their first byte are all printed, however often they repeat: the
-- dots never stand for them.
pub amqp_dump-repeated_rows :
    (rows : List (ℕ × List ℕ)) (l : ℕ) (last : List ℕ)
    → AreRows rows
    → length last < 16
    → HaveMore rows
    → amqp_dump (flat rows (l ∷ last)) ≡ plain_spec 0 rows (l ∷ last)
amqp_dump-repeated_rows rows l last h k more =
    amqp_dump-eq-spec rows l last h k ∙ dump_spec-plain rows (l ∷ last) 0 0 false more
