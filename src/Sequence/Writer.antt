-- ===== src/Sequence/Writer.antt =====
-- The sequences and the writer (sequence/resources/include/seq.h, sequence/writer/src/writer.cpp) in
-- front of the reader (sequence/reader/src/reader.cpp), behind the security policy
-- (sequence/einit/src/security.psl).
pub mod Rounds
use kos_ce_extra.Prelude.{
  ℕ, zero, suc, ◌+◌, ◌%◌, ◌^◌, Bool, Option, none, some, List, [], ◌∷◌, ◌++◌, length, Text, codes,
  ltb, ◌==◌, if◌then◌else◌,
}
use kos_ce_extra.Prelude.Decimal.{decimal}

-- The constants of SequenceLogging.idl.
abbrev pub min_sequence_length : ℕ
min_sequence_length = 1

abbrev pub max_sequence_length : ℕ
max_sequence_length = 10

abbrev pub max_security_granted_sequence_length : ℕ
max_security_granted_sequence_length = 7

-- `std::iota` over `n` numbers of 32 bits.
unfoldable pub iota : ℕ → ℕ → List ℕ
iota zero value = []
iota (suc n) value = value ∷ iota n ((value + 1) % 2 ^ 32)

unfoldable pub make_seq : ℕ → ℕ → List ℕ
unfolding iota
make_seq size value = iota size value

-- `operator<<`: every number but the last one is followed by `, `.
unfoldable pub show_items : List ℕ → Text
show_items [] = []
show_items (x ∷ []) = decimal x
show_items (x ∷ y ∷ seq) = decimal x ++ (codes ", " ++ show_items (y ∷ seq))

unfoldable pub show_seq : List ℕ → Text
unfolding show_items
show_seq seq = codes "[" ++ (show_items seq ++ codes "]")

-- A line of the reader or of the writer.
pub data Line : Type 0 where
  received : Text → Line
  went_wrong : Line
  expected : Line
  failed : Text → Line

-- What `LogSequence` throws in the writer: the policy's denial of a long sequence, with the text
-- `denial`, or what the transport says of a sequence that the policy grants.
unfoldable pub log_sequence : Text → (List ℕ → Option Text) → List ℕ → Option Text
log_sequence denial transport seq = if ltb 7 (length seq) then some denial else transport seq

-- `TryLogSequence`: the lines of both programs.
unfoldable pub try_log_sequence : Text → (List ℕ → Option Text) → List ℕ → List Line
unfolding log_sequence show_seq
try_log_sequence denial transport seq = elim (log_sequence denial transport seq) [
  | none ↦
      received (show_seq seq)
      ∷ (if ltb max_security_granted_sequence_length (length seq) then went_wrong ∷ [] else [])
  | some what ↦
      (if ltb max_security_granted_sequence_length (length seq) then expected else failed what) ∷ []
]

-- The first rounds of the endless loop of `Example`, from the length `i` on.
unfoldable pub example_rounds : Text → (List ℕ → Option Text) → ℕ → ℕ → List (List Line)
unfolding try_log_sequence make_seq
example_rounds denial transport zero i = []
example_rounds denial transport (suc rounds) i =
    try_log_sequence denial transport (make_seq i 1)
    ∷ example_rounds denial transport rounds
        (if i == max_sequence_length then min_sequence_length else i + 1)
