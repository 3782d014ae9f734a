-- ===== src/Wifi/Property/RoundTrip.antt =====
-- `GetProperty` reads back a status text, line by line.
use kos_ce_extra.Prelude.{
  ℕ, zero, suc, ◌<◌, ◌≡◌, ◌≢◌, List, [], ◌∷◌, ◌++◌, none, some, if◌then◌else◌, Text, text_eq,
  length, length-append, Lacks, Lacks-append, before-append, after?-append, after?-of_Lacks, arith,
  Option-cases, inl, inr,
}
use kos_ce_extra.Prelude.Stream.{
  Stream, getline, getline-shorter, reading, getline-delim, getline-nothing,
}
use kos_ce_extra.Wifi.Property.{line_value, property_loop, get_property}

property_loop_total :
    (fuel : ℕ) (property : Text) (s : Stream)
    → length s.rest < fuel
    → property_loop fuel property s ≢ none
unfolding property_loop
property_loop_total zero property s h = elim h [ ]
property_loop_total (suc fuel) property s h = elim (Option-cases (getline 10 s)) [
  | inl e ↦ rw (property_loop, e) (λ p. cc)
  | inr ((line, s'), e) ↦
      let shorter = getline-shorter 10 s line s' e in
      let more = property_loop_total fuel property s' (omega arith) in
      rw (property_loop, e) (ground arith)
]

-- `GetProperty` always returns: its loop reads at least one byte each round.
get_property_total : (blob property : Text) → get_property blob property ≢ none
unfolding get_property
get_property_total blob property =
    property_loop_total (suc (length blob)) property (reading blob) (omega arith)

-- A line of a status: a property with its value, or a text without `=`.
pub data Line : Type 0 where
  pair : Text → Text → Line
  other : Text → Line

abbrev pub line_text : Line → Text
line_text (pair key val) = key ++ b'=' ∷ val
line_text (other s) = s

abbrev pub IsLine : Line → Type 0
IsLine (pair key val) = Lacks b'=' key × Lacks 10 key × Lacks 10 val
IsLine (other s) = Lacks b'=' s × Lacks 10 s

abbrev pub AreLines : List Line → Type 0
AreLines [] = Unit
AreLines (l ∷ ls) = IsLine l × AreLines ls

abbrev pub blob_of : List Line → Text
blob_of [] = []
blob_of (l ∷ ls) = line_text l ++ 10 ∷ blob_of ls

-- The first value of the property, or the empty text.
abbrev pub value_in : Text → List Line → Text
value_in property [] = []
value_in property (pair key val ∷ ls) = if text_eq key property then val else value_in property ls
value_in property (other s ∷ ls) = value_in property ls

line_text-Lacks : (l : Line) → IsLine l → Lacks 10 (line_text l)
line_text-Lacks (pair key val) (_, hk, hv) = Lacks-append 10 key (b'=' ∷ val) hk (omega arith, hv)
line_text-Lacks (other s) (_, h) = h

line_value-pair :
    (property key val : Text)
    → Lacks b'=' key
    → line_value property (key ++ b'=' ∷ val) ≡ (if text_eq key property then some val else none)
unfolding line_value
line_value-pair property key val h =
    rw (line_value, after?-append b'=' key val h, before-append b'=' key val h)

line_value-other : (property s : Text) → Lacks b'=' s → line_value property s ≡ none
unfolding line_value
line_value-other property s h = rw (line_value, after?-of_Lacks b'=' s h)

property_loop-line :
    (fuel : ℕ) (property : Text) (l : Line) (ls : List Line)
    → IsLine l
    → property_loop fuel property (reading (blob_of ls)) ≡ some (value_in property ls)
    → property_loop (suc fuel) property (reading (blob_of (l ∷ ls)))
      ≡ some (value_in property (l ∷ ls))
unfolding property_loop
property_loop-line fuel property (pair key val) ls h ih =
    rw
      (
        property_loop,
        getline-delim 10 (key ++ b'=' ∷ val) (blob_of ls) (line_text-Lacks (pair key val) h),
        line_value-pair property key val h.0,
      )
      (ground arith)
property_loop-line fuel property (other s) ls h ih =
    rw (property_loop, getline-delim 10 s (blob_of ls) h.1, line_value-other property s h.0) ih

property_loop-blob_of :
    (fuel : ℕ) (property : Text) (ls : List Line)
    → length (blob_of ls) < fuel
    → AreLines ls
    → property_loop fuel property (reading (blob_of ls)) ≡ some (value_in property ls)
unfolding property_loop
property_loop-blob_of zero property ls h k = elim h [ ]
property_loop-blob_of (suc fuel) property [] h k = ground (arith, getline-nothing 10)
property_loop-blob_of (suc fuel) property (l ∷ ls) h (k, ks) =
    let longer = length-append (line_text l) (10 ∷ blob_of ls) in
    property_loop-line fuel property l ls k
      (property_loop-blob_of fuel property ls (omega arith) ks)

-- From a status text of lines, each a property with its value or a text without `=`,
-- `GetProperty` reads the value of the first line with the property, whole, with every further
-- `=`, or the empty text where no line has it.
pub get_property-blob_of :
    (ls : List Line) (property : Text)
    → AreLines ls
    → get_property (blob_of ls) property ≡ some (value_in property ls)
unfolding get_property
get_property-blob_of ls property k =
    property_loop-blob_of (suc (length (blob_of ls))) property ls (omega arith) k
