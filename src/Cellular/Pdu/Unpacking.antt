-- ===== src/Cellular/Pdu/Unpacking.antt =====
-- The packed bits of a text read back as the text.
use native.Mathlib.Nat.{add-zero}
use mathlib.Core.Path.{subst}
use kos_ce_extra.Prelude.{
  ℕ, zero, suc, ◌+◌, ◌*◌, ◌%◌, ◌<◌, ◌≤◌, List, [], ◌∷◌, ◌++◌, length, take, drop, replicate, All,
  All-append, append_assoc, append-nil, Text, ◌-◌, ◌⊎◌, inl, inr, ◌≡◌, refl, ap, ◌∙◌, arith,
}
use kos_ce_extra.Cellular.Pdu.Bits.{value, bits, IsBit, bits-value}
use kos_ce_extra.Cellular.Pdu.Packing.{
  stream, packed, take-drop, take-drop_cases, All-take, length-drop,
}
use kos_ce_extra.Cellular.Pdu.Reading.{unbits, septets}

abbrev pub IsAscii : ℕ → Type 0
IsAscii c = c < 128

pub stream-IsBit : (text : Text) → All IsBit (stream text)
stream-IsBit [] = tt
stream-IsBit (c ∷ text) =
    let bit : (v : ℕ) → IsBit (v % 2) = λ v. omega arith in
    All-append IsBit (bits 7 c) (stream text)
      (bit _, (bit _, (bit _, (bit _, (bit _, (bit _, (bit _, tt))))))) (stream-IsBit text)

pub length-stream : (text : Text) → length (stream text) ≡ 7 * length text
length-stream [] = refl
length-stream (c ∷ text) = omega (arith, length-stream text)

pub length-packed : (z : ℕ) (s : List ℕ) → length (packed z s) ≡ z
length-packed zero s = refl
length-packed (suc z) s = ap suc (length-packed z (drop 8 s))

bits-value_part :
    (l : List ℕ) → length l ≤ 8 → All IsBit l → (pad : List ℕ) × (bits 8 (value l) ≡ l ++ pad)
bits-value_part l e h =
    let rest = 8 - length l in
    let whole : length l + rest ≡ 8 = omega arith in
    (
      replicate rest 0,
      subst (λ w. bits w (value l) ≡ l ++ replicate rest 0) whole (bits-value l rest h),
    )

-- A byte that is full, or the last one, in front of what follows it.
unbits-first :
    (l r pad : List ℕ)
    → (length l ≤ 8) × ((length l ≡ 8) ⊎ (r ≡ []))
    → All IsBit l
    → (pad' : List ℕ) × (bits 8 (value l) ++ (r ++ pad) ≡ (l ++ r) ++ pad')
unbits-first l r pad (le, inl full) h =
    let exact : bits 8 (value l) ≡ l =
      subst (λ w. bits w (value l) ≡ l) full (simp (add-zero, append-nil) at (bits-value l 0 h)) in
    (pad, ap (λ (m : List ℕ). m ++ (r ++ pad)) exact ∙ simp append_assoc)
unbits-first l r pad (le, inr last) h =
    let (zeros, e) = bits-value_part l le h in
    (
      zeros ++ pad,
      ap (λ (m : List ℕ). m ++ (r ++ pad)) e ∙ rw last (simp (append_assoc, append-nil)),
    )

unbits-packed :
    (z : ℕ) (s post : List ℕ)
    → length s ≤ 8 * z
    → All IsBit s
    → (pad : List ℕ) × (unbits (packed z s ++ post) ≡ s ++ pad)
unfolding unbits
unbits-packed zero [] post le h = (unbits post, refl)
unbits-packed zero (x ∷ s) post le h = absurd (omega arith)
unbits-packed (suc z) s post le h =
    let (low, high) = All-take 8 s h in
    let (pad, e) = unbits-packed z (drop 8 s) post (ground (arith, length-drop 8 s)) high in
    let (pad', e') = unbits-first (take 8 s) (drop 8 s) pad (take-drop_cases 8 s) low in
    (pad', rw (unbits, e, e') (ap (λ (l : List ℕ). l ++ pad') (take-drop 8 s)))

septets-stream :
    (text : Text) (r : List ℕ) → All IsAscii text → septets (length text) (stream text ++ r) ≡ text
unfolding septets
septets-stream [] r h = refl
septets-stream (c ∷ text) r (h, hs) =
    let whole : value (bits 7 c) ≡ c = omega arith in rw (whole, septets-stream text r hs)

pub septets-packed :
    (text : Text) (z : ℕ) (post : List ℕ)
    → 7 * length text ≤ 8 * z
    → All IsAscii text
    → septets (length text) (unbits (packed z (stream text) ++ post)) ≡ text
septets-packed text z post le h =
    let (pad, e) =
      unbits-packed z (stream text) post (omega (arith, length-stream text)) (stream-IsBit text) in
    rw e (septets-stream text pad h)
