-- ===== src/Cellular/Pdu/Packing.antt =====
-- The text of a message: what the loop over its bits leaves in the buffer, and how it is read
-- back.
use Prim.Native.Nat.{bit_or}
use native.Mathlib.Nat.{add-zero}
use kos_ce_extra.Prelude.{
  ℕ, zero, suc, ◌+◌, ◌*◌, ◌/◌, ◌%◌, ◌^◌, ◌<◌, ◌≤◌, List, [], ◌∷◌, ◌++◌, length, length-append, take,
  drop, replicate, All, All-append, append-nil, append_assoc, Text, ◌⊎◌, inl, inr, ◌≡◌, refl, sym,
  ap, ◌∙◌, arith,
}
use kos_ce_extra.Cellular.Memory.{Outcome, done, ◌>>=◌, >>=-assoc, modify}
use kos_ce_extra.Cellular.Pdu.{u8, char_bit, pack_text}
use kos_ce_extra.Cellular.Pdu.Bits.{
  value, bits, IsBit, value-snoc, value_bound, or_bit, char_bit_lem,
}

-- The loop over bits, whatever characters they come from.
pub put_bits : List ℕ → ℕ → List ℕ → Outcome (List ℕ)
put_bits [] n pdu = done pdu
put_bits (x ∷ s) n pdu =
    modify (n / 8) (λ b. u8 (bit_or b (x * 2 ^ (n % 8)))) pdu >>= λ pdu'. put_bits s (suc n) pdu'

-- The bits of a text, seven for each character.
abbrev pub stream : Text → List ℕ
stream [] = []
stream (c ∷ text) = bits 7 c ++ stream text

-- The same bits in bytes, eight in each; the last byte is filled up with zeros.
abbrev pub packed : ℕ → List ℕ → List ℕ
packed zero s = []
packed (suc n) s = value (take 8 s) ∷ packed n (drop 8 s)

put_bits-append :
    (s t : List ℕ) (n : ℕ) (pdu : List ℕ)
    → put_bits (s ++ t) n pdu ≡ (put_bits s n pdu >>= λ pdu'. put_bits t (n + length s) pdu')
unfolding put_bits
put_bits-append [] t n pdu = rw add-zero
put_bits-append (x ∷ s) t n pdu =
    let there : n + suc (length s) ≡ suc n + length s = omega arith in
    rw there (simp (>>=-assoc, put_bits-append s t))

pub pack_text-put_bits :
    (text : Text) (n : ℕ) (pdu : List ℕ)
    → All (λ c. c < 256) text
    → pack_text text n pdu ≡ put_bits (stream text) n pdu
unfolding pack_text put_bits
pack_text-put_bits [] n pdu h = refl
pack_text-put_bits (c ∷ text) n pdu (h, hs) =
    let bit0 : char_bit c 0 ≡ c % 2 = omega (arith, char_bit_lem c 0) in
    let bit1 : char_bit c 1 ≡ c / 2 % 2 = omega (arith, char_bit_lem c 1) in
    let bit2 : char_bit c 2 ≡ c / 2 / 2 % 2 = omega (arith, char_bit_lem c 2) in
    let bit3 : char_bit c 3 ≡ c / 2 / 2 / 2 % 2 = omega (arith, char_bit_lem c 3) in
    let bit4 : char_bit c 4 ≡ c / 2 / 2 / 2 / 2 % 2 = omega (arith, char_bit_lem c 4) in
    let bit5 : char_bit c 5 ≡ c / 2 / 2 / 2 / 2 / 2 % 2 = omega (arith, char_bit_lem c 5) in
    let bit6 : char_bit c 6 ≡ c / 2 / 2 / 2 / 2 / 2 / 2 % 2 = omega (arith, char_bit_lem c 6) in
    rw (bit0, bit1, bit2, bit3, bit4, bit5, bit6)
      (simp (>>=-assoc, λ (m : ℕ) (d : List ℕ). pack_text-put_bits text m d hs))

pub modify-append :
    (pre : List ℕ) (b : ℕ) (post : List ℕ) (k : ℕ) (f : ℕ → ℕ)
    → k ≡ length pre
    → modify k f (pre ++ b ∷ post) ≡ done (pre ++ f b ∷ post)
unfolding modify
modify-append [] b post zero f e = refl
modify-append [] b post (suc k) f e = absurd (omega arith)
modify-append (x ∷ pre) b post zero f e = absurd (omega arith)
modify-append (x ∷ pre) b post (suc k) f e = rw (modify-append pre b post k f (omega arith))

-- At most eight bits go into one byte.
put_bits-byte :
    (s acc pre post : List ℕ) (n : ℕ)
    → n ≡ 8 * length pre + length acc
    → length acc + length s ≤ 8
    → All IsBit acc
    → All IsBit s
    → put_bits s n (pre ++ value acc ∷ post) ≡ done (pre ++ value (acc ++ s) ∷ post)
unfolding put_bits
put_bits-byte [] acc pre post n e le ha hs = rw append-nil
put_bits-byte (x ∷ s) acc pre post n e le ha (hx, hs) =
    let byte : n / 8 ≡ length pre = omega arith in
    let place : n % 8 ≡ length acc = omega arith in
    let filled =
      or_bit (value acc) x (length acc) (omega arith) (value_bound acc ha) hx
      ∙ sym (value-snoc acc x) in
    let ih =
      put_bits-byte s (acc ++ x ∷ []) pre post (suc n)
        (omega (arith, length-append {0} acc (x ∷ [])))
        (omega (arith, length-append {0} acc (x ∷ []))) (All-append IsBit acc (x ∷ []) ha (hx, tt))
        hs in
    rw (modify-append pre (value acc) post (n / 8) _ byte, place, filled, ih, append_assoc)

pub take-drop : (n : ℕ) (s : List ℕ) → take n s ++ drop n s ≡ s
take-drop zero s = refl
take-drop (suc n) [] = refl
take-drop (suc n) (x ∷ s) = ap (λ (l : List ℕ). x ∷ l) (take-drop n s)

-- A full byte, or the last one.
pub take-drop_cases :
    (n : ℕ) (s : List ℕ) → (length (take n s) ≤ n) × ((length (take n s) ≡ n) ⊎ (drop n s ≡ []))
take-drop_cases zero s = (omega arith, inl refl)
take-drop_cases (suc n) [] = (omega arith, inr refl)
take-drop_cases (suc n) (x ∷ s) = ground (arith, take-drop_cases n s)

pub length-drop : (n : ℕ) (s : List ℕ) → length (drop n s) + n ≤ length s ⊎ (drop n s ≡ [])
length-drop zero s = inl (omega arith)
length-drop (suc n) [] = inr refl
length-drop (suc n) (x ∷ s) = ground (arith, length-drop n s)

pub All-take : (n : ℕ) (s : List ℕ) → All IsBit s → All IsBit (take n s) × All IsBit (drop n s)
All-take zero s h = (tt, h)
All-take (suc n) [] h = (tt, tt)
All-take (suc n) (x ∷ s) (h, hs) = let (k, l) = All-take n s hs in ((h, k), l)

put_bits-first :
    (l r pre rest : List ℕ) (n : ℕ)
    → n ≡ 8 * length pre
    → (length l ≤ 8) × ((length l ≡ 8) ⊎ (r ≡ []))
    → All IsBit l
    → put_bits (l ++ r) n (pre ++ 0 ∷ rest) ≡ put_bits r (n + 8) (pre ++ value l ∷ rest)
put_bits-first l r pre rest n e (le, full) h =
    put_bits-append l r n (pre ++ 0 ∷ rest)
    ∙ rw (put_bits-byte l [] pre rest n (omega arith) (omega arith) tt h) (last full)
  where
    last :
        ((length l ≡ 8) ⊎ (r ≡ []))
        → put_bits r (n + length l) (pre ++ value l ∷ rest)
          ≡ put_bits r (n + 8) (pre ++ value l ∷ rest)
    last (inl full) = rw full
    last (inr none_left) = rw none_left (unfold put_bits in refl)

pub put_bits-packed :
    (z : ℕ) (s pre post : List ℕ) (n : ℕ)
    → n ≡ 8 * length pre
    → length s ≤ 8 * z
    → All IsBit s
    → put_bits s n (pre ++ (replicate z 0 ++ post)) ≡ done (pre ++ (packed z s ++ post))
put_bits-packed zero [] pre post n e le h = unfold put_bits in refl
put_bits-packed zero (x ∷ s) pre post n e le h = absurd (omega arith)
put_bits-packed (suc z) s pre post n e le h =
    let (low, high) = All-take 8 s h in
    let ih =
      put_bits-packed z (drop 8 s) (pre ++ value (take 8 s) ∷ []) post (n + 8)
        (omega (arith, length-append {0} pre (value (take 8 s) ∷ [])))
        (ground (arith, length-drop 8 s)) high in
    ap (λ (l : List ℕ). put_bits l n (pre ++ 0 ∷ (replicate z 0 ++ post))) (sym (take-drop 8 s))
    ∙ (put_bits-first (take 8 s) (drop 8 s) pre (replicate z 0 ++ post) n e (take-drop_cases 8 s)
          low
        ∙ (simp append_assoc at ih))
