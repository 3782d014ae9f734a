-- ===== src/Uvc/Jpeg/Positions.antt =====
-- What stands in a buffer from a position on.
use kos_ce_extra.Prelude.{
  ℕ, zero, suc, ◌+◌, some, List, [], ◌∷◌, ◌++◌, length, drop, get_elem?, ◌≡◌, refl, arith,
}

-- From the position `i` on, the buffer holds `s`.
pub record From (jpeg : List ℕ) (i : ℕ) (s : List ℕ) : Type 0 where
  pub rest : drop i jpeg ≡ s
  pub size : length jpeg ≡ i + length s

drop-suc :
    (jpeg : List ℕ) (i b : ℕ) (s : List ℕ)
    → drop i jpeg ≡ b ∷ s
    → (get_elem? jpeg i ≡ some b) × (drop (suc i) jpeg ≡ s)
drop-suc [] zero b s h = cc
drop-suc [] (suc i) b s h = cc
drop-suc (x ∷ jpeg) zero b s h = (cc, cc)
drop-suc (x ∷ jpeg) (suc i) b s h = drop-suc jpeg i b s h

pub From-whole : (jpeg : List ℕ) → From jpeg 0 jpeg
From-whole jpeg = record { rest = refl; size = omega arith }

module _ (jpeg : List ℕ) where
  pub From-byte : (i b : ℕ) (s : List ℕ) → From jpeg i (b ∷ s) → get_elem? jpeg i ≡ some b
  From-byte i b s h = (drop-suc jpeg i b s h.rest).0

  pub From-next : (i b : ℕ) (s : List ℕ) → From jpeg i (b ∷ s) → From jpeg (i + 1) s
  From-next i b s h =
      let same : suc i ≡ i + 1 = omega arith in
      record { rest = rw same at ((drop-suc jpeg i b s h.rest).1); size = omega (arith, h.size) }

  pub From-skip : (i : ℕ) (p s : List ℕ) → From jpeg i (p ++ s) → From jpeg (i + length p) s
  From-skip i [] s h = let same : i + 0 ≡ i = omega arith in rw same h
  From-skip i (b ∷ p) s h =
      let same : i + 1 + length p ≡ i + suc (length p) = omega arith in
      rw same at (From-skip (i + 1) p s (From-next i b (p ++ s) h))
