-- ===== src/Cellular/Pdu/Bits.antt =====
-- Bits as lists, lowest first, and the bit operations of cellular/mbim_sms/client/src/main.c on
-- bytes.
use Prim.Native.Nat.{bit_or}
use Prim.Native.Nat.add
use kos_ce_extra.Prelude.{
  ℕ, zero, suc, ◌+◌, ◌*◌, ◌/◌, ◌%◌, ◌^◌, ◌<◌, bit_and, true, not, ◌||◌, List, [], ◌∷◌, ◌++◌, length,
  replicate, All, ltb, leb, leb→le, ◌==◌, ==_iff, ◌≡◌, refl, ap, arith,
}
use kos_ce_extra.Prelude.Tables.{all_below, all_below_sound}
use kos_ce_extra.Cellular.Pdu.{u8, nibble, char_bit}
use native.Mathlib.Nat.{pow-suc}

abbrev pub value : List ℕ → ℕ
value [] = 0
value (x ∷ bs) = x + 2 * value bs

abbrev pub bits : ℕ → ℕ → List ℕ
bits zero v = []
bits (suc w) v = v % 2 ∷ bits w (v / 2)

abbrev pub IsBit : ℕ → Type 0
IsBit x = x < 2

pub value-snoc : (bs : List ℕ) (x : ℕ) → value (bs ++ x ∷ []) ≡ value bs + x * 2 ^ length bs
value-snoc [] x = omega arith
value-snoc (b ∷ bs) x =
    omega
      (arith, value-snoc bs x, pow-suc 2 (length bs), ap (λ (t : ℕ). x * t) (pow-suc 2 (length bs)))

pub value_bound : (bs : List ℕ) → All IsBit bs → value bs < 2 ^ length bs
value_bound [] h = omega arith
value_bound (b ∷ bs) (h, hs) = omega (arith, value_bound bs hs, pow-suc 2 (length bs))

bits-zero : (w : ℕ) → bits w 0 ≡ replicate w 0
bits-zero zero = refl
bits-zero (suc w) = ap (λ (l : List ℕ). 0 ∷ l) (bits-zero w)

-- The bits of a value are the bits that it was made of, and zeros.
pub bits-value :
    (bs : List ℕ) (w : ℕ) → All IsBit bs → bits (length bs + w) (value bs) ≡ bs ++ replicate w 0
bits-value [] w h = rw add-zero' (bits-zero w)
  where
    add-zero' : 0 + w ≡ w
    add-zero' = omega arith
bits-value (b ∷ bs) w (h, hs) =
    let low : (b + 2 * value bs) % 2 ≡ b = omega arith in
    let high : (b + 2 * value bs) / 2 ≡ value bs = omega arith in
    rw (add.suc, low, high) (ap (λ (l : List ℕ). b ∷ l) (bits-value bs w hs))

or_table :
    all_below 8 (λ p.
      all_below 128 (λ b.
        all_below 2 (λ x. not (ltb b (2 ^ p)) || (u8 (bit_or b (x * 2 ^ p)) == b + x * 2 ^ p))))
    ≡ true
unfolding all_below
or_table = refl

power_table : all_below 8 (λ p. leb (2 ^ p) 128) ≡ true
unfolding all_below
power_table = refl

pub or_bit : (b x p : ℕ) → p < 8 → b < 2 ^ p → x < 2 → u8 (bit_or b (x * 2 ^ p)) ≡ b + x * 2 ^ p
or_bit b x p hp hb hx =
    let small = leb→le _ _ (all_below_sound 8 _ p power_table hp) in
    let row = all_below_sound 128 _ b (all_below_sound 8 _ p or_table hp) (omega arith) in
    let cell = all_below_sound 2 _ x row hx in ground arith

char_bit_table : all_below 256 (λ c. all_below 7 (λ j. char_bit c j == (c / 2 ^ j) % 2)) ≡ true
unfolding all_below char_bit
char_bit_table = refl

pub char_bit_lem : (c j : ℕ) → c < 256 → j < 7 → char_bit c j ≡ (c / 2 ^ j) % 2
char_bit_lem c j hc hj =
    (==_iff _ _).0 (all_below_sound 7 _ j (all_below_sound 256 _ c char_bit_table hc) hj)

even_table : all_below 10 (λ c. bit_or 0xf0 c == 240 + c) ≡ true
unfolding all_below
even_table = refl

odd_table :
    all_below 10 (λ d.
      all_below 10 (λ e. bit_or (bit_and (240 + d) 0x0f) (bit_and (e * 2 ^ 4) 0xf0) == d + e * 16))
    ≡ true
unfolding all_below
odd_table = refl

pub nibble_even : (i c b : ℕ) → i % 2 ≡ 0 → c < 10 → nibble i c b ≡ 240 + c
unfolding nibble
nibble_even i c b e h = rw e ((==_iff _ _).0 (all_below_sound 10 _ c even_table h))

pub nibble_odd : (i d e : ℕ) → i % 2 ≡ 1 → d < 10 → e < 10 → nibble i e (240 + d) ≡ d + e * 16
unfolding nibble
nibble_odd i d e odd hd he =
    rw odd ((==_iff _ _).0 (all_below_sound 10 _ e (all_below_sound 10 _ d odd_table hd) he))
