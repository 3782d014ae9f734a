-- ===== src/Prelude/Decimal.antt =====
-- `std::to_string` of a number, and the number that a decimal text stands for.
use Prim.Native.Nat.{ℕ, zero, suc, ◌+◌, ◌-◌, ◌*◌, ◌/◌, ◌%◌, ◌^◌, ◌<◌}
use mathlib.Core.Path.{◌≡◌, refl}
use mathlib.Core.List.{[], ◌∷◌, ◌++◌}
use native.Mathlib.Nat.{pow-suc}
use native.Mathlib.Omega.{arith}
use kos_ce_extra.Prelude.Tests.{ltb, if◌then◌else◌}
use kos_ce_extra.Prelude.Bytes.{Text, Lacks, Lacks-append}

unfoldable pub digits_of : ℕ → ℕ → Text
digits_of zero n = []
digits_of (suc fuel) n =
    let more = digits_of fuel (n / 10) in
    if ltb n 10 then (b'0' + n) ∷ [] else more ++ (b'0' + n % 10) ∷ []

-- Twenty digits hold a 64-bit number.
unfoldable pub decimal : ℕ → Text
unfolding digits_of
decimal n = digits_of 20 n

abbrev pub number_from : ℕ → Text → ℕ
number_from acc [] = acc
number_from acc (d ∷ s) = number_from (acc * 10 + (d - b'0')) s

abbrev pub number : Text → ℕ
number s = number_from 0 s

number_from-snoc :
    (acc : ℕ) (s : Text) (d : ℕ)
    → number_from acc (s ++ d ∷ []) ≡ number_from acc s * 10 + (d - b'0')
number_from-snoc acc [] d = refl
number_from-snoc acc (e ∷ s) d = number_from-snoc (acc * 10 + (e - b'0')) s d

div_bound : (n fuel : ℕ) → n < 10 ^ suc fuel → n / 10 < 10 ^ fuel
div_bound n fuel h = omega (arith, pow-suc 10 fuel)

number-digits_of : (fuel n : ℕ) → n < 10 ^ fuel → number (digits_of fuel n) ≡ n
unfolding digits_of
number-digits_of zero n h = omega arith
number-digits_of (suc fuel) n h =
    let ih = number-digits_of fuel (n / 10) (div_bound n fuel h) in
    let snoc = number_from-snoc 0 (digits_of fuel (n / 10)) (b'0' + n % 10) in ground arith

pub number-decimal : (n : ℕ) → n < 10 ^ 20 → number (decimal n) ≡ n
unfolding decimal
number-decimal n h = number-digits_of 20 n h

digits_of-Lacks : (fuel n c : ℕ) → c < b'0' → Lacks c (digits_of fuel n)
unfolding digits_of
digits_of-Lacks zero n c h = tt
digits_of-Lacks (suc fuel) n c h = ground (
  arith,
  digits_of-Lacks fuel (n / 10) c,
  Lacks-append c (digits_of fuel (n / 10)) ((b'0' + n % 10) ∷ []),
)

-- No digit is a character below `0`, such as a dot or a minus sign.
pub decimal-Lacks : (n c : ℕ) → c < b'0' → Lacks c (decimal n)
unfolding decimal
decimal-Lacks n c h = digits_of-Lacks 20 n c h
