-- ===== src/Prelude/Bytes.antt =====
-- Texts as lists of bytes: the programs walk their strings byte by byte.
use Prim.Native.Nat.{ℕ}
use Prim.Native.Char.{code}
use Prim.Native.String.{String}
use mathlib.Core.Path.{◌≡◌, refl}
use mathlib.Core.Logic.{◌↔◌, ◌≢◌}
use mathlib.Core.Bool.{Bool, true, false, ◌&&◌}
use mathlib.Core.List.{List, [], ◌∷◌, ◌++◌}
use mathlib.Core.Option.{Option, none, some}
use native.Mathlib.Omega.{arith}
use kos_ce_extra.Prelude.Tests.{◌==◌, if◌then◌else◌}

abbrev pub Text : Type 0
Text = List ℕ

-- The code points of a literal: its bytes, since every literal of the programs is ASCII.
abbrev pub codes : String → Text
codes String.[] = []
codes (String.◌∷◌ c s) = code c ∷ codes s

-- `std::string::operator==`.
unfoldable pub text_eq : Text → Text → Bool
text_eq [] [] = true
text_eq (a ∷ x) (b ∷ y) = a == b && text_eq x y
text_eq _ _ = false

pub text_eq_sound : (x y : Text) → text_eq x y ≡ true → x ≡ y
unfolding text_eq
text_eq_sound [] [] h = refl
text_eq_sound [] (b ∷ y) h = cc
text_eq_sound (a ∷ x) [] h = cc
text_eq_sound (a ∷ x) (b ∷ y) h = ground (arith, text_eq_sound x y)

pub text_eq_refl : (x : Text) → text_eq x x ≡ true
unfolding text_eq
text_eq_refl [] = refl
text_eq_refl (a ∷ x) = ground (arith, text_eq_refl x)

pub text_eq_iff : (x y : Text) → (text_eq x y ≡ true) ↔ (x ≡ y)
text_eq_iff x y = (text_eq_sound x y, λ e. rw e (text_eq_refl y))

-- `find(c)` and `substr(0, find(c))`: the text before the first `c`, or all of it.
unfoldable pub before : ℕ → Text → Text
before c [] = []
before c (x ∷ s) = if x == c then [] else x ∷ before c s

-- The text behind the first `c`, where there is one.
unfoldable pub after? : ℕ → Text → Option Text
after? c [] = none
after? c (x ∷ s) = if x == c then some s else after? c s

-- No byte of the text is `c`.
abbrev pub Lacks : ℕ → Text → Type 0
Lacks c [] = Unit {0}
Lacks c (x ∷ s) = (x ≢ c) × Lacks c s

pub before-append : (c : ℕ) (s r : Text) → Lacks c s → before c (s ++ c ∷ r) ≡ s
unfolding before
before-append c [] r h = ground arith
before-append c (x ∷ s) r h = ground (arith, before-append c s r h.1)

pub after?-append : (c : ℕ) (s r : Text) → Lacks c s → after? c (s ++ c ∷ r) ≡ some r
unfolding after?
after?-append c [] r h = ground arith
after?-append c (x ∷ s) r h = ground (arith, after?-append c s r h.1)

pub before-of_Lacks : (c : ℕ) (s : Text) → Lacks c s → before c s ≡ s
unfolding before
before-of_Lacks c [] h = refl
before-of_Lacks c (x ∷ s) h = ground (arith, before-of_Lacks c s h.1)

pub after?-of_Lacks : (c : ℕ) (s : Text) → Lacks c s → after? c s ≡ none
unfolding after?
after?-of_Lacks c [] h = refl
after?-of_Lacks c (x ∷ s) h = ground (arith, after?-of_Lacks c s h.1)

pub before-Lacks : (c : ℕ) (s : Text) → Lacks c (before c s)
unfolding before
before-Lacks c [] = tt
before-Lacks c (x ∷ s) = ground (arith, before-Lacks c s)

pub Lacks-append : (c : ℕ) (s r : Text) → Lacks c s → Lacks c r → Lacks c (s ++ r)
Lacks-append c [] r h k = k
Lacks-append c (x ∷ s) r (p, h) k = (p, Lacks-append c s r h k)

pub not-Lacks-middle : (c : ℕ) (s r : Text) → ¬ Lacks c (s ++ c ∷ r)
not-Lacks-middle c [] r h = h.0 refl
not-Lacks-middle c (x ∷ s) r h = not-Lacks-middle c s r h.1

pub Lacks-split : (c : ℕ) (s r : Text) → Lacks c (s ++ r) → Lacks c s × Lacks c r
Lacks-split c [] r h = (tt, h)
Lacks-split c (x ∷ s) r (p, h) = let (k, l) = Lacks-split c s r h in ((p, k), l)
