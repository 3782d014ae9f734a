-- ===== src/Prelude/Tables.antt =====
-- Facts about small numbers, by evaluation at each of them.
use Prim.Native.Nat.{ℕ, zero, suc, ◌<◌}
use mathlib.Core.Path.{◌≡◌}
use mathlib.Core.Bool.{Bool, true, ◌&&◌}
use native.Mathlib.Omega.{arith}

unfoldable pub all_below : ℕ → (ℕ → Bool) → Bool
all_below zero test = true
all_below (suc last) test = test last && all_below last test

pub all_below_sound :
    (bound : ℕ) (test : ℕ → Bool) (m : ℕ) → all_below bound test ≡ true → m < bound → test m ≡ true
unfolding all_below
all_below_sound (suc last) test m passed small = ground (arith, all_below_sound last test m)
all_below_sound zero test m passed none_below = absurd (omega (arith, none_below))
