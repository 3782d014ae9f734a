-- ===== src/Prelude/Stream.antt =====
-- `std::getline` over a `std::stringstream`.
use Prim.Native.Nat.{ℕ, ◌<◌}
use mathlib.Core.Path.{◌≡◌, refl}
use mathlib.Core.Bool.{Bool, true, false}
use mathlib.Core.List.{[], ◌∷◌, ◌++◌}
use mathlib.Core.Logic.{inl, inr}
use mathlib.Core.Option.{Option, none, some}
use native.Mathlib.Omega.{arith}
use kos_ce_extra.Prelude.Tests.{if◌then◌else◌, Option-cases}
use kos_ce_extra.Prelude.Lists.{length}
use kos_ce_extra.Prelude.Bytes.{
  Text, before, after?, Lacks, before-append, after?-append, after?-of_Lacks,
}

-- What is left to read, and whether the end has been met.
pub record Stream : Type 0 where
  pub rest : Text
  pub eof : Bool

-- A line and the stream behind it; `none` is a stream that turns false. A line that stops at the
-- end, not at the delimiter, sets `eof`; with nothing left to read there is no line.
unfoldable pub getline : ℕ → Stream → Option (Text × Stream)
unfolding before after?
getline delim s = if s.eof then none else elim (after? delim s.rest) [
  | some r ↦ some (before delim s.rest, record { rest = r; eof = false })
  | none ↦ elim s.rest [ [] ↦ none | x ∷ r ↦ some (x ∷ r, record { rest = []; eof = true }) ]
]

length-after? : (c : ℕ) (s r : Text) → after? c s ≡ some r → length r < length s
unfolding after?
length-after? c [] r h = cc
length-after? c (x ∷ s) r h = ground (arith, length-after? c s r)

pub getline-shorter :
    (c : ℕ) (s : Stream) (line : Text) (s' : Stream)
    → getline c s ≡ some (line, s')
    → length s'.rest < length s.rest
unfolding getline
getline-shorter c s line s' h = elim (Option-cases (after? c s.rest)) [
  | inl e ↦ ground arith
  | inr (r, e) ↦ ground (arith, length-after? c s.rest r e)
]

abbrev pub reading : Text → Stream
reading s = record { rest = s; eof = false }

pub getline-delim :
    (c : ℕ) (s r : Text) → Lacks c s → getline c (reading (s ++ c ∷ r)) ≡ some (s, reading r)
unfolding getline
getline-delim c s r h = rw (after?-append c s r h, before-append c s r h)

pub getline-last :
    (c x : ℕ) (s : Text)
    → Lacks c (x ∷ s)
    → getline c (reading (x ∷ s)) ≡ some (x ∷ s, record { rest = []; eof = true })
unfolding getline
getline-last c x s h = rw (after?-of_Lacks c (x ∷ s) h)

pub getline-end : (c : ℕ) → getline c (record { rest = []; eof = true }) ≡ none
unfolding getline
getline-end c = refl

pub getline-nothing : (c : ℕ) → getline c (reading []) ≡ none
unfolding getline after?
getline-nothing c = refl
