-- ===== src/CAres/Address.antt =====
-- The text of an IPv4 address: `Resolver::OnResolved` of resolver/src/resolver.cpp, lines 20-39.
pub mod RoundTrip
use kos_ce_extra.Prelude.{
  ℕ, ◌+◌, ◌-◌, Bool, true, false, List, [], ◌∷◌, ◌++◌, ltb, ◌&&◌, not, if◌then◌else◌, Text, codes,
  Option, none, some,
}
use kos_ce_extra.Prelude.Decimal.{decimal}

-- `std::to_string` of a `char` with the bits of a byte: where `char` is signed, the bytes from 128
-- on stand for negative numbers.
unfoldable pub char_text : Bool → ℕ → Text
char_text is_signed b = if is_signed && not (ltb b 128) then b'-' ∷ decimal (256 - b) else decimal b

-- The loop over the octets, and `pop_back`.
unfoldable pub dotted : Bool → List ℕ → Text
dotted is_signed [] = []
dotted is_signed (b ∷ bs) = char_text is_signed b ++ (b'.' ∷ dotted is_signed bs)

unfoldable pub pop_back : Text → Text
pop_back [] = []
pop_back (x ∷ []) = []
pop_back (x ∷ y ∷ s) = x ∷ pop_back (y ∷ s)

unfoldable pub address : Bool → List ℕ → Text
address is_signed octets = pop_back (dotted is_signed octets)

-- `hostent`, as far as it is read.
pub record Hostent : Type 0 where
  pub name : Text
  pub octets : List ℕ

-- The two arguments of `callback->OnResolve`; `ok` tells whether the status is `ARES_SUCCESS`.
unfoldable pub answer : Bool → Text → Bool → Option Hostent → Text × Text
answer is_signed asked ok none = (asked, codes "Lookup failed")
answer is_signed asked ok (some host) =
    if ok then (host.name, address is_signed host.octets) else (asked, codes "Lookup failed")
