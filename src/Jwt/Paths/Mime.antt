-- ===== src/Jwt/Paths/Mime.antt =====
-- The media type depends on what stands behind the last dot alone.
use kos_ce_extra.Prelude.{ℕ, ◌≡◌, refl, Bool, [], ◌∷◌, ◌++◌, Text, Lacks, arith}
use kos_ce_extra.Jwt.Paths.{from_last, mime_of, get_mime_type, mime_table}

from_last_of_Lacks : (c : ℕ) (s : Text) → Lacks c s → from_last c s ≡ []
unfolding from_last
from_last_of_Lacks c [] h = refl
from_last_of_Lacks c (x ∷ s) h = ground (arith, from_last_of_Lacks c s h.1)

from_last_here : (c : ℕ) (ext : Text) → Lacks c ext → from_last c (c ∷ ext) ≡ c ∷ ext
unfolding from_last
from_last_here c ext h = ground (arith, from_last_of_Lacks c ext h)

from_last-append : (c : ℕ) (s ext : Text) → Lacks c ext → from_last c (s ++ c ∷ ext) ≡ c ∷ ext
unfolding from_last
from_last-append c [] ext h = from_last_here c ext h
from_last-append c (x ∷ s) ext h = ground (arith, from_last-append c s ext h)

module _ (iequals : Text → Text → Bool) where
  -- Two paths that agree from their last dot on have one media type, whatever stands before it,
  -- and a path without a dot has the type that an empty extension has.
  get_mime_type-extension :
      (s s' ext path : Text)
      → Lacks b'.' ext
      → Lacks b'.' path
      → (get_mime_type iequals (s ++ b'.' ∷ ext) ≡ get_mime_type iequals (s' ++ b'.' ∷ ext))
        × (get_mime_type iequals path ≡ mime_of iequals [] mime_table)
  unfolding get_mime_type
  get_mime_type-extension s s' ext path h k = (
    rw (get_mime_type, from_last-append b'.' s ext h, from_last-append b'.' s' ext h),
    rw (get_mime_type, from_last_of_Lacks b'.' path k),
  )
