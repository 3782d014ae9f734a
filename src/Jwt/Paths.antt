-- ===== src/Jwt/Paths.antt =====
-- File names of the document root (web_server/src/allrequesthandler.cpp, lines 11-67).
pub mod Mime
use kos_ce_extra.Prelude.{ℕ, Bool, false, List, [], ◌∷◌, ◌++◌, ◌==◌, if◌then◌else◌, Text, codes}

-- `path.substr(path.rfind(c))`, or nothing where there is no `c`.
unfoldable pub from_last : ℕ → Text → Text
from_last c [] = []
from_last c (x ∷ s) =
    let later = from_last c s in elim later [ [] ↦ if x == c then x ∷ s else [] | y ∷ r ↦ y ∷ r ]

-- The tests of `GetMimeType`, in their order.
abbrev pub mime_table : List (Text × Text)
mime_table =
    (codes ".htm", codes "text/html")
    ∷ (codes ".html", codes "text/html")
    ∷ (codes ".php", codes "text/html")
    ∷ (codes ".css", codes "text/css")
    ∷ (codes ".txt", codes "text/plain")
    ∷ (codes ".png", codes "image/png")
    ∷ (codes ".jpe", codes "image/jpeg")
    ∷ (codes ".jpeg", codes "image/jpeg")
    ∷ (codes ".jpg", codes "image/jpeg")
    ∷ (codes ".ico", codes "image/vnd.microsoft.icon")
    ∷ (codes ".svg", codes "image/svg+xml")
    ∷ (codes ".svgz", codes "image/svg+xml")
    ∷ []

-- `iequals` is Beast's comparison that ignores case.
module _ (iequals : Text → Text → Bool) where
  unfoldable pub mime_of : Text → List (Text × Text) → Text
  mime_of ext [] = codes "application/text"
  mime_of ext ((known, mime) ∷ table) = if iequals ext known then mime else mime_of ext table

  unfoldable pub get_mime_type : Text → Text
  unfolding from_last mime_of
  get_mime_type path = mime_of (from_last b'.' path) mime_table

-- `result.back()`, and `result.resize(result.size() - 1)`.
unfoldable pub ends_with : ℕ → Text → Bool
ends_with c [] = false
ends_with c (x ∷ []) = x == c
ends_with c (x ∷ y ∷ s) = ends_with c (y ∷ s)

unfoldable pub drop_last : Text → Text
drop_last [] = []
drop_last (x ∷ []) = []
drop_last (x ∷ y ∷ s) = x ∷ drop_last (y ∷ s)

unfoldable pub concat_path : Text → Text → Text
unfolding ends_with drop_last
concat_path [] path = path
concat_path (b ∷ base) path =
    (if ends_with b'/' (b ∷ base) then drop_last (b ∷ base) else b ∷ base) ++ path
