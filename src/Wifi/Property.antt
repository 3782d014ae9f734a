-- ===== src/Wifi/Property.antt =====
-- `ConnectionManager::GetProperty` of client/src/connection_manager.cpp, lines 182-202.
pub mod RoundTrip
use kos_ce_extra.Prelude.{
  ℕ, zero, suc, List, [], ◌∷◌, Option, none, some, if◌then◌else◌, Text, text_eq, before, after?,
  length, Bool, false,
}
use kos_ce_extra.Prelude.Stream.{Stream, getline}

-- A line with `=` whose text before the first `=` is the property: what stands behind.
unfoldable pub line_value : Text → Text → Option Text
line_value property line = elim (after? b'=' line) [
  | none ↦ none
  | some value ↦ if text_eq (before b'=' line) property then some value else none
]

-- The loop over the lines; `none` means that the fuel ran out.
unfoldable pub property_loop : ℕ → Text → Stream → Option Text
property_loop zero property s = none
property_loop (suc fuel) property s = elim (getline 10 s) [
  | none ↦ some []
  | some (line, s') ↦
      let rest = property_loop fuel property s' in
      elim (line_value property line) [ some value ↦ some value | none ↦ rest ]
]

unfoldable pub get_property : Text → Text → Option Text
get_property blob property =
    property_loop (suc (length blob)) property (record { rest = blob; eof = false })
