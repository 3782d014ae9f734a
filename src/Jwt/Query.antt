-- ===== src/Jwt/Query.antt =====
-- `GetParamValue` of web_server/src/getdatahandler.cpp over a model of `std::getline`.
pub mod RoundTrip
use kos_ce_extra.Prelude.{
  ℕ, zero, suc, Bool, true, false, List, [], ◌∷◌, Option, none, some, if◌then◌else◌, Text, text_eq,
  length,
}
use kos_ce_extra.Prelude.Stream.{Stream, getline}

-- The `while` loop; `none` means that the fuel ran out.
unfoldable pub find_param : ℕ → Text → Stream → Option Text
unfolding text_eq
find_param zero name s = none
find_param (suc fuel) name s = elim (getline b'=' s) [
  | none ↦ some []
  | some (key, s') ↦ elim (getline b'&' s') [
    | none ↦ some []
    | some (val, s'') ↦
        let more = find_param fuel name s'' in if text_eq key name then some val else more
  ]
]

-- The stream once the text up to the `?` is read; a failed read leaves an empty stream.
unfoldable pub skip_path : Text → Stream
skip_path uri = elim (getline b'?' (record { rest = uri; eof = false })) [
  | none ↦ record { rest = []; eof = true }
  | some (_, s) ↦ s
]

unfoldable pub get_param_value : Text → Text → Option Text
unfolding find_param skip_path
get_param_value uri name = find_param (suc (length uri)) name (skip_path uri)
