-- ===== src/Jwt/Query/RoundTrip.antt =====
-- `GetParamValue` reads back what a query string was built from.
use kos_ce_extra.Prelude.{
  ℕ, zero, suc, ◌<◌, ◌≤◌, ◌≡◌, refl, ◌≢◌, true, List, [], ◌∷◌, ◌++◌, none, some, if◌then◌else◌,
  Text, text_eq, after?, length, Lacks, arith, length-append, Option-cases, Bool-cases,
  text_eq_sound, not-Lacks-middle, Lacks-append, ap, ◌∙◌, inl, inr,
}
use kos_ce_extra.Prelude.Stream.{
  Stream, getline, getline-shorter, reading, getline-delim, getline-last, getline-end,
  getline-nothing,
}
use kos_ce_extra.Jwt.Query.{find_param, skip_path, get_param_value}

-- The loop ends: with more fuel than bytes left it returns.
find_param_total :
    (fuel : ℕ) (name : Text) (s : Stream) → length s.rest < fuel → find_param fuel name s ≢ none
unfolding find_param
find_param_total zero name s h = elim h [ ]
find_param_total (suc fuel) name s h = elim (Option-cases (getline b'=' s)) [
  | inl e ↦ rw (find_param, e) (λ p. cc)
  | inr ((key, s'), e) ↦ elim (Option-cases (getline b'&' s')) [
    | inl e' ↦ rw (find_param, e, e') (λ p. cc)
    | inr ((val, s''), e') ↦
        let shorter = getline-shorter b'=' s key s' e in
        let shorter' = getline-shorter b'&' s' val s'' e' in
        let more = find_param_total fuel name s'' (omega arith) in
        rw (find_param, e, e') (ground arith)
  ]
]

abbrev pub encode_params : List (Text × Text) → Text
encode_params [] = []
encode_params ((key, val) ∷ []) = key ++ b'=' ∷ val
encode_params ((key, val) ∷ p ∷ params) = key ++ b'=' ∷ (val ++ b'&' ∷ encode_params (p ∷ params))

-- The value of the first parameter with the name, and the empty text where there is none.
abbrev pub value_of : Text → List (Text × Text) → Text
value_of name [] = []
value_of name ((key, val) ∷ params) = if text_eq key name then val else value_of name params

-- What can stand in a query string: no `=` in a key, no `&` in a value.
abbrev pub IsPlain : List (Text × Text) → Type 0
IsPlain [] = Unit
IsPlain ((key, val) ∷ params) = Lacks b'=' key × Lacks b'&' val × IsPlain params

find_param-one :
    (fuel : ℕ) (name key val : Text)
    → Lacks b'=' key
    → Lacks b'&' val
    → find_param (suc (suc fuel)) name (reading (key ++ b'=' ∷ val))
      ≡ some (value_of name ((key, val) ∷ []))
unfolding find_param
find_param-one fuel name key [] hk hv =
    rw (find_param, getline-delim b'=' key [] hk) (ground (arith, getline-nothing b'&'))
find_param-one fuel name key (x ∷ val) hk hv =
    rw (find_param, getline-delim b'=' key (x ∷ val) hk, getline-last b'&' x val hv)
      (ground (arith, getline-end b'='))

find_param-encode_params :
    (fuel : ℕ) (name : Text) (params : List (Text × Text))
    → length (encode_params params) < fuel
    → IsPlain params
    → find_param fuel name (reading (encode_params params)) ≡ some (value_of name params)
unfolding find_param
find_param-encode_params zero name params h p = elim h [ ]
find_param-encode_params (suc fuel) name [] h p = ground (arith, getline-nothing b'=')
find_param-encode_params (suc zero) name ((key, val) ∷ []) h p =
    absurd (omega (arith, length-append key (b'=' ∷ val)))
find_param-encode_params (suc (suc fuel)) name ((key, val) ∷ []) h (hk, hv, _) =
    find_param-one fuel name key val hk hv
find_param-encode_params (suc fuel) name ((key, val) ∷ (key', val') ∷ params) h (hk, hv, hp) =
    let rest = encode_params ((key', val') ∷ params) in
    let shorter : length rest < fuel =
      omega
        (arith, length-append key (b'=' ∷ (val ++ b'&' ∷ rest)), length-append val (b'&' ∷ rest)) in
    let ih = find_param-encode_params fuel name ((key', val') ∷ params) shorter hp in
    rw (find_param, getline-delim b'=' key (val ++ b'&' ∷ rest) hk, getline-delim b'&' val rest hv)
      (ground (arith, ih))

skip_path-delim : (path r : Text) → Lacks b'?' path → skip_path (path ++ b'?' ∷ r) ≡ reading r
unfolding skip_path
skip_path-delim path r h = ground (arith, getline-delim b'?' path r h)

length-skip_path : (uri : Text) → length (skip_path uri).rest ≤ length uri
unfolding skip_path
length-skip_path uri = elim (Option-cases (getline b'?' (reading uri))) [
  | inl e ↦ rw (skip_path, e) (omega arith)
  | inr ((line, s), e) ↦
      let shorter = getline-shorter b'?' (reading uri) line s e in rw (skip_path, e) (omega arith)
]

-- `GetParamValue` always returns: its loop reads at least one byte each round.
get_param_value_total : (uri name : Text) → get_param_value uri name ≢ none
unfolding get_param_value
get_param_value_total uri name =
    find_param_total (suc (length uri)) name (skip_path uri) (omega (arith, length-skip_path uri))

-- From a target made of a path without `?` and a query string, `GetParamValue` reads the value of
-- the first parameter with the name, or the empty text where no parameter has it. No key of the
-- query string holds `=` and no value holds `&`; a last value that is empty is read as empty.
pub get_param_value-encode_params :
    (path name : Text) (params : List (Text × Text))
    → Lacks b'?' path
    → IsPlain params
    → get_param_value (path ++ b'?' ∷ encode_params params) name ≡ some (value_of name params)
unfolding get_param_value
get_param_value-encode_params path name params hp h =
    let query = encode_params params in
    let room = length-append path (b'?' ∷ query) in
    rw (get_param_value, skip_path-delim path query hp)
      (find_param-encode_params (suc (length (path ++ b'?' ∷ query))) name params (omega arith) h)

skip_path_of_Lacks :
    (uri : Text) → Lacks b'?' uri → skip_path uri ≡ record { rest = []; eof = true }
unfolding skip_path getline after?
skip_path_of_Lacks [] h = refl
skip_path_of_Lacks (x ∷ s) h = ground (arith, getline-last b'?' x s h)

find_param-at_end :
    (fuel : ℕ) (name : Text)
    → find_param (suc fuel) name (record { rest = []; eof = true }) ≡ some []
unfolding find_param
find_param-at_end fuel name = ground (arith, getline-end b'=')

-- A target without `?` has no parameters.
pub get_param_value_plain : (uri name : Text) → Lacks b'?' uri → get_param_value uri name ≡ some []
unfolding get_param_value
get_param_value_plain uri name h =
    let nothing = find_param-at_end (length uri) name in
    rw (get_param_value, skip_path_of_Lacks uri h) nothing

value_of_other :
    (flag key val name : Text)
    → Lacks b'&' name
    → value_of name ((flag ++ b'&' ∷ key, val) ∷ []) ≡ []
value_of_other flag key val name h = elim (Bool-cases (text_eq (flag ++ b'&' ∷ key) name)) [
  | inl same ↦
      let e = text_eq_sound (flag ++ b'&' ∷ key) name same in
      absurd (not-Lacks-middle b'&' flag key (rw e h))
  | inr differ ↦ rw differ
]

-- A parameter without `=` hides the one behind it: its name and the next key are read as one key.
get_param_value_hidden :
    (path flag key val name : Text)
    → Lacks b'?' path
    → Lacks b'=' flag
    → Lacks b'=' key
    → Lacks b'&' val
    → Lacks b'&' name
    → get_param_value (path ++ b'?' ∷ ((flag ++ b'&' ∷ key) ++ b'=' ∷ val)) name ≡ some []
get_param_value_hidden path flag key val name hp hf hk hv hn =
    let plain = Lacks-append b'=' flag (b'&' ∷ key) hf (omega arith, hk) in
    get_param_value-encode_params path name ((flag ++ b'&' ∷ key, val) ∷ []) hp (plain, hv, tt)
    ∙ ap some (value_of_other flag key val name hn)
