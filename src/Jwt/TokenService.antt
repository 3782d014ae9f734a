-- ===== src/Jwt/TokenService.antt =====
-- The token service (token_service/src/main.cpp). The CPP-JWT library is a parameter: `sign`
-- signs a payload with a secret, `decode` checks a token with a secret and gives its claims, and
-- `none` is an exception. A claim whose value is not a string is `none`.
use kos_ce_extra.Prelude.{
  Bool, true, false, List, [], ◌∷◌, Option, none, some, Text, codes, text_eq, ◌≡◌, arith,
  Option-cases, inl, inr, text_eq_iff,
}
use kos_ce_extra.Prelude.Map.{find}

abbrev pub Claims : Type 0
Claims = List (Text × Option Text)

abbrev pub payload_key : Text
payload_key = codes "secret"

abbrev pub payload_value : Text
payload_value = codes "TOKEN"

abbrev pub payload : Claims
payload = (payload_key, some payload_value) ∷ []

module _ (sign : Text → Claims → Option Text) (decode : Text → Text → Option Claims) where
  unfoldable pub generate : Text → Text
  generate secret = elim (sign secret payload) [ none ↦ [] | some token ↦ token ]

  unfoldable pub verify : Text → Text → Bool
  unfolding find text_eq
  verify secret token = elim (decode token secret) [
    | none ↦ false
    | some claims ↦ elim (find text_eq payload_key claims) [
      | none ↦ false
      | some value ↦ elim value [ none ↦ false | some v ↦ text_eq v payload_value ]
    ]
  ]

  -- The service accepts the tokens that it makes, where the library decodes what it signed with
  -- the same secret and gives back the payload.
  pub verify-generate :
      (secret token : Text)
      → sign secret payload ≡ some token
      → decode token secret ≡ some payload
      → verify secret (generate secret) ≡ true
  unfolding verify generate
  verify-generate secret token s d = ground (arith, s, d)

  -- The service accepts only tokens that the library decodes with the secret, and whose claim
  -- `secret` is the string `TOKEN`.
  pub verify_sound :
      (secret token : Text)
      → verify secret token ≡ true
      → (claims : Claims) × (decode token secret ≡ some claims)
        × (find text_eq payload_key claims ≡ some (some payload_value))
  unfolding verify
  verify_sound secret token h = elim (Option-cases (decode token secret)) [
    | inl e ↦ absurd (ground arith)
    | inr (claims, e) ↦ elim (Option-cases (find text_eq payload_key claims)) [
      | inl e' ↦ absurd (ground arith)
      | inr (value, e') ↦ (claims, e, found claims value e e')
    ]
  ]
    where
      found :
          (claims : Claims) (value : Option Text)
          → decode token secret ≡ some claims
          → find text_eq payload_key claims ≡ some value
          → find text_eq payload_key claims ≡ some (some payload_value)
      found claims none e e' = absurd (ground arith)
      found claims (some v) e e' = ground (arith, text_eq_iff v payload_value)
