-- ===== src/Jwt/WebServer/Tokens.antt =====
-- From `/gettoken` to `/getdata`: the token that the server hands out opens its data.
use kos_ce_extra.Prelude.{
  false, [], ◌∷◌, ◌++◌, Option, some, ◌≡◌, refl, arith, if◌then◌else◌, Text, text_eq, not, codes,
  before, Lacks, before-append, ◌∙◌,
}
use kos_ce_extra.Prelude.Map.{find}
use kos_ce_extra.Jwt.Http.{make_error_response, verb_eq, Request, text, get, string_response, ok}
use kos_ce_extra.Jwt.Query.RoundTrip.{get_param_value-encode_params}
use kos_ce_extra.Jwt.TokenService.{
  Claims, payload, payload_key, payload_value, generate, verify, verify-generate, verify_sound,
}
use kos_ce_extra.Jwt.Handlers.{
  World, get_token_handler, get_data_handler, granted, refused, token_of,
}
use kos_ce_extra.Jwt.WebServer.{
  has_dots, is_illegal, route_of, respond, handle_request, configured, document_root,
  unknown_method,
}
use kos_ce_extra.Jwt.WebServer.Files.{routed, handle_request-configured}

abbrev pub data_path : Text
data_path = codes "/getdata"

-- The request that the page sends with a token.
abbrev pub data_request : Text → Request
data_request token = record {
  method = get;
  target = data_path ++ b'?' ∷ (codes "jwt" ++ b'=' ∷ token);
  version = 11;
  keep_alive = false;
}

abbrev pub token_request : Request
token_request = record {
  method = get;
  target = codes "/gettoken";
  version = 11;
  keep_alive = false;
}

data_request-legal :
    (token : Text) → has_dots token ≡ false → is_illegal (data_request token).target ≡ false
unfolding is_illegal has_dots
data_request-legal [] h = refl
data_request-legal (x ∷ token) h = ground arith

token_of-data_request : (token : Text) → Lacks b'&' token → token_of (data_request token) ≡ token
unfolding token_of
token_of-data_request token h = ground (
  arith,
  get_param_value-encode_params data_path (codes "jwt") ((codes "jwt", token) ∷ []) (omega arith)
      (omega arith, h, tt),
)

abbrev pub connected :
    (Text → Claims → Option Text) → (Text → Text → Option Claims) → Text → World → World
connected sign decode secret world = record world {
  generate = generate sign decode secret;
  verify = verify sign decode secret;
}

respond_token :
    (world : World)
    → (respond (get_token_handler world document_root) token_request).body ≡ text world.generate
unfolding respond get_token_handler
respond_token world = refl

respond_data :
    (world : World) (req : Request)
    → respond (get_data_handler world document_root) req ≡ (
        if not (verb_eq req.method get)
        then unknown_method req
        else string_response req ok
            (codes "text/plain")
            (if world.verify (token_of req) then granted else refused))
unfolding respond get_data_handler
respond_data world req = ground arith

token_request-legal : is_illegal token_request.target ≡ false
unfolding is_illegal has_dots
token_request-legal = refl

token_request-routed : (world : World) → (routed world token_request).body ≡ text world.generate
unfolding route_of before text_eq
token_request-routed world = respond_token world

-- A request that is routed to `/getdata`.
data-routed :
    (world : World) (req : Request)
    → route_of req ≡ data_path
    → routed world req ≡ respond (get_data_handler world document_root) req
unfolding text_eq
data-routed world req e = rw e refl

data_answer :
    (world : World) (cert key dh : Text) (req : Request)
    → is_illegal req.target ≡ false
    → route_of req ≡ data_path
    → handle_request (configured world cert key dh) req ≡ (
        if not (verb_eq req.method get)
        then unknown_method req
        else string_response req ok
            (codes "text/plain")
            (if world.verify (token_of req) then granted else refused))
data_answer world cert key dh req legal route =
    handle_request-configured world cert key dh req legal
    ∙ data-routed world req route
    ∙ respond_data world req

data_request-route : (token : Text) → route_of (data_request token) ≡ data_path
unfolding route_of
data_request-route token = before-append b'?' data_path (codes "jwt" ++ b'=' ∷ token) (omega arith)

module _ (sign : Text → Claims → Option Text) (decode : Text → Text → Option Claims)
    (secret cert key dh : Text) (world : World) where
  -- The server of `main` in front of the token service: a GET of `/gettoken` is answered with the
  -- token, and a GET of `/getdata` with that token as the parameter `jwt` is granted access. The
  -- library signs the payload and decodes what it signed; the token holds no `&` and no two dots
  -- in a row, as no JWT does.
  pub data_access-token :
      (token : Text)
      → sign secret payload ≡ some token
      → decode token secret ≡ some payload
      → Lacks b'&' token
      → has_dots token ≡ false
      → let server = configured (connected sign decode secret world) cert key dh in
        ((handle_request server token_request).body ≡ text token)
        × ((handle_request server (data_request token)).body ≡ text granted)
  unfolding generate
  data_access-token token signed decoded plain no_dots =
      let world' = connected sign decode secret world in
      (
        rw
            (
              handle_request-configured world' cert key dh token_request (token_request-legal),
              token_request-routed world',
            )
            (ground (arith, signed)),
        rw
            (
              data_answer world' cert key dh (data_request token) (data_request-legal token no_dots)
                  (data_request-route token),
              token_of-data_request token plain,
            )
            (ground (arith, signed, verify-generate sign decode secret token signed decoded)),
      )

  -- Where a request for `/getdata` is answered with the data, the library decodes the token of the
  -- request with the secret of the service, and its claim `secret` is the string `TOKEN`.
  pub data_access_sound :
      (req : Request)
      → is_illegal req.target ≡ false
      → route_of req ≡ data_path
      → (handle_request (configured (connected sign decode secret world) cert key dh) req).body
        ≡ text granted
      → (claims : Claims) × (decode (token_of req) secret ≡ some claims)
        × (find text_eq payload_key claims ≡ some (some payload_value))
  unfolding make_error_response
  data_access_sound req legal route h =
      let world' = connected sign decode secret world in
      let answered = rw (data_answer world' cert key dh req legal route) at h in
      verify_sound sign decode secret (token_of req) (ground arith)
