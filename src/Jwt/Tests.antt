-- ===== src/Jwt/Tests.antt =====
-- Runs of the web server and the token service, and the theorems at concrete inputs.
use kos_ce_extra.Prelude.{
  ◌≡◌, refl, true, false, List, [], ◌∷◌, ◌++◌, Option, none, some, Text, codes, text_eq, arith,
}
use kos_ce_extra.Prelude.Map.{find}
use kos_ce_extra.Prelude.Stream.{getline}
use kos_ce_extra.Jwt.Http.{Request, get, text, file}
use kos_ce_extra.Jwt.Query.{get_param_value}
use kos_ce_extra.Jwt.Query.RoundTrip.{get_param_value-encode_params, encode_params, value_of}
use kos_ce_extra.Jwt.TokenService.{Claims, payload, payload_key, payload_value}
use kos_ce_extra.Jwt.Handlers.{World, opened, granted, token_of, file_path}
use kos_ce_extra.Jwt.WebServer.{
  WebServer, is_illegal, has_dots, route_of, handle_request, configured,
}
use kos_ce_extra.Jwt.WebServer.Files.{Below, handle_request-file}
use kos_ce_extra.Jwt.WebServer.Tokens.{
  connected, data_request, token_request, data_path, data_access-token, data_access_sound,
}
use kos_ce_extra.Jwt.Session.{
  Session, Reach, handshake, read, write, success, on_run, complete, on_handshake, on_read,
  on_write, start_read, send_response, close, completes, here, next,
}
use kos_ce_extra.Jwt.Session.Chain.{IsOrderly, Reach-IsOrderly}

abbrev jwt : Text
jwt = codes "jwt"

-- An empty value at the end, and a parameter without `=`.
params_read :
    (get_param_value (codes "/getdata?a=&jwt=x.y") jwt ≡ some (codes "x.y"))
    × (get_param_value (codes "/getdata?flag&jwt=x.y") jwt ≡ some [])
    × (get_param_value (codes "/getdata?jwt=") jwt ≡ some [])
unfolding get_param_value getline text_eq
params_read = (refl, refl, refl)

abbrev two_params : List (Text × Text)
two_params = (codes "a", []) ∷ (jwt, codes "x.y=") ∷ []

get_param_value-encode_params_example :
    get_param_value (data_path ++ b'?' ∷ encode_params two_params) jwt
    ≡ some (value_of jwt two_params)
get_param_value-encode_params_example =
    get_param_value-encode_params data_path jwt two_params (omega arith) (omega arith)

-- A library that signs by prefixing the secret.
abbrev sign : Text → Claims → Option Text
sign secret claims = some (secret ++ codes ".sig")

abbrev decode : Text → Text → Option Claims
decode token secret = elim (text_eq token (secret ++ codes ".sig")) [
  | true ↦ some payload
  | false ↦ none
]

abbrev disk : World
disk = record {
  open_file = λ path. opened 5;
  iequals = text_eq;
  generate = [];
  verify = λ token. false;
}

abbrev page : Request
page = record { method = get; target = codes "/"; version = 11; keep_alive = true }

index_sent :
    (handle_request (configured disk [] [] []) page).body ≡ file (codes "/www/index.html") 5
unfolding handle_request configured text_eq file_path
index_sent = refl

data_access-token_example :
    let server = configured (connected sign decode (codes "s") disk) [] [] [] in
    ((handle_request server token_request).body ≡ text (codes "s.sig"))
    × ((handle_request server (data_request (codes "s.sig"))).body ≡ text granted)
unfolding text_eq has_dots
data_access-token_example =
    data_access-token sign decode (codes "s") [] [] [] disk (codes "s.sig") refl refl (omega arith)
      refl

data_access_sound_example :
    (claims : Claims) × (decode (token_of (data_request (codes "s.sig"))) (codes "s") ≡ some claims)
    × (find text_eq payload_key claims ≡ some (some payload_value))
unfolding is_illegal route_of text_eq has_dots
data_access_sound_example =
    data_access_sound sign decode (codes "s") [] [] [] disk (data_request (codes "s.sig")) refl refl
      (data_access-token sign decode (codes "s") [] [] [] disk (codes "s.sig") refl refl
        (omega arith) refl).1

handle_request-file_example :
    Below (codes "/www/index.html")
    × (has_dots (codes "/www/index.html") ≡ false)
    × (disk.open_file (codes "/www/index.html") ≡ opened 5)
handle_request-file_example =
    handle_request-file disk [] [] [] page (codes "/www/index.html") 5 index_sent

abbrev bare : WebServer
bare = configured disk [] [] []

-- A handshake, a request, and a response behind which the connection is closed.
abbrev greeted : Session
greeted = complete handshake success true (record on_run { outstanding = [] })

abbrev requested : Session
requested = complete read success false (record greeted { outstanding = [] })

abbrev responded : Session
responded = complete (write false) success true (record requested { outstanding = [] })

responded-Reach : Reach responded
unfolding on_run complete on_handshake on_read on_write start_read send_response close
responded-Reach =
    next
      (next (next here (completes handshake [] [] success true refl))
        (completes read [] [] success false refl))
      (completes (write false) [] [] success true refl)

Reach-IsOrderly_example : IsOrderly responded
Reach-IsOrderly_example = Reach-IsOrderly responded-Reach
