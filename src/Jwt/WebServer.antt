-- ===== src/Jwt/WebServer.antt =====
-- Routing (web_server/src/webserver.cpp, lines 181-195 and 235-295) and the server that
-- web_server/src/main.cpp sets up.
pub mod Routing
pub mod Files
pub mod Tokens
use kos_ce_extra.Prelude.{
  ℕ, Bool, true, false, not, List, [], ◌∷◌, Option, none, some, ◌==◌, ◌||◌, ◌&&◌, if◌then◌else◌,
  Text, codes, text_eq, before,
}
use kos_ce_extra.Prelude.Map.{find, insert, erase}
use kos_ce_extra.Jwt.Http.{
  Request, Response, make_error_response, bad_request, method_not_allowed, HttpUriHandler,
  handle_by_method,
}
use kos_ce_extra.Jwt.Handlers.{World, all_request_handler, get_token_handler, get_data_handler}

-- The handlers are never null pointers; only the default may be missing.
pub record WebServer : Type 0 where
  pub doc_root : Text
  pub port : ℕ
  pub uri_handlers : List (Text × HttpUriHandler)
  pub default_handler : Option HttpUriHandler
  pub cert_name : Text
  pub key_name : Text
  pub dh_name : Text

-- The constructor.
unfoldable pub web_server : Text → ℕ → Text → Text → Text → Option HttpUriHandler → WebServer
web_server root port cert key dh default = record {
  doc_root = root;
  port = port;
  uri_handlers = [];
  default_handler = default;
  cert_name = cert;
  key_name = key;
  dh_name = dh;
}

-- Both return `rcOk` always.
unfoldable pub set_handler : Text → HttpUriHandler → WebServer → WebServer
unfolding insert text_eq
set_handler uri handler s =
    if not (text_eq uri [])
    then record s { uri_handlers = insert text_eq uri handler s.uri_handlers }
    else record s { default_handler = some handler }

unfoldable pub remove_handler : Text → WebServer → WebServer
unfolding erase text_eq
remove_handler uri s =
    if not (text_eq uri [])
    then record s { uri_handlers = erase text_eq uri s.uri_handlers }
    else record s { default_handler = none }

-- `target.find("..") != npos`.
unfoldable pub has_dots : Text → Bool
has_dots [] = false
has_dots (x ∷ []) = false
has_dots (x ∷ y ∷ s) = (x == b'.' && y == b'.') || has_dots (y ∷ s)

unfoldable pub is_illegal : Text → Bool
unfolding has_dots
is_illegal [] = true
is_illegal (x ∷ s) = not (x == b'/') || has_dots (x ∷ s)

-- The URI that the request is routed by.
unfoldable pub route_of : Request → Text
unfolding before
route_of req = before b'?' req.target

abbrev pub unknown_method : Request → Response
unknown_method req = make_error_response req method_not_allowed (codes "Unknown HTTP-method")

-- A handler's response, or the error response where it has none.
unfoldable pub respond : HttpUriHandler → Request → Response
unfolding handle_by_method make_error_response
respond h req = elim (handle_by_method h req) [ some r ↦ r | none ↦ unknown_method req ]

unfoldable pub handle_request : WebServer → Request → Response
unfolding is_illegal route_of respond make_error_response find
handle_request s req =
    if is_illegal req.target
    then make_error_response req bad_request (codes "Illegal request-target")
    else elim (find text_eq (route_of req) s.uri_handlers) [
      | some h ↦ respond h req
      | none ↦ elim s.default_handler [ some h ↦ respond h req | none ↦ unknown_method req ]
    ]

abbrev pub document_root : Text
document_root = codes "/www"

-- The server of `main`, with the names from the command line.
unfoldable pub configured : World → Text → Text → Text → WebServer
unfolding web_server set_handler all_request_handler get_token_handler get_data_handler
configured world cert key dh =
    let server = web_server document_root 1106 cert key dh none in
    let server' = set_handler [] (all_request_handler world document_root) server in
    let server'' =
      set_handler (codes "/gettoken") (get_token_handler world document_root) server' in
    set_handler (codes "/getdata") (get_data_handler world document_root) server''

-- What `boost::program_options` makes of the command line; `none` is an exception.
pub record Options : Type 0 where
  pub help : Bool
  pub cert : Option Text
  pub key : Option Text
  pub dh : Option Text

pub data Start : Type 0 where
  exit_success exit_failure : Start
  run : WebServer → Start

-- `main` up to `server.Run()`; `iface` tells whether the network comes up.
unfoldable pub start : World → Option Options → Bool → Start
unfolding configured
start world none iface = exit_failure
start world (some options) iface = if options.help then exit_success else elim options.cert [
  | none ↦ exit_failure
  | some cert ↦ elim options.key [
    | none ↦ exit_failure
    | some key ↦ elim options.dh [
      | none ↦ exit_failure
      | some dh ↦ if iface then run (configured world cert key dh) else exit_failure
    ]
  ]
]
