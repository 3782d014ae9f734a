-- ===== src/Jwt/Http.antt =====
-- Requests, responses and method tables (web_server/include/httpurihandler.h,
-- web_server/src/httpurihandler.cpp).
use kos_ce_extra.Prelude.{
  ℕ, Bool, true, false, Option, none, some, List, [], ◌==◌, Text, codes, length, ◌≡◌, ◌↔◌, arith,
}
use kos_ce_extra.Prelude.Map.{find, insert}

-- `http::verb`.
pub data Verb : Type 0 where
  get : Verb
  other : ℕ → Verb

abbrev pub verb_eq : Verb → Verb → Bool
verb_eq get get = true
verb_eq (other a) (other b) = a == b
verb_eq _ _ = false

pub verb_eq_iff : (a b : Verb) → (verb_eq a b ≡ true) ↔ (a ≡ b)
verb_eq_iff get get = ground arith
verb_eq_iff get (other b) = ground arith
verb_eq_iff (other a) get = ground arith
verb_eq_iff (other a) (other b) = ground arith

pub record Request : Type 0 where
  pub method : Verb
  pub target : Text
  pub version : ℕ
  pub keep_alive : Bool

-- A string body, or an open file by its path and size.
pub data Body : Type 0 where
  text : Text → Body
  file : Text → ℕ → Body

pub record Response : Type 0 where
  pub status : ℕ
  pub version : ℕ
  pub content_type : Text
  pub keep_alive : Bool
  pub content_length : ℕ
  pub body : Body

-- `http::status`.
abbrev pub ok : ℕ
ok = 200

abbrev pub bad_request : ℕ
bad_request = 400

abbrev pub not_found : ℕ
not_found = 404

abbrev pub method_not_allowed : ℕ
method_not_allowed = 405

abbrev pub internal_server_error : ℕ
internal_server_error = 500

-- `StringResponse` with `keep_alive`, the body and `prepare_payload`, as the handlers build it.
abbrev pub string_response : Request → ℕ → Text → Text → Response
string_response req code mime content = record {
  status = code;
  version = req.version;
  content_type = mime;
  keep_alive = req.keep_alive;
  content_length = length content;
  body = text content;
}

unfoldable pub make_error_response : Request → ℕ → Text → Response
make_error_response req err_code why = string_response req err_code (codes "text/html") why

pub record HttpUriHandler : Type 0 where
  pub doc_root : Text
  pub http_methods : List (Verb × (Request → Option Response))

-- The constructor.
unfoldable pub http_uri_handler : Text → HttpUriHandler
http_uri_handler root = record { doc_root = root; http_methods = [] }

unfoldable pub set_method_handler :
    Verb → (Request → Option Response) → HttpUriHandler → HttpUriHandler
unfolding insert
set_method_handler method handler h = record h {
  http_methods = insert verb_eq method handler h.http_methods;
}

-- `HttpUriHandler::HandleRequest`.
unfoldable pub handle_by_method : HttpUriHandler → Request → Option Response
unfolding find
handle_by_method h req = elim (find verb_eq req.method h.http_methods) [
  | some handler ↦ handler req
  | none ↦ none
]
