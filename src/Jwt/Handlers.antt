-- ===== src/Jwt/Handlers.antt =====
-- The three request handlers (web_server/src/allrequesthandler.cpp, gettokenhandler.cpp,
-- getdatahandler.cpp). The file system, the proxy of the token service and Beast's `iequals` are
-- parameters; the request log is left out.
use kos_ce_extra.Prelude.{ℕ, Bool, not, [], ◌++◌, Option, none, some, Text, codes, if◌then◌else◌}
use kos_ce_extra.Jwt.Http.{
  get, verb_eq, Request, Response, file, string_response, make_error_response, ok, not_found,
  internal_server_error, HttpUriHandler, http_uri_handler, set_method_handler,
}
use kos_ce_extra.Jwt.Paths.{get_mime_type, concat_path, ends_with}
use kos_ce_extra.Jwt.Query.{get_param_value}

-- `file_body::value_type::open`: the size, or why it fails.
pub data Opened : Type 0 where
  opened : ℕ → Opened
  no_such_file : Opened
  failed : Text → Opened

pub record World : Type 0 where
  pub open_file : Text → Opened
  pub iequals : Text → Text → Bool
  pub generate : Text
  pub verify : Text → Bool

-- The file that a target names.
unfoldable pub file_path : Text → Text → Text
unfolding concat_path ends_with
file_path root target =
    let path = concat_path root target in
    if ends_with b'/' path then path ++ codes "index.html" else path

abbrev pub granted : Text
granted = codes "<div class=\"success\">Data access succeeded</div>"

abbrev pub refused : Text
refused = codes "<div class=\"error\">Wrong token or token service unavailable</div>"

-- The fuel of `get_param_value` never runs out.
unfoldable pub token_of : Request → Text
unfolding get_param_value
token_of req = elim (get_param_value req.target (codes "jwt")) [ none ↦ [] | some token ↦ token ]

module _ (world : World) where
  open world use {open_file, iequals, generate, verify}

  unfoldable pub get_file : Text → Request → Option Response
  unfolding make_error_response
  get_file root req =
      if not (verb_eq req.method get)
      then none
      else (let path = file_path root req.target in
          elim (open_file path) [
            | no_such_file ↦ some (
                make_error_response req not_found
                  (codes "The resource '" ++ req.target ++ codes "' was not found."))
            | failed message ↦ some (make_error_response req internal_server_error message)
            | opened size ↦ some (record {
              status = ok;
              version = req.version;
              content_type = get_mime_type iequals path;
              keep_alive = req.keep_alive;
              content_length = size;
              body = file path size;
            })
          ])

  unfoldable pub get_token : Request → Option Response
  get_token req =
      if not (verb_eq req.method get)
      then none
      else some (string_response req ok (codes "text/plain") generate)

  unfoldable pub get_data : Request → Option Response
  unfolding token_of
  get_data req =
      if not (verb_eq req.method get)
      then none
      else some (
          string_response req ok (codes "text/plain")
            (if verify (token_of req) then granted else refused))

  -- The constructors.
  unfoldable pub all_request_handler : Text → HttpUriHandler
  unfolding http_uri_handler set_method_handler get_file
  all_request_handler root = set_method_handler get (get_file root) (http_uri_handler root)

  unfoldable pub get_token_handler : Text → HttpUriHandler
  unfolding http_uri_handler set_method_handler get_token
  get_token_handler root = set_method_handler get get_token (http_uri_handler root)

  unfoldable pub get_data_handler : Text → HttpUriHandler
  unfolding http_uri_handler set_method_handler get_data
  get_data_handler root = set_method_handler get get_data (http_uri_handler root)
