-- ===== src/Grpc/CommandLine.antt =====
-- `CommandLineArg::TryParse` (grpc/libraries/utility_lib/CommandLineArg.cc) and the loops of the
-- server's and the client's `main` over their arguments.
pub mod Laws
use kos_ce_extra.Prelude.{
  ℕ, suc, ◌+◌, Bool, true, false, ◌&&◌, Option, none, some, List, [], ◌∷◌, ◌++◌, length, get_elem?,
  drop, Text, codes, ◌==◌, if◌then◌else◌,
}

-- `TryParse` sets its argument `value` and returns true, or returns false, or throws a
-- `std::runtime_error` with a text.
pub data Attempt {ℓ} (A : Type ℓ) : Type ℓ where
  accepted : A → Attempt A
  rejected : Attempt A
  threw : Text → Attempt A

abbrev pub separator : ℕ
separator = b'='

-- `text.find(name) == 0`.
unfoldable pub starts_with : Text → Text → Bool
starts_with [] text = true
starts_with (c ∷ name) [] = false
starts_with (c ∷ name) (d ∷ text) = c == d && starts_with name text

-- `text[i] == Separator`.
unfoldable pub is_separator_at : ℕ → Text → Bool
is_separator_at i text = elim (get_elem? text i) [ none ↦ false | some c ↦ c == separator ]

-- The overload for a `bool`.
unfoldable pub try_parse_flag : Text → Text → Attempt Bool
unfolding starts_with is_separator_at
try_parse_flag name text =
    if starts_with name text
    then (if length text == length name
        then accepted true
        else if is_separator_at (length name) text
        then threw (codes "The only correct argument syntax is " ++ name)
        else rejected)
    else rejected

-- The overload for a `std::string`.
unfoldable pub try_parse_value : Text → Text → Attempt Text
unfolding starts_with is_separator_at
try_parse_value name text =
    if starts_with name text
    then (if length text == length name
        then threw
            (codes "The only correct argument syntax is " ++ (name ++ codes "=argument_value"))
        else if is_separator_at (length name) text
        then accepted (drop (suc (length name)) text)
        else rejected)
    else rejected

-- The options of the client, and those of the server where `target` is not used.
pub record Options : Type 0 where
  pub use_secure_connection : Bool
  pub target_endpoint : Text

pub data Parsed : Type 0 where
  options : Options → Parsed
  runtime_error : Text → Parsed

abbrev pub arg_secure : Text
arg_secure = codes "--secure"

abbrev pub arg_target : Text
arg_target = codes "--target"

-- The loop of the server: what is left of `argv`, and `useSecureConnection`.
unfoldable pub parse_server_args : List Text → Options → Parsed
parse_server_args [] o = options o
parse_server_args (arg ∷ args) o = elim (try_parse_flag arg_secure arg) [
  | accepted v ↦ parse_server_args args (record o { use_secure_connection = v })
  | rejected ↦ runtime_error (codes "The only acceptable argument is\n" ++ arg_secure)
  | threw e ↦ runtime_error e
]

-- The loop of the client.
unfoldable pub parse_client_args : List Text → Options → Parsed
parse_client_args [] o = options o
parse_client_args (arg ∷ args) o = elim (try_parse_flag arg_secure arg) [
  | accepted v ↦ parse_client_args args (record o { use_secure_connection = v })
  | threw e ↦ runtime_error e
  | rejected ↦ elim (try_parse_value arg_target arg) [
    | accepted v ↦ parse_client_args args (record o { target_endpoint = v })
    | threw e ↦ runtime_error e
    | rejected ↦
        runtime_error (
          codes "The only acceptable arguments are\n" ++ (arg_secure ++ (codes "\n" ++ arg_target)))
  ]
]
