-- ===== src/Grpc/Server.antt =====
-- The server's `main`, its credentials and its service (grpc/server/src/main.cc,
-- grpc/server/src/greeter_service_impl.cc, grpc/libraries/utility_lib/FileUtility.cc), as they are
-- built for KasperskyOS.
pub mod Secure
use kos_ce_extra.Prelude.{Bool, Option, none, some, List, ◌++◌, Text, codes, if◌then◌else◌}
use kos_ce_extra.Grpc.CommandLine.{Options, Parsed, options, runtime_error, parse_server_args}

-- A value, or the text of a `std::runtime_error`.
pub data Result {ℓ} (A : Type ℓ) : Type ℓ where
  ok : A → Result A
  err : Text → Result A

infixl 5 ◌>>=◌
abbrev pub ◌>>=◌ {ℓ κ} : {A : Type ℓ} {B : Type κ} → Result A → (A → Result B) → Result B
ok a >>= f = f a
err e >>= f = err e

-- `ReadFile` over the file system: a name to the text of the file.
unfoldable pub read_file : (Text → Option Text) → Text → Result Text
read_file files name = elim (files name) [
  | none ↦ err (codes "File not found: " ++ name)
  | some text ↦ ok text
]

pub data Credentials : Type 0 where
  insecure : Credentials
  ssl : Text → Text → Text → Credentials

abbrev pub ca_file : Text
ca_file = codes "/cert/ca.pem"

abbrev pub cert_file : Text
cert_file = codes "/cert/server1.pem"

abbrev pub key_file : Text
key_file = codes "/cert/server1.key"

-- `GetSecureCredentials`: the root certificates, the private key and the certificate chain.
unfoldable pub get_secure_credentials : (Text → Option Text) → Result Credentials
unfolding read_file
get_secure_credentials files = do
  ca ← read_file files ca_file
  cert ← read_file files cert_file
  key ← read_file files key_file
  ok (ssl ca key cert)

-- `GreeterServiceImpl::SayHello`.
unfoldable pub say_hello : Text → Text
say_hello name = codes "KOS-Hello " ++ name

-- How `main` ends: with `EXIT_FAILURE` and the text logged, after the server with these credentials
-- has shut down, or by a call through the null pointer that `BuildAndStart` returns where it cannot
-- listen.
pub data ServerRun : Type 0 where
  exit_failure : Text → ServerRun
  served : Credentials → ServerRun
  crashed : ServerRun

-- `RunServer`. `starts` tells whether `BuildAndStart` gives a server.
unfoldable pub run_server : (Credentials → Bool) → Credentials → ServerRun
run_server starts c = if starts c then served c else crashed

-- The credentials that `main` takes.
unfoldable pub choose_credentials : (Text → Option Text) → Bool → Result Credentials
unfolding get_secure_credentials
choose_credentials files secure = if secure then get_secure_credentials files else ok insecure

-- `main` on the arguments behind the program's name. `network` is what `wait_for_iface` returns.
unfoldable pub server_main :
    (Text → Option Text) → Bool → (Credentials → Bool) → List Text → ServerRun
unfolding choose_credentials run_server
server_main files network starts args =
    elim (parse_server_args args
      (record { use_secure_connection = Bool.false; target_endpoint = List.[] })) [
        | runtime_error e ↦ exit_failure e
        | options o ↦
            if network
            then (elim (choose_credentials files o.use_secure_connection) [
              | err e ↦ exit_failure e
              | ok c ↦ run_server starts c
            ])
            else exit_failure (codes "Wait for network failed!")
      ]
