-- ===== src/Grpc/Client.antt =====
-- The client's `main`, its channel and `GreeterClient` (grpc/client/src/main.cc,
-- grpc/client/src/greeter_client.cc), as they are built for KasperskyOS.
pub mod Channels
use kos_ce_extra.Prelude.{
  ℕ, zero, suc, Bool, false, Option, List, [], ◌∷◌, ◌++◌, Text, codes, if◌then◌else◌,
}
use kos_ce_extra.Prelude.Decimal.{decimal}
use kos_ce_extra.Grpc.CommandLine.{Options, options, runtime_error, parse_client_args}
use kos_ce_extra.Grpc.Server.{Result, ok, err, ◌>>=◌, read_file, ca_file}

-- What the call of the service gives: a reply, or an error code and its message.
pub data Status : Type 0 where
  reply : Text → Status
  error : ℕ → Text → Status

-- `GreeterClient::SayHello` behind the call.
unfoldable pub received : Status → Text
received (reply message) = message
received (error code message) = codes "RPC failed (" ++ (decimal code ++ (codes ") " ++ message))

-- A channel to an endpoint, plain or with the certificates that it trusts and the name that it
-- expects of the server.
pub data Channel : Type 0 where
  plain : Text → Channel
  secure : Text → Text → Text → Channel

abbrev pub target_name_override : Text
target_name_override = codes "foo.test.google.fr"

-- `GetSecureCredentials` and `CreateChannel`.
unfoldable pub create_channel : (Text → Option Text) → Text → Bool → Result Channel
create_channel files target is_secure =
    if is_secure
    then (read_file files ca_file >>= λ cacert. ok (secure target cacert target_name_override))
    else ok (plain target)

-- The requests of `main`, over any behaviour of the service: the lines that it logs.
unfoldable pub send_requests : {S : Type 0} → (Text → S → Status × S) → ℕ → S → List Text
send_requests say_hello zero s = []
send_requests say_hello (suc n) s =
    let (status, s') = say_hello (codes "KasperskyOS world") s in
    received status ∷ send_requests say_hello n s'

abbrev pub requests : ℕ
requests = 20000

pub data ClientRun : Type 0 where
  exit_failure : Text → ClientRun
  exit_success : Channel → List Text → ClientRun

abbrev pub default_options : Options
default_options = record { use_secure_connection = false; target_endpoint = codes "10.0.2.2:50051" }

-- `main` on the arguments behind the program's name. `connect` is the service behind a channel,
-- `network` what `wait_for_iface` returns, `n` the number of requests.
unfoldable pub client_main :
    {S : Type 0}
    → (Text → Option Text)
    → Bool
    → (Channel → Text → S → Status × S)
    → ℕ
    → S
    → List Text
    → ClientRun
client_main files network connect n s args = elim (parse_client_args args default_options) [
  | runtime_error e ↦ exit_failure e
  | options o ↦
      if network
      then (elim (create_channel files o.target_endpoint o.use_secure_connection) [
        | err e ↦ exit_failure e
        | ok channel ↦ exit_success channel (send_requests (connect channel) n s)
      ])
      else exit_failure (codes "Wait for network failed!")
]
