-- ===== src/Grpc/Tests.antt =====
-- Command lines, and the theorems at concrete inputs.
use kos_ce_extra.Prelude.{
  ℕ, ◌+◌, true, false, Option, none, some, List, [], ◌∷◌, map, replicate, Text, codes, text_eq, ◌↔◌,
  ◌≡◌, if◌then◌else◌,
}
use kos_ce_extra.Grpc.CommandLine.{Options, options, arg_secure, parse_client_args}
use kos_ce_extra.Grpc.CommandLine.Laws.{Arg, render, apply_all, parse_client_args_iff}
use kos_ce_extra.Grpc.Client.{
  Status, reply, Channel, plain, send_requests, exit_success, default_options, client_main,
}
use kos_ce_extra.Grpc.Client.Channels.{Connects, client_main_iff}
use kos_ce_extra.Grpc.Server.{ssl, served, server_main}
use kos_ce_extra.Grpc.Server.Secure.{Wanted, server_main_iff}

abbrev given : List Text
given = codes "--target=a=b" ∷ codes "--secure" ∷ []

abbrev defaults : Options
defaults = record { use_secure_connection = false; target_endpoint = codes "10.0.2.2:50051" }

abbrev wished : Options
wished = record { use_secure_connection = true; target_endpoint = codes "a=b" }

parse_client_args_iff_example :
    (parse_client_args given defaults ≡ options wished)
    ↔ ((meant : List Arg) × (given ≡ map render meant) × (wished ≡ apply_all meant defaults))
parse_client_args_iff_example = parse_client_args_iff given defaults wished

abbrev no_files : Text → Option Text
no_files name = if text_eq name (codes "/cert/ca.pem") then some (codes "CA") else none

server_main_iff_example :
    (server_main no_files true (λ c. true) (codes "--secure" ∷ []) ≡ served (ssl [] [] [])) ↔ (
      (n : ℕ) × (codes "--secure" ∷ [] ≡ replicate n arg_secure)
      × Wanted no_files n (ssl [] [] [])
      × (true ≡ true)
      × (true ≡ true))
server_main_iff_example =
    server_main_iff no_files true (λ c. true) (codes "--secure" ∷ []) (ssl [] [] [])

abbrev answers : Channel → Text → ℕ → Status × ℕ
answers channel name s = (reply name, s + 1)

client_main_iff_example :
    (client_main no_files true answers 1 0 (codes "--secure" ∷ [])
      ≡ exit_success (plain []) ([] ∷ []))
    ↔ ((meant : List Arg) × (codes "--secure" ∷ [] ≡ map render meant)
        × (true ≡ true)
        × Connects no_files (apply_all meant default_options) (plain [])
        × ([] ∷ [] ≡ send_requests (answers (plain [])) 1 0))
client_main_iff_example =
    client_main_iff no_files true answers 1 0 (codes "--secure" ∷ []) (plain []) ([] ∷ [])
