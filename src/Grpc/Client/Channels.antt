-- ===== src/Grpc/Client/Channels.antt =====
-- To which endpoint the client talks, and how.
use kos_ce_extra.Prelude.{
  ℕ, Bool, true, false, Option, some, List, map, Text, codes, Bool-cases, Option-cases, ◌↔◌, ◌≡◌,
  refl, if◌then◌else◌, ◌⊎◌, inl, inr, arith,
}
use kos_ce_extra.Grpc.CommandLine.{Options, parse_client_args}
use kos_ce_extra.Grpc.CommandLine.Laws.{Arg, render, apply_all, Parsed-cases, parse_client_args_iff}
use kos_ce_extra.Grpc.Server.{ok, err, read_file, ca_file}
use kos_ce_extra.Grpc.Client.{
  Channel, plain, secure, target_name_override, create_channel, Status, send_requests, exit_failure,
  exit_success, default_options, client_main,
}

-- The channel that options ask for.
abbrev pub Connects : (Text → Option Text) → Options → Channel → Type 0
Connects files o channel =
    ((o.use_secure_connection ≡ false) × (channel ≡ plain o.target_endpoint))
    ⊎ ((cacert : Text) × (o.use_secure_connection ≡ true)
        × (files ca_file ≡ some cacert)
        × (channel ≡ secure o.target_endpoint cacert target_name_override))

module _ (files : Text → Option Text) where
  create_channel-Connects :
      (o : Options) (channel : Channel)
      → create_channel files o.target_endpoint o.use_secure_connection ≡ ok channel
      → Connects files o channel
  unfolding create_channel read_file
  create_channel-Connects o channel h = elim (Bool-cases o.use_secure_connection) [
    | inr off ↦ inl (off, cc (rw (create_channel, off) at h))
    | inl on ↦ elim (Option-cases (files ca_file)) [
      | inl missing ↦ cc (rw (create_channel, on, read_file, missing) at h)
      | inr (cacert, e) ↦ inr (cacert, on, e, cc (rw (create_channel, on, read_file, e) at h))
    ]
  ]

  Connects-create_channel :
      (o : Options) (channel : Channel)
      → Connects files o channel
      → create_channel files o.target_endpoint o.use_secure_connection ≡ ok channel
  unfolding create_channel read_file
  Connects-create_channel o channel (inl h) = ground arith
  Connects-create_channel o channel (inr h) = ground arith

  -- The client runs to its end exactly where its arguments are `--secure` and `--target=<endpoint>`
  -- in any order and number, the network is there, and the file with the certificates is there if
  -- `--secure` is given. It sends all its requests over the channel that the arguments ask for,
  -- and logs each answer in order.
  pub client_main_iff :
      {S : Type 0} (network : Bool) (connect : Channel → Text → S → Status × S) (n : ℕ) (s : S)
      (args : List Text) (channel : Channel) (log : List Text)
      → (client_main files network connect n s args ≡ exit_success channel log) ↔ (
          (meant : List Arg) × (args ≡ map render meant)
          × (network ≡ true)
          × Connects files (apply_all meant default_options) channel
          × (log ≡ send_requests (connect channel) n s))
  unfolding client_main
  client_main_iff network connect n s args channel log = (
    λ h. elim (Parsed-cases (parse_client_args args default_options)) [
      | inr (t, e) ↦ cc (rw (client_main, e) at h)
      | inl (o, e) ↦
          let (meant, rendered, applied) = (parse_client_args_iff args default_options o).0 e in
          let (up, created, logged) = (runs_iff o).0 (rw (client_main, e) at h) in
          (meant, rendered, up, rw applied at (create_channel-Connects o channel created), logged)
    ],
    λ (meant, rendered, up, connects, logged).
        let parsed =
          (parse_client_args_iff args default_options (apply_all meant default_options)).1
            (meant, rendered, refl) in
        rw (client_main, parsed)
          ((runs_iff (apply_all meant default_options)).1
            (up, Connects-create_channel _ channel connects, logged)),
  )
    where
      runs_iff :
          (o : Options)
          → ((if network
                then (elim (create_channel files o.target_endpoint o.use_secure_connection) [
                  | err e ↦ exit_failure e
                  | ok c ↦ exit_success c (send_requests (connect c) n s)
                ])
                else exit_failure (codes "Wait for network failed!"))
              ≡ exit_success channel log)
            ↔ ((network ≡ true)
                × (create_channel files o.target_endpoint o.use_secure_connection ≡ ok channel)
                × (log ≡ send_requests (connect channel) n s))
      runs_iff o = (λ h. ground arith, λ h. ground arith)
