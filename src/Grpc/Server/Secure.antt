-- ===== src/Grpc/Server/Secure.antt =====
-- With which credentials the server listens.
use kos_ce_extra.Prelude.{
  ℕ, zero, suc, Bool, true, false, Option, some, List, [], ◌∷◌, replicate, Text, inl, inr, ◌↔◌, ◌≡◌,
  refl, sym, ap, arith,
}
use mathlib.Core.Path.{ap₂}
use kos_ce_extra.Grpc.CommandLine.{try_parse_flag, Options, options, arg_secure, parse_server_args}
use kos_ce_extra.Grpc.CommandLine.Laws.{flag_whole, flag_accepts, Attempt-cases, Parsed-cases}
use kos_ce_extra.Grpc.Server.{
  Result, ok, err, ◌>>=◌, read_file, Credentials, insecure, ssl, ca_file, cert_file, key_file,
  get_secure_credentials, served, run_server, choose_credentials, server_main,
}

-- `--secure`, any number of times.
server_reads :
    (n : ℕ) (o : Options)
    → parse_server_args (replicate (suc n) arg_secure) o
      ≡ options (record o { use_secure_connection = true })
unfolding parse_server_args
server_reads zero o = rw (parse_server_args, flag_whole arg_secure)
server_reads (suc n) o =
    rw (parse_server_args, flag_whole arg_secure)
      (server_reads n (record o { use_secure_connection = true }))

server_accepts :
    (args : List Text) (o r : Options)
    → parse_server_args args o ≡ options r
    → (n : ℕ) × (args ≡ replicate n arg_secure)
unfolding parse_server_args
server_accepts [] o r h = (0, refl)
server_accepts (arg ∷ args) o r h = elim (Attempt-cases (try_parse_flag arg_secure arg)) [
  | inl (v, e) ↦
      let (same, is_true) = flag_accepts arg_secure arg v e in
      let (n, es) =
        server_accepts args (record o { use_secure_connection = v }) r
          (rw (parse_server_args, e) at h) in
      (suc n, ap₂ (λ (t : Text) (l : List Text). t ∷ l) same es)
  | inr (inl (t, e)) ↦ cc (rw (parse_server_args, e) at h)
  | inr (inr e) ↦ cc (rw (parse_server_args, e) at h)
]

-- What `n` arguments `--secure` ask for.
abbrev pub Wanted : (Text → Option Text) → ℕ → Credentials → Type 0
Wanted files zero c = c ≡ insecure
Wanted files (suc n) c =
    (ca : Text) × (cert : Text) × (key : Text) × (files ca_file ≡ some ca)
    × (files cert_file ≡ some cert)
    × (files key_file ≡ some key)
    × (c ≡ ssl ca key cert)

-- Whether `n` arguments make the connection secure.
abbrev is_secure : ℕ → Bool
is_secure zero = false
is_secure (suc n) = true

abbrev defaults : Options
defaults = record { use_secure_connection = false; target_endpoint = [] }

server_parsed :
    (n : ℕ)
    → parse_server_args (replicate n arg_secure) defaults
      ≡ options (record defaults { use_secure_connection = is_secure n })
unfolding parse_server_args
server_parsed zero = refl
server_parsed (suc n) = server_reads n defaults

-- Credentials come out of a chain that begins with a text only where that text was read.
chain_reads :
    (rest : Text → Result Credentials) (c : Credentials) (first : Result Text)
    → (first >>= rest) ≡ ok c
    → (text : Text) × (first ≡ ok text) × (rest text ≡ ok c)
chain_reads rest c (err missing) done = cc
chain_reads rest c (ok text) done = (text, refl, done)

module _ (files : Text → Option Text) where
  read_file-eq-ok : (name text : Text) → read_file files name ≡ ok text → files name ≡ some text
  unfolding read_file
  read_file-eq-ok name text h = ground arith

  chosen-Wanted :
      (n : ℕ) (c : Credentials) → choose_credentials files (is_secure n) ≡ ok c → Wanted files n c
  unfolding choose_credentials
  chosen-Wanted zero c h = cc
  chosen-Wanted (suc n) c h =
      let (ca, e1, h1) =
        chain_reads _ c (read_file files ca_file) (unfold get_secure_credentials in h) in
      let (cert, e2, h2) = chain_reads _ c (read_file files cert_file) h1 in
      let (key, e3, h3) = chain_reads _ c (read_file files key_file) h2 in
      (
        ca,
        cert,
        key,
        read_file-eq-ok ca_file ca e1,
        read_file-eq-ok cert_file cert e2,
        read_file-eq-ok key_file key e3,
        cc,
      )

  Wanted-chosen :
      (n : ℕ) (c : Credentials) → Wanted files n c → choose_credentials files (is_secure n) ≡ ok c
  unfolding choose_credentials get_secure_credentials read_file
  Wanted-chosen zero c h = ap ok (sym h)
  Wanted-chosen (suc n) c (ca, cert, key, e1, e2, e3, e) =
      rw (choose_credentials, get_secure_credentials, read_file, e1, e2, e3, e)

module _ (files : Text → Option Text) (network : Bool) (starts : Credentials → Bool) where
  server_main-replicate :
      (n : ℕ) (c : Credentials)
      → (server_main files network starts (replicate n arg_secure) ≡ served c)
        ↔ ((network ≡ true) × (choose_credentials files (is_secure n) ≡ ok c) × (starts c ≡ true))
  unfolding server_main run_server
  server_main-replicate n c =
      rw (server_main, server_parsed n) (λ h. ground arith, λ h. ground arith)

  server_main-parsed :
      (args : List Text) (c : Credentials)
      → server_main files network starts args ≡ served c
      → (n : ℕ) × (args ≡ replicate n arg_secure)
  unfolding server_main
  server_main-parsed args c h = elim (Parsed-cases (parse_server_args args defaults)) [
    | inl (o, e) ↦ server_accepts args defaults o e
    | inr (t, e) ↦ cc (rw (server_main, e) at h)
  ]

  -- The server serves with given credentials exactly where every argument is `--secure`, the
  -- network is there, the library starts with them, and they are the right ones: without an
  -- argument the insecure ones, otherwise those of the three files, each of which is there.
  pub server_main_iff :
      (args : List Text) (c : Credentials)
      → (server_main files network starts args ≡ served c) ↔ (
          (n : ℕ) × (args ≡ replicate n arg_secure)
          × Wanted files n c
          × (network ≡ true)
          × (starts c ≡ true))
  server_main_iff args c = (
    λ h.
        let (n, e) = server_main-parsed args c h in
        let (up, chosen, started) = (server_main-replicate n c).0 (rw e at h) in
        (n, e, chosen-Wanted files n c chosen, up, started),
    λ (n, e, wanted, up, started).
        rw e ((server_main-replicate n c).1 (up, Wanted-chosen files n c wanted, started)),
  )
