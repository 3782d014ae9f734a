-- ===== src/Wifi/Client/Steps.antt =====
-- The commands that each operation of the manager sends.
use kos_ce_extra.Prelude.{
  ℕ, zero, suc, ◌+◌, Bool, true, not, Option, none, some, List, [], ◌∷◌, ◌++◌, append_assoc,
  append-nil, Text, codes, replicate, ◌≡◌, refl, Bool-cases, inl, inr, sym, ap, ◌∙◌,
}
use kos_ce_extra.Wifi.Manager.{
  Manager, default_timeout, is_completed, scan_time, run_command, run_ok, set_command, start_scan,
  get_scan_results, get_status, add_network, set_network, select_network, disable_network,
  get_networks, poll, wait_status, connect, disconnect, get_connection_status, get_current_ssid,
}
use kos_ce_extra.Wifi.Client.{Options}

abbrev statuses : ℕ → List Text
statuses n = replicate n (codes "STATUS")

-- What a peer that runs these commands is in.
abbrev pub peer_after : {S : Type 0} → (Text → S → Option Text × S) → List Text → S → S
peer_after execute [] peer = peer
peer_after execute (cmd ∷ commands) peer = peer_after execute commands (execute cmd peer).1

-- What it replies to a command; nothing where the command fails.
abbrev pub reply_of : {S : Type 0} → (Text → S → Option Text × S) → Text → S → Text
reply_of execute cmd peer = elim (execute cmd peer).0 [ none ↦ [] | some text ↦ text ]

peer_after-append :
    {S : Type 0} (execute : Text → S → Option Text × S) (xs ys : List Text) (peer : S)
    → peer_after execute (xs ++ ys) peer ≡ peer_after execute ys (peer_after execute xs peer)
peer_after-append execute [] ys peer = refl
peer_after-append execute (x ∷ xs) ys peer = peer_after-append execute xs ys (execute x peer).1

-- These commands are sent between the two states, the peer has run them, and the members stay.
abbrev pub Step :
    {S : Type 0} → (Text → S → Option Text × S) → Manager S → List Text → Manager S → Type 0
Step execute m commands m' =
    (m'.sent ≡ m.sent ++ commands)
    × (m'.network_id ≡ m.network_id)
    × (m'.ssid ≡ m.ssid)
    × (m'.psk ≡ m.psk)
    × (m'.peer ≡ peer_after execute commands m.peer)

pub Step-trans :
    {S : Type 0} (execute : Text → S → Option Text × S) (a b c : Manager S) (xs ys : List Text)
    → Step execute a xs b
    → Step execute b ys c
    → Step execute a (xs ++ ys) c
Step-trans execute a b c xs ys (sent, id, ssid, psk, peer) (sent', id', ssid', psk', peer') = (
  sent' ∙ (ap (λ l. l ++ ys) sent ∙ append_assoc a.sent xs ys),
  id' ∙ id,
  ssid' ∙ ssid,
  psk' ∙ psk,
  peer' ∙ (ap (peer_after execute ys) peer ∙ sym (peer_after-append execute xs ys a.peer)),
)

four_snocs :
    (xs : List Text) (a b c d : Text)
    → (((xs ++ a ∷ []) ++ b ∷ []) ++ c ∷ []) ++ d ∷ [] ≡ xs ++ a ∷ b ∷ c ∷ d ∷ []
four_snocs [] a b c d = refl
four_snocs (x ∷ xs) a b c d = ap (λ l. x ∷ l) (four_snocs xs a b c d)

-- The commands for the network with this id, which is
-- configured and selected, with rounds of `STATUS` behind that.
abbrev pub join_commands : Options → Text → ℕ → List Text
join_commands options id n =
    codes "ADD_NETWORK"
    ∷ set_command id (codes "ssid") options.ssid
    ∷ set_command id (codes "psk") options.psk
    ∷ (codes "SELECT_NETWORK " ++ id)
    ∷ statuses n

abbrev pub leave_commands : Text → ℕ → List Text
leave_commands id n = (codes "DISABLE_NETWORK " ++ id) ∷ statuses n

-- The commands behind the list of networks.
abbrev pub session_commands : Options → Text → ℕ → ℕ → List Text
session_commands options id n k =
    join_commands options id n
    ++ (codes "STATUS" ∷ codes "STATUS" ∷ (leave_commands id k ++ codes "STATUS" ∷ []))

module _ {S : Type 0} (execute : Text → S → Option Text × S) where
  run_command-Step :
      (cmd : Text) (m : Manager S) → Step execute m (cmd ∷ []) (run_command execute cmd m).1
  unfolding run_command
  run_command-Step cmd m = (refl, refl, refl, refl, refl)

  run_ok-Step : (cmd : Text) (m : Manager S) → Step execute m (cmd ∷ []) (run_ok execute cmd m).1
  unfolding run_ok
  run_ok-Step cmd m = run_command-Step cmd m

  poll-Step :
      (property : Text) (m : Manager S)
      → Step execute m (codes "STATUS" ∷ []) (poll execute property m).1
  unfolding poll get_status
  poll-Step property m = run_command-Step (codes "STATUS") (record m { slept = m.slept + 1 })

  -- The rounds of a wait send nothing but `STATUS`.
  wait_status-Step :
      (property : Text) (checker : Text → Bool) (timeout : ℕ) (m : Manager S)
      → (n : ℕ) × Step execute m (statuses n) (wait_status execute property checker timeout m).1
  unfolding wait_status
  wait_status-Step property checker zero m = (0, (sym (append-nil m.sent), refl, refl, refl, refl))
  wait_status-Step property checker (suc timeout) m =
      let m' = (poll execute property m).1 in
      elim (Bool-cases (checker (poll execute property m).0)) [
        | inl passes ↦ (1, rw (wait_status, passes) (poll-Step property m))
        | inr other ↦
            let (n, rest) = wait_status-Step property checker timeout m' in
            (
              suc n,
              rw (wait_status, other)
                  (Step-trans execute m m' (wait_status execute property checker timeout m').1
                    (codes "STATUS" ∷ []) (statuses n) (poll-Step property m) rest),
            )
      ]

  pub disconnect-Step :
      (m : Manager S)
      → (disconnect execute m).0 ≡ true
      → (n : ℕ) × Step execute m (leave_commands m.network_id n) (disconnect execute m).1
  unfolding disconnect disable_network
  disconnect-Step m ok =
      let cmd = codes "DISABLE_NETWORK " ++ m.network_id in
      let m' = (run_ok execute cmd m).1 in
      elim (Bool-cases (run_ok execute cmd m).0) [
        | inr refused ↦ cc (rw (disconnect, refused) at ok)
        | inl disabled ↦
            let left = λ (status : Text). not (is_completed status) in
            let (n, rest) = wait_status-Step (codes "wpa_state") left default_timeout m' in
            (
              n,
              rw (disconnect, disabled)
                  (Step-trans execute m m'
                    (wait_status execute (codes "wpa_state") left default_timeout m').1 (cmd ∷ [])
                    (statuses n) (run_ok-Step cmd m) rest),
            )
      ]

  -- The commands of a network that is configured, from the id that `ADD_NETWORK` gives.
  pub connect-Step :
      (options : Options) (m : Manager S)
      → m.ssid ≡ options.ssid
      → m.psk ≡ options.psk
      → (connect execute m).0 ≡ true
      → (n : ℕ) × Step execute
          (record m { network_id = (add_network execute m).0 })
          (join_commands options (add_network execute m).0 n)
          (connect execute m).1
  unfolding connect run_ok run_command add_network set_network select_network
  connect-Step options m ssid psk ok =
      let (id, m1) = add_network execute m in
      let m2 : Manager S = record m1 { network_id = id } in
      let set_ssid = set_command id (codes "ssid") m.ssid in
      let set_psk = set_command id (codes "psk") m.psk in
      let select = codes "SELECT_NETWORK " ++ id in
      let m3 = (run_ok execute set_ssid m2).1 in
      let m4 = (run_ok execute set_psk m3).1 in
      let m5 = (run_ok execute select m4).1 in
      elim (Bool-cases (run_ok execute set_ssid m2).0) [
        | inr refused ↦ cc (rw (connect, refused) at ok)
        | inl ssid_set ↦ elim (Bool-cases (run_ok execute set_psk m3).0) [
          | inr refused ↦ cc (rw (connect, ssid_set, refused) at ok)
          | inl psk_set ↦ elim (Bool-cases (run_ok execute select m4).0) [
            | inr refused ↦ cc (rw (connect, ssid_set, psk_set, refused) at ok)
            | inl selected ↦
                let (n, rest) =
                  wait_status-Step (codes "wpa_state") is_completed default_timeout m5 in
                let four : Step execute (record m { network_id = id })
                    (codes "ADD_NETWORK" ∷ set_ssid ∷ set_psk ∷ select ∷ []) m5 =
                  (
                    four_snocs m.sent (codes "ADD_NETWORK") set_ssid set_psk select,
                    refl,
                    refl,
                    refl,
                    refl,
                  ) in
                (
                  n,
                  rw (connect, ssid_set, psk_set, selected, ← ssid, ← psk)
                      (Step-trans execute (record m { network_id = id }) m5
                        (wait_status execute (codes "wpa_state") is_completed default_timeout m5).1
                        (codes "ADD_NETWORK" ∷ set_ssid ∷ set_psk ∷ select ∷ []) (statuses n) four
                        rest),
                )
          ]
        ]
      ]

  pub get_networks-Step :
      (m : Manager S)
      → (get_networks execute m).0.0 ≡ true
      → Step execute m (codes "SCAN" ∷ codes "SCAN_RESULTS" ∷ []) (get_networks execute m).1
  unfolding get_networks start_scan get_scan_results
  get_networks-Step m ok =
      let m' = (run_ok execute (codes "SCAN") m).1 in
      let m'' : Manager S = record m' { slept = m'.slept + scan_time } in
      elim (Bool-cases (run_ok execute (codes "SCAN") m).0) [
        | inr refused ↦ cc (rw (get_networks, refused) at ok)
        | inl started ↦
            rw (get_networks, started)
              (Step-trans execute m m'' (run_command execute (codes "SCAN_RESULTS") m'').1
                (codes "SCAN" ∷ []) (codes "SCAN_RESULTS" ∷ []) (run_ok-Step (codes "SCAN") m)
                (run_command-Step (codes "SCAN_RESULTS") m''))
      ]

  pub status-Step :
      (m : Manager S) → Step execute m (codes "STATUS" ∷ []) (get_connection_status execute m).1
  unfolding get_connection_status get_status
  status-Step m = run_command-Step (codes "STATUS") m

  pub ssid-Step :
      (m : Manager S) → Step execute m (codes "STATUS" ∷ []) (get_current_ssid execute m).1
  unfolding get_current_ssid get_status
  ssid-Step m = run_command-Step (codes "STATUS") m
