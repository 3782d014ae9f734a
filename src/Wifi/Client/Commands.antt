-- ===== src/Wifi/Client/Commands.antt =====
-- The commands that the client sends to wpa_supplicant.
use kos_ce_extra.Prelude.{
  ℕ, ◌+◌, Option, none, some, List, [], ◌∷◌, ◌++◌, append_assoc, Text, codes, ◌≡◌, refl, Bool-cases,
  inl, inr, ap, ◌∙◌,
}
use kos_ce_extra.Wifi.Manager.{
  Manager, run_command, add_network, get_networks, connect, disconnect, get_connection_status,
  get_current_ssid,
}
use kos_ce_extra.Wifi.Client.{
  Options, Network, success, greet_server, greeting_time, leave, join, wifi_main,
}
use kos_ce_extra.Wifi.Client.Steps.{
  peer_after, reply_of, Step, Step-trans, join_commands, leave_commands, session_commands,
  status-Step, ssid-Step, get_networks-Step, connect-Step, disconnect-Step,
}

append_parts :
    (xs all front middle back : List Text)
    → all ≡ xs ++ (front ++ middle)
    → all ++ back ≡ xs ++ (front ++ (middle ++ back))
append_parts xs all front middle back e =
    ap (λ l. l ++ back) e
    ∙ (append_assoc xs (front ++ middle) back ∙ ap (λ l. xs ++ l) (append_assoc front middle back))

-- The commands in front of a network's.
abbrev pub scan_commands : List Text
scan_commands = codes "STATUS" ∷ codes "SCAN" ∷ codes "SCAN_RESULTS" ∷ []

module _ {S : Type 0} (execute : Text → S → Option Text × S) where
  module _ {T : Type 0} (net : Network T) where
    leave-Step :
        (out ssid : Text) (greeted : Option (Text × T)) (t : T) (m : Manager S)
        → (leave execute net out ssid greeted t m).ending ≡ success
        → (n : ℕ) × Step execute m
            (leave_commands m.network_id n ++ codes "STATUS" ∷ [])
            (leave execute net out ssid greeted t m).manager
    unfolding leave
    leave-Step out ssid none t m ok = cc
    leave-Step out ssid (some (text, t')) t m ok =
        let m' = (disconnect execute m).1 in
        elim (Bool-cases (disconnect execute m).0) [
          | inr refused ↦ cc (rw (leave, refused) at ok)
          | inl left ↦
              let (n, rest) = disconnect-Step execute m left in
              (
                n,
                rw (leave, left)
                    (Step-trans execute m m' (get_connection_status execute m').1
                      (leave_commands m.network_id n) (codes "STATUS" ∷ []) rest
                      (status-Step execute m')),
              )
        ]

    -- The same, with the id of the network.
    leave-sent :
        (id out ssid : Text) (greeted : Option (Text × T)) (t : T) (m : Manager S)
        → m.network_id ≡ id
        → (leave execute net out ssid greeted t m).ending ≡ success
        → (n : ℕ) × ((leave execute net out ssid greeted t m).manager.sent
            ≡ m.sent ++ (leave_commands id n ++ codes "STATUS" ∷ []))
    leave-sent id out ssid greeted t m named ok =
        let (n, step) = leave-Step out ssid greeted t m ok in
        (n, step.0 ∙ ap (λ i. m.sent ++ (leave_commands i n ++ codes "STATUS" ∷ [])) named)

    join-sent :
        (options : Options) (out : Text) (t : T) (m : Manager S)
        → m.ssid ≡ options.ssid
        → m.psk ≡ options.psk
        → (join execute net options out t m).ending ≡ success
        → (n : ℕ) × (k : ℕ) × ((join execute net options out t m).manager.sent
            ≡ m.sent
              ++ session_commands options (reply_of execute (codes "ADD_NETWORK") m.peer) n k)
    unfolding join add_network run_command
    join-sent options out t m ssid psk ok =
        let id = (add_network execute m).0 in
        let m0 : Manager S = record m { network_id = id } in
        let m1 = (connect execute m).1 in
        let m2 = (get_current_ssid execute m1).1 in
        let m3 = (get_connection_status execute m2).1 in
        elim (Bool-cases (connect execute m).0) [
          | inr refused ↦ cc (rw (join, refused) at ok)
          | inl joined ↦
              let m4 : Manager S = record m3 { slept = m3.slept + greeting_time options } in
              let (n, first) = connect-Step execute options m ssid psk joined in
              let both =
                Step-trans execute m1 m2 m3 (codes "STATUS" ∷ []) (codes "STATUS" ∷ [])
                  (ssid-Step execute m1) (status-Step execute m2) in
              let shown = Step-trans execute m0 m1 m3 (join_commands options id n) _ first both in
              let (k, last) =
                leave-sent id _ _ (greet_server net options t) t m4 shown.1
                  (rw (join, joined) at ok) in
              (
                n,
                k,
                rw (join, joined)
                    (last
                      ∙ append_parts m.sent m3.sent (join_commands options id n)
                          (codes "STATUS" ∷ codes "STATUS" ∷ [])
                          (leave_commands id k ++ codes "STATUS" ∷ []) shown.0),
              )
        ]

    -- When `main` ends with `EXIT_SUCCESS`, whatever became of the message to the server, it has sent
    -- these commands and no others: it has looked for networks, configured and selected the network
    -- with the id that the peer replied to `ADD_NETWORK`, with the options' name and key, and disabled that same network, with
    -- some rounds of `STATUS` behind the selection and behind the disabling.
    pub wifi_main-sent :
        (options : Options) (peer : S) (t : T)
        → (wifi_main execute net options peer t).ending ≡ success
        → (n : ℕ) × (k : ℕ) × ((wifi_main execute net options peer t).manager.sent
            ≡ scan_commands
              ++ session_commands options
                  (reply_of execute (codes "ADD_NETWORK") (peer_after execute scan_commands peer))
                  n
                  k)
    unfolding wifi_main
    wifi_main-sent options peer t ok =
        let m0 : Manager S = record {
          ssid = options.ssid;
          psk = options.psk;
          network_id = [];
          peer = peer;
          sent = [];
          slept = 0;
        } in
        let m1 = (get_connection_status execute m0).1 in
        let m2 = (get_networks execute m1).1 in
        let shown = status-Step execute m0 in
        elim (Bool-cases (get_networks execute m1).0.0) [
          | inr refused ↦ cc (rw (wifi_main, refused) at ok)
          | inl listed ↦
              let both =
                Step-trans execute m0 m1 m2 _ _ shown (get_networks-Step execute m1 listed) in
              let (n, k, e) =
                join-sent options _ t m2 both.2 both.3 (rw (wifi_main, listed) at ok) in
              (n, k, rw (wifi_main, listed) (e ∙ rw (both.0, both.4) refl))
        ]
