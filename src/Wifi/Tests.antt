-- ===== src/Wifi/Tests.antt =====
-- A client of a peer with a fixed script of replies, and the theorems at concrete inputs.
use kos_ce_extra.Prelude.{
  ℕ, suc, ◌≡◌, List, [], ◌∷◌, ◌++◌, Option, some, Text, codes, text_eq, arith, ltb, if◌then◌else◌,
}
use kos_ce_extra.Wifi.Property.{get_property, property_loop, line_value}
use kos_ce_extra.Wifi.Property.RoundTrip.{Line, pair, other, blob_of, get_property-blob_of}
use kos_ce_extra.Prelude.{Bool, true, false, none, ◌||◌, before, after?, refl}
use kos_ce_extra.Prelude.Stream.{getline}
use kos_ce_extra.Wifi.Manager.{
  Manager, is_completed, connect, disconnect, get_networks, start_scan, get_scan_results,
  add_network, set_network, select_network, disable_network, wait_status, poll, get_status,
  get_connection_status, get_current_ssid, run_ok, run_command,
}
use kos_ce_extra.Wifi.Client.{Options, Network, success, wifi_main, join, leave, greet_server}
use kos_ce_extra.Wifi.Client.Commands.{scan_commands, wifi_main-sent}
use kos_ce_extra.Wifi.Client.Steps.{session_commands, peer_after, reply_of}
use kos_ce_extra.Wifi.Manager.Waiting.{Waited, wait_status_lem}

abbrev status_lines : List Line
status_lines =
    pair (codes "ssid") (codes "a=b")
    ∷ other (codes "garbage")
    ∷ pair (codes "wpa_state") (codes "COMPLETED")
    ∷ []

get_property-blob_of_example :
    get_property (blob_of status_lines) (codes "ssid") ≡ some (codes "a=b")
unfolding text_eq
get_property-blob_of_example = get_property-blob_of status_lines (codes "ssid") (
  (ground arith, ground arith, ground arith),
  ((ground arith, ground arith), ((ground arith, ground arith, ground arith), tt)),
)

-- A peer that takes every command, and is connected from its seventh reply on.
abbrev willing : Text → ℕ → Option Text × ℕ
willing cmd n = (
  if text_eq cmd (codes "STATUS")
      then (if ltb n 6 then some (codes "wpa_state=SCANNING") else some (blob_of status_lines))
      else some (codes "OK"),
  suc n,
)

abbrev idle : Manager ℕ
idle = record {
  ssid = codes "net";
  psk = codes "secret";
  network_id = [];
  peer = 0;
  sent = [];
  slept = 0;
}

wait_status_lem_example : Waited willing (codes "wpa_state") is_completed 10 idle
wait_status_lem_example = wait_status_lem willing (codes "wpa_state") is_completed 10 idle

-- The peer is connected until the network is disabled.
abbrev joining : Text → Bool → Option Text × Bool
joining cmd left = (
  if text_eq cmd (codes "STATUS")
      then (if left then some (codes "wpa_state=SCANNING") else some (codes "wpa_state=COMPLETED"))
      else if text_eq cmd (codes "ADD_NETWORK")
      then some (codes "7")
      else some (codes "OK"),
  left || text_eq cmd (codes "DISABLE_NETWORK 7"),
)

abbrev offline : Network ℕ
offline = record {
  is_address = λ ip. true;
  connect_to = λ ip port t. (some (codes "refused"), t);
  send_text = λ text t. (none, t);
  is_open = λ t. true;
  close = λ t. (none, t);
}

abbrev options : Options
options = record {
  ssid = codes "net";
  psk = codes "secret";
  server_ip = codes "10.0.0.1";
  server_port = 80;
}

-- The client ends with `EXIT_SUCCESS` though it cannot reach the server.
joins : (wifi_main joining offline options false 0).ending ≡ success
unfolding wifi_main join leave connect disconnect get_networks start_scan get_scan_results
    add_network set_network select_network disable_network wait_status poll get_status
    get_connection_status get_current_ssid run_ok run_command get_property property_loop line_value
    getline before after? text_eq greet_server
joins = refl

wifi_main-sent_example :
    (n : ℕ) × (k : ℕ) × ((wifi_main joining offline options false 0).manager.sent
      ≡ scan_commands
        ++ session_commands options
            (reply_of joining (codes "ADD_NETWORK") (peer_after joining scan_commands false))
            n
            k)
wifi_main-sent_example = wifi_main-sent joining offline options false 0 joins
