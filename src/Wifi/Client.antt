-- ===== src/Wifi/Client.antt =====
-- `main` and the class `BoostTcpSocket` (client/src/main.cpp), over any behaviour of wpa_supplicant
-- and of the network. The options are those that boost reads from the configuration file.
pub mod Steps
pub mod Commands
use kos_ce_extra.Prelude.{
  ℕ, ◌+◌, Bool, true, false, not, Option, none, some, List, [], ◌∷◌, ◌++◌, Text, codes, ◌==◌,
  if◌then◌else◌, length, ◌≡◌, ◌↔◌, refl, Bool-cases, Option-cases, inl, inr, sym, ap, ◌∙◌,
}
use kos_ce_extra.Prelude.Decimal.{decimal}
use kos_ce_extra.Wifi.Manager.{
  Manager, get_networks, connect, disconnect, get_connection_status, get_current_ssid,
}

pub record Options : Type 0 where
  pub ssid : Text
  pub psk : Text
  pub server_ip : Text
  pub server_port : ℕ

-- boost's socket: what it makes of an address, the message of the error of each operation, if it has
-- one, and whether the socket is open.
pub record Network (T : Type 0) : Type 0 where
  pub is_address : Text → Bool
  pub connect_to : Text → ℕ → T → Option Text × T
  pub send_text : Text → T → Option Text × T
  pub is_open : T → Bool
  pub close : T → Option Text × T

-- `m_ec`, what the network is in, and what is printed.
pub record TcpSocket (T : Type 0) : Type 0 where
  pub ec : Option Text
  pub net : T
  pub out : Text

unfoldable pub without_newlines : Text → Text
without_newlines [] = []
without_newlines (c ∷ s) = let rest = without_newlines s in if c == b'\n' then rest else c ∷ rest

-- `LogOperationResult`.
unfoldable pub log_operation_result : {T : Type 0} → Text → TcpSocket T → TcpSocket T
log_operation_result message sock = record sock {
  out =
      sock.out
      ++ (message ++ elim sock.ec [
        | none ↦ codes " success.\n"
        | some what ↦ codes " failed! Error: " ++ (what ++ codes "\n")
      ]);
}

module _ {T : Type 0} (net : Network T) where
  -- The constructor; the address is one that `from_string` takes.
  unfoldable pub open_socket : Text → ℕ → T → TcpSocket T
  open_socket ip port t =
      let (ec, t') = net.connect_to ip port t in
      log_operation_result (codes "TCP connection") (record { ec = ec; net = t'; out = [] })

  unfoldable pub send : Text → TcpSocket T → TcpSocket T
  send message sock =
      let (ec, t) = net.send_text message sock.net in
      let line = without_newlines (codes "Send message \"" ++ (message ++ codes "\"")) in
      elim sock.ec [
        | some what ↦ sock
        | none ↦ log_operation_result line (record sock { ec = ec; net = t })
      ]

  -- The destructor.
  unfoldable pub close_socket : TcpSocket T → TcpSocket T
  close_socket sock =
      let (ec, t) = net.close sock.net in
      if net.is_open sock.net
      then log_operation_result (codes "Close socket") (record sock { ec = ec; net = t })
      else sock

  -- The server's part of `main`: `none` is the exception of `from_string`, which nothing catches.
  unfoldable pub greet_server : Options → T → Option (Text × T)
  greet_server options t =
      let sock = close_socket (
        send (codes "Hello from KasperskyOS\n")
          (open_socket options.server_ip options.server_port t)) in
      if length options.server_ip == 0
      then some (codes "Server IP missing from config, not connecting.\n", t)
      else if net.is_address options.server_ip
      then some (sock.out, sock.net)
      else none

-- The end of `main`, or an exception that nothing catches.
pub data Ending : Type 0 where
  success failure terminated : Ending

-- What `main` has printed, and what it leaves.
pub record Finished (S T : Type 0) : Type 0 where
  pub ending : Ending
  pub out : Text
  pub manager : Manager S
  pub net : T

-- The seconds that `main` sleeps for a server or without one.
unfoldable pub greeting_time : Options → ℕ
greeting_time options = if length options.server_ip == 0 then 1 else 10

abbrev pub stars : Text
stars = codes "*************************************\n"

abbrev pub options_text : Options → Text
options_text options =
    codes "ssid: "
    ++ (options.ssid
        ++ (codes "\npsk: "
            ++ (options.psk
                ++ (codes "\nserver ip:port: "
                    ++ (options.server_ip
                        ++ (codes ":" ++ (decimal options.server_port ++ codes "\n")))))))

module _ {S T : Type 0} (execute : Text → S → Option Text × S) (net : Network T) where
  -- From the server's part on, with what is printed.
  unfoldable pub leave : Text → Text → Option (Text × T) → T → Manager S → Finished S T
  leave out ssid greeted t m =
      let (left, m') = disconnect execute m in
      let (status, m'') = get_connection_status execute m' in
      elim greeted [
        | none ↦ record { ending = terminated; out = out; manager = m; net = t }
        | some (text, t') ↦
            if not left
            then record {
              ending = failure;
              out = out ++ (text ++ codes "WiFi disconnection error\n");
              manager = m';
              net = t';
            }
            else record {
              ending = success;
              out =
                  out
                  ++ (text
                      ++ (codes "WiFi disconnection success from ssid '"
                          ++ (ssid ++ (codes "'\nConnection status: " ++ (status ++ codes "\n")))));
              manager = m'';
              net = t';
            }
      ]

  -- Behind the list of networks.
  unfoldable pub join : Options → Text → T → Manager S → Finished S T
  join options out t m =
      let (joined, m1) = connect execute m in
      let (ssid, m2) = get_current_ssid execute m1 in
      let (status, m3) = get_connection_status execute m2 in
      if not joined
      then record {
        ending = failure;
        out = out ++ codes "Connection error\n";
        manager = m1;
        net = t;
      }
      else leave
          (out
            ++ (codes "WiFi connection success to ssid '"
                ++ (ssid ++ (codes "'\nConnection status: " ++ (status ++ codes "\n")))))
          ssid (greet_server net options t) t
          (record m3 { slept = m3.slept + greeting_time options })

  unfoldable pub wifi_main : Options → S → T → Finished S T
  wifi_main options peer t =
      let m0 : Manager S = record {
        ssid = options.ssid;
        psk = options.psk;
        network_id = [];
        peer = peer;
        sent = [];
        slept = 0;
      } in
      let (status, m1) = get_connection_status execute m0 in
      let ((listed, networks), m2) = get_networks execute m1 in
      let out =
        codes "Start Wpa Client\n"
        ++ (options_text options
            ++ (codes "Connection status: "
                ++ (status ++ (codes "\n" ++ (stars ++ (networks ++ (codes "\n" ++ stars))))))) in
      if not listed
      then record { ending = failure; out = out; manager = m2; net = t }
      else join options out t m2
