-- ===== src/Wifi/Manager.antt =====
-- `ConnectionManager` of client/src/connection_manager.cpp, lines 13-180, over any
-- behaviour of wpa_supplicant.
pub mod Waiting
use kos_ce_extra.Prelude.{
  ℕ, zero, suc, ◌+◌, Bool, true, false, not, List, [], ◌∷◌, ◌++◌, Option, none, some, if◌then◌else◌,
  Text, codes, text_eq,
}
use kos_ce_extra.Wifi.Property.{get_property}

-- The members, what wpa_supplicant is in, the commands sent so far, and the seconds slept.
pub record Manager (S : Type 0) : Type 0 where
  pub ssid : Text
  pub psk : Text
  pub network_id : Text
  pub peer : S
  pub sent : List Text
  pub slept : ℕ

abbrev pub default_timeout : ℕ
default_timeout = 10

abbrev pub scan_time : ℕ
scan_time = 10

abbrev pub is_completed : Text → Bool
is_completed status = text_eq status (codes "COMPLETED")

abbrev pub set_command : Text → Text → Text → Text
set_command id property value =
    codes "SET_NETWORK " ++ (id ++ (codes " " ++ (property ++ (codes " " ++ value))))

-- The fuel of `get_property` never runs out.
abbrev pub property_of : Text → Text → Text
property_of blob property = elim (get_property blob property) [ none ↦ [] | some v ↦ v ]

-- `execute cmd peer` is `ExecuteCommand`: the text in the buffer, or `none` where the code is not
-- `rcOk`.
module _ {S : Type 0} (execute : Text → S → Option Text × S) where
  unfoldable pub run_command : Text → Manager S → Text × Manager S
  run_command cmd m =
      let (reply, peer) = execute cmd m.peer in
      (
        (elim reply [ none ↦ [] | some text ↦ text ]),
        record m { peer = peer; sent = m.sent ++ cmd ∷ [] },
      )

  -- A command that succeeds with `OK`.
  unfoldable pub run_ok : Text → Manager S → Bool × Manager S
  run_ok cmd m = let (reply, m') = run_command cmd m in (text_eq reply (codes "OK"), m')

  unfoldable pub start_scan : Manager S → Bool × Manager S
  start_scan m = run_ok (codes "SCAN") m

  unfoldable pub get_scan_results : Manager S → Text × Manager S
  get_scan_results m = run_command (codes "SCAN_RESULTS") m

  unfoldable pub get_status : Manager S → Text × Manager S
  get_status m = run_command (codes "STATUS") m

  unfoldable pub add_network : Manager S → Text × Manager S
  add_network m = run_command (codes "ADD_NETWORK") m

  unfoldable pub set_network : Text → Text → Text → Manager S → Bool × Manager S
  set_network id property value m = run_ok (set_command id property value) m

  unfoldable pub select_network : Text → Manager S → Bool × Manager S
  select_network id m = run_ok (codes "SELECT_NETWORK " ++ id) m

  unfoldable pub disable_network : Text → Manager S → Bool × Manager S
  disable_network id m = run_ok (codes "DISABLE_NETWORK " ++ id) m

  unfoldable pub get_networks : Manager S → (Bool × Text) × Manager S
  get_networks m =
      let (started, m') = start_scan m in
      if started
      then (let (results, m'') = get_scan_results (record m' { slept = m'.slept + scan_time }) in
          ((true, results), m''))
      else ((false, codes "Failed to get list of available networks"), m')

  -- One round of `WaitStatus`: a second of sleep, and the property now.
  unfoldable pub poll : Text → Manager S → Text × Manager S
  poll property m =
      let (blob, m') = get_status (record m { slept = m.slept + 1 }) in
      (property_of blob property, m')

  unfoldable pub wait_status : Text → (Text → Bool) → ℕ → Manager S → Bool × Manager S
  wait_status property checker zero m = (false, m)
  wait_status property checker (suc timeout) m =
      let (status, m') = poll property m in
      let rest = wait_status property checker timeout m' in
      if checker status then (true, m') else rest

  unfoldable pub connect : Manager S → Bool × Manager S
  connect m =
      let (id, m1) = add_network m in
      let m2 = record m1 { network_id = id } in
      let (ssid_set, m3) = set_network m2.network_id (codes "ssid") m2.ssid m2 in
      if not ssid_set
      then (false, m3)
      else (let (psk_set, m4) = set_network m3.network_id (codes "psk") m3.psk m3 in
          if not psk_set
          then (false, m4)
          else (let (selected, m5) = select_network m4.network_id m4 in
              if not selected
              then (false, m5)
              else wait_status (codes "wpa_state") is_completed default_timeout m5))

  unfoldable pub disconnect : Manager S → Bool × Manager S
  disconnect m =
      let (disabled, m') = disable_network m.network_id m in
      if not disabled
      then (false, m')
      else wait_status (codes "wpa_state") (λ status. not (is_completed status)) default_timeout m'

  unfoldable pub get_connection_status : Manager S → Text × Manager S
  get_connection_status m =
      let (blob, m') = get_status m in (property_of blob (codes "wpa_state"), m')

  unfoldable pub get_current_ssid : Manager S → Text × Manager S
  get_current_ssid m = let (blob, m') = get_status m in (property_of blob (codes "ssid"), m')
