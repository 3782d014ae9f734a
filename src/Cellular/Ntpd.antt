-- ===== src/Cellular/Ntpd.antt =====
-- The client of cellular/mbim_ntpd (client/src/client.c): it sets a date in the past, connects to
-- the network, and waits until the time daemon has set the clock.
pub mod Laws
use kos_ce_extra.Prelude.{
  ℕ, zero, suc, ◌+◌, ◌%◌, Bool, true, false, not, Option, none, some, List, [], ◌∷◌, length, Text,
  codes, ltb, ◌==◌, if◌then◌else◌,
}
use kos_ce_extra.Cellular.Client.{Ret, is_success, Modem, is_registered}

-- What `ioctl(SIOCADDRT)` reports.
pub data RouteReply : Type 0 where
  route_set route_exists route_failed : RouteReply

-- What `VfsMbimConnect` is given: the three strings with their lengths, and the protocol.
pub record ConnectRequest : Type 0 where
  pub apn : Text
  pub apn_len : ℕ
  pub user_name : Text
  pub user_name_len : ℕ
  pub password : Text
  pub password_len : ℕ
  pub pap : Bool

-- The calls beside those of the modem. `local_year` is `time` with `localtime`: the year, that is
-- `tm_year + RTL_INITIAL_YEAR`. `clock_settime` is given the year, the month and the day for
-- `mktime`. `ioctl_add_route` is given `rt_update` and the address of the gateway.
pub record System (S : Type 0) : Type 0 where
  pub local_year : S → Option ℕ × S
  pub clock_settime : ℕ → ℕ → ℕ → S → Bool × S
  pub wait_for_ip4 : S → Bool × S
  pub connect_device : ConnectRequest → S → Ret × S
  pub info_ip_connection : S → (Ret × List ℕ) × S
  pub socket : S → Bool × S
  pub ioctl_add_route : Bool → ℕ → S → RouteReply × S
  pub close_socket : S → S

abbrev pub kos_birthday_year : ℕ
kos_birthday_year = 2011

abbrev pub kos_birthday_month : ℕ
kos_birthday_month = 11

abbrev pub kos_birthday_day : ℕ
kos_birthday_day = 11

abbrev pub attempts : ℕ
attempts = 10

abbrev pub time_step_sec : ℕ
time_step_sec = 5

-- A string is given without its terminator.
unfoldable pub str_len16_pad_even : Text → ℕ
str_len16_pad_even s = if length s % 2 == 1 then length s + 1 else length s

abbrev pub is_empty : Text → Bool
is_empty [] = true
is_empty (c ∷ s) = false

unfoldable pub connect_request : Text → Text → Text → ConnectRequest
unfolding str_len16_pad_even
connect_request apn user_name password = record {
  apn = apn;
  apn_len = str_len16_pad_even apn;
  user_name = user_name;
  user_name_len = str_len16_pad_even user_name;
  password = password;
  password_len = str_len16_pad_even password;
  pap = elim (is_empty user_name) [ true ↦ false | false ↦ true ];
}

module _ {S : Type 0} (m : Modem S) (y : System S) where
  -- `WaitSimReady` and `WaitRegistered` return `EXIT_SUCCESS` or `EXIT_FAILURE`.
  unfoldable pub is_sim_ready : ℕ → S → Bool × S
  is_sim_ready zero s = (false, s)
  is_sim_ready (suc seconds) s =
      let ((ret, sub_state), s') = m.info_sim s in
      let again = is_sim_ready seconds (m.sleep s') in
      if is_success ret
      then (if sub_state == m.ready_state_initialized then (true, s') else again)
      else (false, s')

  unfoldable pub has_registered : ℕ → S → Bool × S
  unfolding is_registered
  has_registered zero s = (false, s)
  has_registered (suc seconds) s =
      let ((ret, state), s') = m.info_register_state s in
      let again = has_registered seconds (m.sleep s') in
      if is_success ret
      then (if is_registered m state
          then (true, s')
          else if state == m.state_denied
          then (false, s')
          else again)
      else (false, s')

  unfoldable pub set_default_gateway : ℕ → S → Bool × S
  set_default_gateway addr s =
      let (opened, s1) = y.socket s in
      let (reply, s2) = y.ioctl_add_route false addr s1 in
      let (reply', s3) = y.ioctl_add_route true addr s2 in
      if opened
      then (elim reply [
        | route_set ↦ (true, y.close_socket s2)
        | route_failed ↦ (false, y.close_socket s2)
        | route_exists ↦ elim reply' [
          | route_set ↦ (true, y.close_socket s3)
          | route_exists ↦ (false, y.close_socket s3)
          | route_failed ↦ (false, y.close_socket s3)
        ]
      ])
      else (false, s1)

  -- `MbimConnect` from `VfsMbimConnect` on.
  unfoldable pub connect_bearer : Text → Text → Text → S → Bool × S
  unfolding set_default_gateway connect_request
  connect_bearer apn user_name password s =
      let (ret, s1) = y.connect_device (connect_request apn user_name password) s in
      let (up, s2) = y.wait_for_ip4 s1 in
      let ((ret', addresses), s3) = y.info_ip_connection s2 in
      if not (is_success ret)
      then (false, s1)
      else if not up
      then (false, s2)
      else if not (is_success ret')
      then (false, s3)
      else elim addresses [ [] ↦ (false, s3) | address ∷ more ↦ set_default_gateway address s3 ]

  unfoldable pub mbim_connect : Text → Text → Text → S → Bool × S
  unfolding is_sim_ready has_registered connect_bearer
  mbim_connect apn user_name password s =
      let (ready, s1) = is_sim_ready 30 s in
      let (registered, s2) = has_registered 30 s1 in
      if not ready
      then (false, s1)
      else if not registered
      then (false, s2)
      else connect_bearer apn user_name password s2

  unfoldable pub set_initial_time : S → Bool × S
  set_initial_time s =
      let (now, s1) = y.local_year s in
      let (set, s2) = y.clock_settime kos_birthday_year kos_birthday_month kos_birthday_day s1 in
      let (now', s3) = y.local_year s2 in
      elim now [
        | none ↦ (false, s1)
        | some year ↦
            if not set
            then (false, s2)
            else elim now' [ none ↦ (false, s3) | some year' ↦ (true, s3) ]
      ]

  unfoldable pub pause : ℕ → S → S
  pause zero s = s
  pause (suc n) s = pause n (m.sleep s)

  -- `WaitTimeUpdate` with the attempts that are left. A pause is `time_step_sec` seconds.
  unfoldable pub wait_time_update : ℕ → S → Bool × S
  unfolding pause
  wait_time_update zero s = (false, s)
  wait_time_update (suc left) s =
      let (now, s1) = y.local_year s in
      let again = wait_time_update left (pause time_step_sec s1) in
      elim now [
        | none ↦ (false, s1)
        | some year ↦ if ltb kos_birthday_year year then (true, s1) else again
      ]

-- How `main` ends: whether with `EXIT_SUCCESS`, and what became of the modem.
pub record NtpdRun (S : Type 0) : Type 0 where
  pub success : Bool
  pub opened : Bool
  pub closed : Bool
  pub peer : S

abbrev pub wwan_apn : Text
wwan_apn = codes "internet"

module _ {S : Type 0} (m : Modem S) (y : System S) where
  -- `main` behind `VfsMbimOpen`.
  unfoldable pub with_device : S → NtpdRun S
  with_device s =
      let (connected, s1) = mbim_connect m y wwan_apn [] [] s in
      let (updated, s2) = wait_time_update m y attempts s1 in
      if connected
      then record { success = updated; opened = true; closed = true; peer = (m.close_device s2).1 }
      else record { success = false; opened = true; closed = true; peer = (m.close_device s1).1 }

  unfoldable pub ntpd_main : S → NtpdRun S
  ntpd_main s =
      let (set, s1) = set_initial_time m y s in
      let (exists, s2) = m.wait_for_iface s1 in
      let (ret, s3) = m.open_device s2 in
      if not set
      then record { success = false; opened = false; closed = false; peer = s1 }
      else if not exists
      then record { success = false; opened = false; closed = false; peer = s2 }
      else if is_success ret
      then with_device s3
      else record { success = false; opened = false; closed = false; peer = s3 }
