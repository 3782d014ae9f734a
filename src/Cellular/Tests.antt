-- ===== src/Cellular/Tests.antt =====
-- A message of the client and a modem that registers at its third answer, and the theorems at
-- concrete inputs.
use kos_ce_extra.Prelude.{
  ℕ, suc, ◌≡◌, ◌↔◌, refl, true, List, [], ◌∷◌, none, some, codes, take, replicate, ltb,
  if◌then◌else◌, arith,
}
use kos_ce_extra.Cellular.Memory.{done, overrun}
use kos_ce_extra.Cellular.Pdu.{ascii_to_pdu, drop_plus}
use kos_ce_extra.Cellular.Pdu.Reading.{read_message}
use kos_ce_extra.Cellular.Pdu.Bounds.{InBounds}
use kos_ce_extra.Cellular.Pdu.RoundTrip.{read_message-ascii_to_pdu}
use kos_ce_extra.Cellular.Pdu.Safety.{Encoded, ascii_to_pdu-InBounds, ascii_to_pdu-overruns}
use kos_ce_extra.Cellular.Client.{Ret, success, Modem, is_registered, sms_main}
use kos_ce_extra.Cellular.Client.Laws.{IsClean, sms_main_lem}
use kos_ce_extra.Cellular.Ntpd.{
  System, route_set, route_exists, ntpd_main, with_device, set_initial_time, mbim_connect,
  is_sim_ready, has_registered, connect_bearer, set_default_gateway, wait_time_update, pause,
}
use kos_ce_extra.Cellular.Ntpd.Laws.{Succeeds, ntpd_main_iff}

-- The first bytes of the message to +79000000000.
pdu_begins :
    ascii_to_pdu none (some (codes "+79000000000")) (some (codes "Hi")) (some (replicate 20 9)) 20
    ≡ done (
      16,
      0 ∷ 1 ∷ 0 ∷ 11 ∷ 0x91 ∷ 0x97 ∷ 0 ∷ 0 ∷ 0 ∷ 0 ∷ 0xf0 ∷ 0 ∷ 0 ∷ 2 ∷ 200 ∷ 52 ∷ 9 ∷ 9 ∷ 9 ∷ 9
          ∷ [],
    )
unfolding ascii_to_pdu
pdu_begins = refl

read_message-ascii_to_pdu_example :
    (n : ℕ) × (out : List ℕ) × (ascii_to_pdu
        (some (codes "+491770"))
        (some (codes "+79000000000"))
        (some (codes "Hi"))
        (some (replicate 40 7))
        40
      ≡ done (n, out))
    × (read_message (take n out)
        ≡ some (record {
          smsc = some (codes "491770");
          dest = codes "79000000000";
          text = codes "Hi";
        }))
unfolding drop_plus
read_message-ascii_to_pdu_example =
    read_message-ascii_to_pdu (some (codes "+491770")) (codes "+79000000000") (codes "Hi")
      (replicate 40 7) (omega arith) (omega arith) (omega arith) (omega arith) (omega arith)
      (omega arith)

ascii_to_pdu-InBounds_example :
    InBounds
      (Encoded 20)
      (ascii_to_pdu none (some (codes "12345")) (some (codes "Hi")) (some (replicate 20 0)) 20)
ascii_to_pdu-InBounds_example =
    ascii_to_pdu-InBounds none (some (codes "12345")) (some (codes "Hi")) (replicate 20 0)
      (omega arith)

ascii_to_pdu-overruns_example :
    ascii_to_pdu
      (some (codes "79160000000"))
      (some (codes "12345"))
      (some (codes "Hi"))
      (some (replicate 9 0))
      9
    ≡ overrun
unfolding drop_plus
ascii_to_pdu-overruns_example =
    ascii_to_pdu-overruns (codes "79160000000") (codes "12345") (codes "Hi") (replicate 9 0)
      (omega arith) (omega arith) refl

-- A modem that searches for two rounds and then registers at home; `sim` is what it says of its
-- SIM card.
abbrev searching : Ret → Modem ℕ
searching sim = record {
  wait_for_iface = λ s. (true, s);
  open_device = λ s. (success, s);
  info_sim = λ s. ((sim, 1), s);
  info_register_state = λ s. ((success, if ltb s 2 then 2 else 3), suc s);
  sms_send_pdu = λ pdu s. (success, s);
  close_device = λ s. (success, s);
  sleep = λ s. s;
  ready_state_initialized = 1;
  state_home = 3;
  state_roaming = 4;
  state_partner = 5;
  state_denied = 6;
}

sms_main_lem_example :
    IsClean (codes "+79000000000") (sms_main (searching success) (codes "+79000000000") 0)
unfolding drop_plus
sms_main_lem_example = sms_main_lem (searching success) (codes "+79000000000") (omega arith) 0

-- A network that grants everything, and a clock that the time daemon sets at the tenth step.
abbrev granting : System ℕ
granting = record {
  local_year = λ s. (some (if ltb s 10 then 2011 else 2026), suc s);
  clock_settime = λ year month day s. (true, s);
  wait_for_ip4 = λ s. (true, s);
  connect_device = λ request s. (success, s);
  info_ip_connection = λ s. ((success, 7 ∷ []), s);
  socket = λ s. (true, s);
  ioctl_add_route = λ update address s. (if update then route_set else route_exists, s);
  close_socket = λ s. s;
}

clock_is_set : (ntpd_main (searching success) granting 0).success ≡ true
unfolding ntpd_main with_device set_initial_time mbim_connect is_sim_ready has_registered
    is_registered connect_bearer set_default_gateway wait_time_update pause
clock_is_set = refl

ntpd_main_iff_example :
    (((ntpd_main (searching success) granting 0).success ≡ true)
      ↔ Succeeds (searching success) granting 0)
    × ((ntpd_main (searching success) granting 0).closed
        ≡ (ntpd_main (searching success) granting 0).opened)
ntpd_main_iff_example = ntpd_main_iff (searching success) granting 0
