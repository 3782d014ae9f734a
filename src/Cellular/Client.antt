-- ===== src/Cellular/Client.antt =====
-- `WaitSimReady`, `WaitRegistered` and `main` (cellular/mbim_sms/client/src/main.c) over any
-- behaviour of the modem.
pub mod Laws
use kos_ce_extra.Prelude.{
  ℕ, zero, suc, Bool, true, false, ◌||◌, none, some, List, [], ◌∷◌, take, replicate, Text, codes,
  ◌==◌, if◌then◌else◌,
}
use kos_ce_extra.Cellular.Memory.{done, failed, overrun}
use kos_ce_extra.Cellular.Pdu.{ascii_to_pdu}

-- An `int` that a call returns: 0, a negative number, or a positive one, which is an MBIM status.
pub data Ret : Type 0 where
  success : Ret
  negative : ℕ → Ret
  mbim_status : ℕ → Ret

abbrev pub is_success : Ret → Bool
is_success success = true
is_success (negative n) = false
is_success (mbim_status n) = false

abbrev pub is_negative : Ret → Bool
is_negative success = false
is_negative (negative n) = true
is_negative (mbim_status n) = false

-- The calls of the modem's library (mbim_wrapper.h) and its constants. `S` is what the modem is in;
-- a second goes by in `sleep`.
pub record Modem (S : Type 0) : Type 0 where
  pub wait_for_iface : S → Bool × S
  pub open_device : S → Ret × S
  pub info_sim : S → (Ret × ℕ) × S
  pub info_register_state : S → (Ret × ℕ) × S
  pub sms_send_pdu : List ℕ → S → Ret × S
  pub close_device : S → Ret × S
  pub sleep : S → S
  pub ready_state_initialized : ℕ
  pub state_home : ℕ
  pub state_roaming : ℕ
  pub state_partner : ℕ
  pub state_denied : ℕ

module _ {S : Type 0} (m : Modem S) where
  unfoldable pub wait_sim_ready : ℕ → S → Ret × S
  wait_sim_ready zero s = (negative 0, s)
  wait_sim_ready (suc seconds) s =
      let ((ret, sub_state), s') = m.info_sim s in
      let again = wait_sim_ready seconds (m.sleep s') in
      if is_success ret
      then (if sub_state == m.ready_state_initialized then (success, s') else again)
      else (ret, s')

  unfoldable pub is_registered : ℕ → Bool
  is_registered state =
      state == m.state_home || state == m.state_roaming || state == m.state_partner

  unfoldable pub wait_registered : ℕ → S → Ret × S
  wait_registered zero s = (negative 0, s)
  wait_registered (suc seconds) s =
      let ((ret, state), s') = m.info_register_state s in
      let again = wait_registered seconds (m.sleep s') in
      if is_success ret
      then (if is_registered state
          then (success, s')
          else if state == m.state_denied
          then (negative 0, s')
          else again)
      else (negative 0, s')

abbrev pub sms_text : Text
sms_text = codes "Hello from KasperskyOS!"

abbrev pub timeout_s : ℕ
timeout_s = 30

-- How `main` ends, and the messages that it hands to `VfsMbimSmsSendPdu`; `crashed` is a write
-- outside its buffer.
pub data Exit : Type 0 where
  exit_success exit_failure crashed : Exit

pub record Run (S : Type 0) : Type 0 where
  pub exit : Exit
  pub opened : Bool
  pub closed : Bool
  pub sent : List (List ℕ)
  pub peer : S

module _ {S : Type 0} (m : Modem S) (dest_number : Text) where
  -- Close the modem and fail.
  unfoldable pub give_up : S → Run S
  give_up s = record {
    exit = exit_failure;
    opened = true;
    closed = true;
    sent = [];
    peer = (m.close_device s).1;
  }

  -- `main` from the encoding of the message on.
  unfoldable pub send_message : S → Run S
  send_message s =
      elim (ascii_to_pdu none (some dest_number) (some sms_text) (some (replicate 256 0)) 256) [
        | done (n, pdu) ↦
            let (ret, s1) = m.sms_send_pdu (take n pdu) s in
            let (ret', s2) = m.close_device s1 in
            record {
              exit = if is_negative ret' then exit_failure else exit_success;
              opened = true;
              closed = true;
              sent = take n pdu ∷ [];
              peer = s2;
            }
        | failed ↦ give_up s
        | overrun ↦ record { exit = crashed; opened = true; closed = false; sent = []; peer = s }
      ]

  -- `main` behind `VfsMbimOpen`.
  unfoldable pub with_modem : S → Run S
  with_modem s =
      let (ret, s1) = wait_sim_ready m timeout_s s in
      if is_negative ret
      then give_up s1
      else (let (ret', s2) = wait_registered m timeout_s s1 in
          if is_negative ret' then give_up s2 else send_message s2)

  unfoldable pub sms_main : S → Run S
  sms_main s =
      let (exists, s1) = m.wait_for_iface s in
      let (ret, s2) = m.open_device s1 in
      if exists
      then (if is_success ret
          then with_modem s2
          else record { exit = exit_failure; opened = false; closed = false; sent = []; peer = s2 })
      else record { exit = exit_failure; opened = false; closed = false; sent = []; peer = s1 }
