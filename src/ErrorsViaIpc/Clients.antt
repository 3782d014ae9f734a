-- ===== src/ErrorsViaIpc/Clients.antt =====
-- The two clients (client_cpp/src/client.cpp, client_c/src/client.c) over any pair of endpoints.
-- `fuel` bounds the number of requests sent.
use kos_ce_extra.Prelude.{ℕ, zero, suc, ◌+◌, ◌-◌, ◌^◌, bit_xor, ◌==◌, if◌then◌else◌}
use kos_ce_extra.ErrorsViaIpc.Protocol.{
  u32, Request, Reply, result, status, Exception, server_busy, runtime_error, std_exception,
  unknown,
}
use kos_ce_extra.ErrorsViaIpc.Servers.{Returned, value, threw}

abbrev pub repeated : Request → Request
repeated req = record req { repeats = u32 (req.repeats + 1) }

-- `sum r` and `nullopt` are the results of `ProcessRequest`; `propagated` is an exception that it
-- does not catch.
pub data Processed : Type 0 where
  sum : ℕ → Processed
  nullopt : Processed
  propagated : Exception → Processed
  out_of_fuel : Processed

-- `call server request state` is the endpoint's `SumRequest`, and whatever it changes.
unfoldable pub process_request {ℓ} :
    {S : Type ℓ} → (ℕ → Request → S → Returned × S) → ℕ → ℕ → Request → S → Processed × S
process_request call zero cur req s = (out_of_fuel, s)
process_request call (suc fuel) cur req s =
    let (returned, s') = call cur req s in
    elim returned [
      | value r ↦ (sum r, s')
      | threw server_busy ↦ process_request call fuel (bit_xor cur 1) (repeated req) s'
      | threw runtime_error ↦ (nullopt, s')
      | threw std_exception ↦ (propagated std_exception, s')
      | threw unknown ↦ (propagated unknown, s')
    ]

-- What the C proxy's `SumRequest` leaves behind: `NK_EOK` with a reply, `NK_EPERM`, or another
-- `nk_err_t`.
pub data Sent : Type 0 where
  eok : Reply → Sent
  eperm : Sent
  other_error : ℕ → Sent

-- How the inner `for (;;)` of the C client ends: with the result that it logs, or with the number
-- of repeats that was too many.
pub data LoopResult : Type 0 where
  logged : Reply → LoopResult
  exceeded : ℕ → LoopResult
  still_running : LoopResult

unfoldable pub request_loop {ℓ} :
    {S : Type ℓ} → (ℕ → Request → S → Sent × S) → ℕ → ℕ → ℕ → Request → S → LoopResult × S
request_loop call rc_busy zero cur req s = (still_running, s)
request_loop call rc_busy (suc fuel) cur req s =
    let (sent, s') = call cur req s in
    let changed = request_loop call rc_busy fuel (bit_xor cur 1) (repeated req) s' in
    let same = request_loop call rc_busy fuel cur req s' in
    elim sent [
      | eok (result r) ↦ (logged (result r), s')
      | eok (status rc) ↦ if rc == rc_busy then changed else (logged (status rc), s')
      | eperm ↦ (exceeded (u32 (req.repeats + (2 ^ 32 - 1))), s')
      | other_error e ↦ same
    ]
