-- ===== src/ErrorsViaIpc/System.antt =====
-- The clients in front of the two servers, behind the security policy
-- (einit/src/security.psl): a request with more than one repeat is denied.
use kos_ce_extra.Prelude.{ℕ, ◌%◌, Bool, none, some, ◌&&◌, ltb, ◌==◌, if◌then◌else◌}
use kos_ce_extra.ErrorsViaIpc.Protocol.{
  Request, Reply, result, status, runtime_error, throw_exception,
}
use kos_ce_extra.ErrorsViaIpc.Servers.{
  Returned, value, threw, sum_request_impl, sum_request, answer,
}
use kos_ce_extra.ErrorsViaIpc.Clients.{Sent, eok, eperm}

-- `requestCounter` of the C server and `m_requestCounter` of the C++ server.
pub record Counters : Type 0 where
  pub c : ℕ
  pub cpp : ℕ

-- `servers[0]` is the C server, `servers[1]` the C++ server.
unfoldable pub serve : ℕ → ℕ → ℕ → Request → Counters → Reply × Counters
unfolding sum_request_impl sum_request answer
serve rc_busy rc_fail cur req s =
    if cur == 0
    then (let (r, n) = sum_request_impl rc_busy s.c req in (r, record s { c = n }))
    else (let (r, n) = sum_request s.cpp req in (answer rc_busy rc_fail r, record s { cpp = n }))

abbrev pub max_security_granted_repeats : ℕ
max_security_granted_repeats = 1

-- The policy's `deny`.
unfoldable pub denied : Request → Bool
denied req = ltb max_security_granted_repeats req.repeats

-- The C++ proxy: a status goes through `ThrowException`; `left rc` is what the generated code does
-- with a status that the converter leaves alone.
unfoldable pub received : ℕ → (ℕ → Returned) → Reply → Returned
unfolding throw_exception
received rc_busy left (result r) = value r
received rc_busy left (status rc) = elim (throw_exception rc_busy rc) [
  | some e ↦ threw e
  | none ↦ left rc
]

-- The calls that the two clients make. A denied request never reaches a server: the C++ proxy
-- throws `std::runtime_error`, the C proxy returns `NK_EPERM`.
module _ (rc_busy rc_fail : ℕ) where
  unfoldable pub cpp_call : (ℕ → Returned) → ℕ → Request → Counters → Returned × Counters
  unfolding serve received denied
  cpp_call left cur req s =
      if denied req
      then (threw runtime_error, s)
      else (let (reply, s') = serve rc_busy rc_fail cur req s in (received rc_busy left reply, s'))

  unfoldable pub c_call : ℕ → Request → Counters → Sent × Counters
  unfolding serve denied
  c_call cur req s =
      if denied req
      then (eperm, s)
      else (let (reply, s') = serve rc_busy rc_fail cur req s in (eok reply, s'))

-- Both servers are at a request that they refuse.
abbrev pub both_busy : Counters → Bool
both_busy s = s.c % 2 == 0 && s.cpp % 2 == 0
