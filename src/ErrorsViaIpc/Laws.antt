-- ===== src/ErrorsViaIpc/Laws.antt =====
-- What the servers, the converter and the clients guarantee.
use kos_ce_extra.Prelude.{
  ℕ, suc, ◌+◌, ◌%◌, ◌<◌, ◌≡◌, refl, ◌≢◌, ◌↔◌, List, [], ◌∷◌, some, true, false, arith,
  if◌then◌else◌, Bool, ◌∙◌, map, ◌++◌, bit_xor, ◌≤◌, zero,
}
use kos_ce_extra.ErrorsViaIpc.Protocol.{
  u32, u64, Request, Exception, server_busy, runtime_error, Reply, result, status, catch_exception,
  throw_exception,
}
use kos_ce_extra.ErrorsViaIpc.Servers.{
  Returned, threw, serve_c, serve_cpp, first_counter, dispatch_loop, Round, dispatched, recv_failed,
  exit_failure,
}
use kos_ce_extra.ErrorsViaIpc.Clients.{
  process_request, sum, nullopt, out_of_fuel, repeated, Sent, other_error, request_loop, logged,
  exceeded, still_running,
}
use kos_ce_extra.ErrorsViaIpc.System.{Counters, cpp_call, c_call, both_busy}

-- An exception crosses the converter, server to client, as itself exactly when it is `ServerBusy`:
-- with `rcBusy` and `rcFail` apart, `ThrowException` rethrows `ServerBusy` for the code that
-- `CatchException` makes of it, and throws nothing for the code of any other exception.
throw_exception-catch_exception :
    (rc_busy rc_fail : ℕ) (e : Exception)
    → rc_busy ≢ rc_fail
    → (throw_exception rc_busy (catch_exception rc_busy rc_fail e) ≡ some server_busy)
      ↔ (e ≡ server_busy)
unfolding throw_exception catch_exception
throw_exception-catch_exception rc_busy rc_fail server_busy h = ground arith
throw_exception-catch_exception rc_busy rc_fail _ h = ground arith

-- The replies that both servers owe: a sum, a refusal, a sum, ...
abbrev pub alternate : ℕ → Bool → List Request → List Reply
alternate rc_busy turn [] = []
alternate rc_busy true (req ∷ reqs) =
    result (u32 (req.num1 + req.num2)) ∷ alternate rc_busy false reqs
alternate rc_busy false (req ∷ reqs) = status rc_busy ∷ alternate rc_busy true reqs

serve_c-from :
    (rc_busy n : ℕ) (reqs : List Request)
    → (n % 2 ≡ 1 → serve_c rc_busy n reqs ≡ alternate rc_busy true reqs)
      × (n % 2 ≡ 0 → serve_c rc_busy n reqs ≡ alternate rc_busy false reqs)
unfolding serve_c
serve_c-from rc_busy n [] = (λ _. refl, λ _. refl)
serve_c-from rc_busy n (req ∷ reqs) =
    let (odd, even) = serve_c-from rc_busy (u64 (n + 1)) reqs in ground (arith, odd, even)

serve_cpp-eq-serve_c :
    (rc_busy rc_fail n : ℕ) (reqs : List Request)
    → serve_cpp rc_busy rc_fail n reqs ≡ serve_c rc_busy n reqs
unfolding serve_cpp serve_c
serve_cpp-eq-serve_c rc_busy rc_fail n [] = refl
serve_cpp-eq-serve_c rc_busy rc_fail n (req ∷ reqs) =
    ground (arith, serve_cpp-eq-serve_c rc_busy rc_fail (u64 (n + 1)) reqs)

-- On every sequence of requests the C server and the C++ server send the same replies: the sum,
-- wrapped to 32 bits, to every other request, beginning with the first, and `rcBusy` to the rest.
-- This holds through every wrap-around of the 64-bit counters.
pub serve-eq-alternate :
    (rc_busy rc_fail : ℕ) (reqs : List Request)
    → (serve_c rc_busy first_counter reqs ≡ alternate rc_busy true reqs)
      × (serve_cpp rc_busy rc_fail first_counter reqs ≡ alternate rc_busy true reqs)
serve-eq-alternate rc_busy rc_fail reqs =
    let served = (serve_c-from rc_busy first_counter reqs).0 refl in
    (served, serve_cpp-eq-serve_c rc_busy rc_fail first_counter reqs ∙ served)

-- The C server's dispatch loop ends only with a failure, at the first round in which the
-- transport or the dispatcher fails; until then it has sent the replies of `serve_c`, in order.
dispatch_loop-sent :
    (rc_busy n : ℕ) (reqs : List Request) (rounds : List Round)
    → dispatch_loop rc_busy n (map (λ req. dispatched req true) reqs ++ recv_failed ∷ rounds)
      ≡ (serve_c rc_busy n reqs, exit_failure)
unfolding dispatch_loop serve_c
dispatch_loop-sent rc_busy n [] rounds = refl
dispatch_loop-sent rc_busy n (req ∷ reqs) rounds =
    ground (arith, dispatch_loop-sent rc_busy (u64 (n + 1)) reqs rounds)

-- The C++ client against the two servers and the policy: `ProcessRequest` ends within three
-- requests, from either server, and returns the sum of the two numbers, wrapped to 32 bits,
-- unless both servers are at a request that they refuse: then it returns `nullopt`.
pub process_request_lem :
    (rc_busy rc_fail : ℕ) (left : ℕ → Returned) (k first n1 n2 : ℕ) (s : Counters)
    → first < 2
    → (process_request
        (cpp_call rc_busy rc_fail left)
        (suc (suc (suc k)))
        first
        (record { repeats = 0; num1 = n1; num2 = n2 })
        s).0
      ≡ (if both_busy s then nullopt else sum (u32 (n1 + n2)))
unfolding process_request cpp_call catch_exception
process_request_lem rc_busy rc_fail left k zero n1 n2 s h = ground arith
process_request_lem rc_busy rc_fail left k (suc zero) n1 n2 s h = ground arith
process_request_lem rc_busy rc_fail left k (suc (suc first)) n1 n2 s h = absurd (omega arith)

-- The C client against the same servers and policy: its loop ends within three requests, and logs
-- the same sum, unless both servers refuse: then it reports that one repeat was too many.
request_loop_lem :
    (rc_busy rc_fail : ℕ) (k first n1 n2 : ℕ) (s : Counters)
    → first < 2
    → (request_loop
        (c_call rc_busy rc_fail)
        rc_busy
        (suc (suc (suc k)))
        first
        (record { repeats = 0; num1 = n1; num2 = n2 })
        s).0
      ≡ (if both_busy s then exceeded 1 else logged (result (u32 (n1 + n2))))
unfolding request_loop c_call catch_exception
request_loop_lem rc_busy rc_fail k zero n1 n2 s h = ground arith
request_loop_lem rc_busy rc_fail k (suc zero) n1 n2 s h = ground arith
request_loop_lem rc_busy rc_fail k (suc (suc first)) n1 n2 s h = absurd (omega arith)

module _ {S : Type 0} (call : ℕ → Request → S → Returned × S)
    (deny : (cur : ℕ) (req : Request) (s : S)
      → 1 < req.repeats
      → (call cur req s).0 ≡ threw runtime_error) where
  -- `d` more repeats bring the request to the limit.
  process_request_settles :
      (d fuel cur : ℕ) (req : Request) (s : S)
      → d < fuel
      → req.repeats < 3
      → 1 < req.repeats + d
      → ((process_request call (suc d) cur req s).0 ≢ out_of_fuel)
        × (process_request call fuel cur req s ≡ process_request call (suc d) cur req s)
  unfolding process_request
  process_request_settles d zero cur req s e _ _ = elim e [ ]
  process_request_settles zero (suc fuel) cur req s _ _ h = ground (arith, deny cur req s)
  process_request_settles (suc d) (suc fuel) cur req s e b h = ground (
    arith,
    deny cur req s,
    process_request_settles d fuel (bit_xor cur 1) (repeated req) (call cur req s).1,
  )

  -- Whatever the servers and other clients do, three requests are enough for `ProcessRequest`
  -- where every request with more than one repeat throws `std::runtime_error`: it returns or
  -- throws, and with more fuel it does the same.
  pub process_request_total :
      (fuel first n1 n2 : ℕ) (s : S)
      → 3 ≤ fuel
      → let req : Request = record { repeats = 0; num1 = n1; num2 = n2 } in
        ((process_request call 3 first req s).0 ≢ out_of_fuel)
        × (process_request call fuel first req s ≡ process_request call 3 first req s)
  process_request_total fuel first n1 n2 s h =
      process_request_settles 2 fuel first (record { repeats = 0; num1 = n1; num2 = n2 }) s h
        (omega arith) (omega arith)

-- The C client has no limit of its own: where every call fails with an error other than
-- `NK_EPERM`, its loop runs on after any number of requests.
request_loop_spins :
    {S : Type 0} (call : ℕ → Request → S → Sent × S) (rc_busy code : ℕ)
    → ((cur : ℕ) (req : Request) (s : S) → (call cur req s).0 ≡ other_error code)
    → (fuel cur : ℕ) (req : Request) (s : S)
    → (request_loop call rc_busy fuel cur req s).0 ≡ still_running
unfolding request_loop
request_loop_spins call rc_busy code fail zero cur req s = refl
request_loop_spins call rc_busy code fail (suc fuel) cur req s = ground (
  arith,
  fail cur req s,
  request_loop_spins call rc_busy code fail fuel cur req (call cur req s).1,
)
