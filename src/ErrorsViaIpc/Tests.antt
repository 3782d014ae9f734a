-- ===== src/ErrorsViaIpc/Tests.antt =====
-- Runs of the servers and the clients, and the theorems at concrete inputs.
use kos_ce_extra.Prelude.{
  ℕ, suc, ◌+◌, ltb, ◌≡◌, refl, ◌≢◌, [], ◌∷◌, arith, ◌<◌, true, if◌then◌else◌,
}
use kos_ce_extra.ErrorsViaIpc.Protocol.{u32, Request, server_busy, runtime_error, catch_exception}
use kos_ce_extra.ErrorsViaIpc.Servers.{Returned, threw, serve_c, serve_cpp, first_counter}
use kos_ce_extra.ErrorsViaIpc.Clients.{
  process_request, sum, nullopt, out_of_fuel, Sent, other_error,
}
use kos_ce_extra.ErrorsViaIpc.System.{Counters, cpp_call, both_busy}
use kos_ce_extra.ErrorsViaIpc.Laws.{
  alternate, serve-eq-alternate, process_request_lem, process_request_total,
}

abbrev ask : Request
ask = record { repeats = 0; num1 = 4294967295; num2 = 3 }

abbrev fresh : Counters
fresh = record { c = 1; cpp = 1 }

abbrev refusing : Counters
refusing = record { c = 2; cpp = 18446744073709551614 }

sum_wraps : (process_request (cpp_call 11 1 (λ rc. threw runtime_error)) 3 1 ask fresh).0 ≡ sum 2
unfolding process_request cpp_call catch_exception
sum_wraps = refl

serve-eq-alternate_example :
    (serve_c 11 first_counter (ask ∷ ask ∷ []) ≡ alternate 11 true (ask ∷ ask ∷ []))
    × (serve_cpp 11 1 first_counter (ask ∷ ask ∷ []) ≡ alternate 11 true (ask ∷ ask ∷ []))
serve-eq-alternate_example = serve-eq-alternate 11 1 (ask ∷ ask ∷ [])

process_request_lem_example :
    (process_request
      (cpp_call 11 1 (λ rc. threw runtime_error))
      3
      1
      (record { repeats = 0; num1 = 4; num2 = 5 })
      refusing).0
    ≡ (if both_busy refusing then nullopt else sum (u32 (4 + 5)))
process_request_lem_example =
    process_request_lem 11 1 (λ rc. threw runtime_error) 0 1 4 5 refusing (omega arith)

-- Endpoints that refuse every request, until the transport denies it.
abbrev always_busy : ℕ → Request → ℕ → Returned × ℕ
always_busy cur req s =
    (if ltb 1 req.repeats then threw runtime_error else threw server_busy, suc s)

always_busy-denies :
    (cur : ℕ) (req : Request) (s : ℕ)
    → 1 < req.repeats
    → (always_busy cur req s).0 ≡ threw runtime_error
always_busy-denies cur req s h = ground arith

process_request_total_example :
    let req : Request = record { repeats = 0; num1 = 4; num2 = 5 } in
    ((process_request always_busy 3 0 req 0).0 ≢ out_of_fuel)
    × (process_request always_busy 7 0 req 0 ≡ process_request always_busy 3 0 req 0)
process_request_total_example =
    process_request_total always_busy always_busy-denies 7 0 4 5 0 (omega arith)

abbrev broken : ℕ → Request → ℕ → Sent × ℕ
broken cur req s = (other_error 5, suc s)
