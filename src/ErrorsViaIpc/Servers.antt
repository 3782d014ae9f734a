-- ===== src/ErrorsViaIpc/Servers.antt =====
-- The two servers (server_c/src/server.c, server_cpp/src/server.cpp). The logging is left out.
use kos_ce_extra.Prelude.{ℕ, ◌+◌, ◌%◌, List, [], ◌∷◌, ◌==◌, if◌then◌else◌, Bool, true, false}
use kos_ce_extra.ErrorsViaIpc.Protocol.{
  u32, u64, Request, Reply, result, status, Exception, server_busy, catch_exception,
}

-- `SumRequest_impl` of the C server over `requestCounter`.
unfoldable pub sum_request_impl : ℕ → ℕ → Request → Reply × ℕ
sum_request_impl rc_busy counter req =
    if counter % 2 == 0
    then (status rc_busy, u64 (counter + 1))
    else (result (u32 (req.num1 + req.num2)), u64 (counter + 1))

pub data Returned : Type 0 where
  value : ℕ → Returned
  threw : Exception → Returned

-- `NumberSummarizer::SumRequest` over `m_requestCounter`, which is counted on before the throw.
unfoldable pub sum_request : ℕ → Request → Returned × ℕ
sum_request counter req =
    if counter % 2 == 0
    then (threw server_busy, u64 (counter + 1))
    else (value (u32 (req.num1 + req.num2)), u64 (counter + 1))

-- How the runtime answers for a C++ method: a thrown exception goes through the converter.
unfoldable pub answer : ℕ → ℕ → Returned → Reply
answer rc_busy rc_fail (value r) = result r
answer rc_busy rc_fail (threw e) = status (catch_exception rc_busy rc_fail e)

-- Both counters start at 1.
abbrev pub first_counter : ℕ
first_counter = 1

unfoldable pub serve_c : ℕ → ℕ → List Request → List Reply
unfolding sum_request_impl
serve_c rc_busy counter [] = []
serve_c rc_busy counter (req ∷ reqs) =
    let (reply, counter') = sum_request_impl rc_busy counter req in
    reply ∷ serve_c rc_busy counter' reqs

unfoldable pub serve_cpp : ℕ → ℕ → ℕ → List Request → List Reply
unfolding sum_request answer catch_exception
serve_cpp rc_busy rc_fail counter [] = []
serve_cpp rc_busy rc_fail counter (req ∷ reqs) =
    let (returned, counter') = sum_request counter req in
    answer rc_busy rc_fail returned ∷ serve_cpp rc_busy rc_fail counter' reqs

-- One round of the C server's dispatch loop: what the transport and the generated dispatcher
-- report. `dispatched req ok` is a request that reaches `SumRequest_impl`; `ok` tells whether the
-- reply is sent.
pub data Round : Type 0 where
  recv_failed dispatch_failed : Round
  dispatched : Request → Bool → Round

pub data LoopEnd : Type 0 where
  waiting exit_failure : LoopEnd

-- The `do … while (true)` of the C server's `main`, as far as the rounds go: the replies sent.
unfoldable pub dispatch_loop : ℕ → ℕ → List Round → List Reply × LoopEnd
unfolding sum_request_impl
dispatch_loop rc_busy counter [] = ([], waiting)
dispatch_loop rc_busy counter (recv_failed ∷ rounds) = ([], exit_failure)
dispatch_loop rc_busy counter (dispatch_failed ∷ rounds) = ([], exit_failure)
dispatch_loop rc_busy counter (dispatched req false ∷ rounds) = ([], exit_failure)
dispatch_loop rc_busy counter (dispatched req true ∷ rounds) =
    let (reply, counter') = sum_request_impl rc_busy counter req in
    let (replies, end) = dispatch_loop rc_busy counter' rounds in (reply ∷ replies, end)
