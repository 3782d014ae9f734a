-- ===== src/CAres/Polling.antt =====
-- The descriptors and time-outs of the resolver's thread: `GetTimeout`, `FillPollDescriptors` and
-- the body of the loop of `ServeRequests`, in resolver/src/resolver.cpp.
pub mod Filling
use kos_ce_extra.Prelude.{
  ℕ, zero, suc, ◌+◌, ◌*◌, ◌/◌, ◌%◌, ◌^◌, Bool, true, false, not, List, [], ◌∷◌, ◌++◌, ◌||◌, ltb,
  if◌then◌else◌, map, Option, none, some,
}

pub record Pollfd : Type 0 where
  pub fd : ℕ
  pub pollin : Bool
  pub pollout : Bool

-- `ares_timeout` gives seconds and microseconds, or `none`, a null pointer, which `GetTimeout`
-- does not test for. The sum in milliseconds is cast to a 32-bit `int`.
unfoldable pub get_timeout : Option (ℕ × ℕ) → Option ℕ
get_timeout none = none
get_timeout (some (tv_sec, tv_usec)) = some ((tv_usec + tv_sec * 1000000) / 1000 % 2 ^ 32)

abbrev pub min : ℕ → ℕ → ℕ
min a b = if ltb b a then b else a

-- `readable i` and `writable i` are the library's tests of the bit mask, `socks i` its sockets.
module _ (readable writable : ℕ → Bool) (socks : ℕ → ℕ) where
  -- The loop from `i`, `rounds` before its end.
  unfoldable pub fill_from : ℕ → ℕ → List Pollfd
  fill_from zero i = []
  fill_from (suc rounds) i =
      let rest = fill_from rounds (i + 1) in
      if readable i || writable i
      then record { fd = socks i; pollin = readable i; pollout = writable i } ∷ rest
      else []

  -- `max` is `ARES_GETSOCK_MAXNUM`.
  unfoldable pub fill_poll_descriptors : ℕ → ℕ → List Pollfd
  unfolding fill_from
  fill_poll_descriptors size max = fill_from (min size max) 0

-- A call of the library: `ares_process_fd` with the descriptors to read and to write, where `none`
-- is `ARES_SOCKET_BAD`, or `ares_cancel`.
pub data Call : Type 0 where
  process_fd : Option ℕ → Option ℕ → Call
  cancel : Call

-- What `poll` reports for a descriptor.
pub record Event : Type 0 where
  pub fd : ℕ
  pub pollin : Bool
  pub pollout : Bool

pub data PollResult : Type 0 where
  ready : List Event → PollResult
  timed_out poll_failed : PollResult

unfoldable pub process_event : Event → Call
process_event e =
    process_fd (if e.pollin then some e.fd else none) (if e.pollout then some e.fd else none)

unfoldable pub process : PollResult → List Call
unfolding process_event
process (ready events) = map process_event events
process timed_out = process_fd none none ∷ []
process poll_failed = process_fd none none ∷ cancel ∷ []
