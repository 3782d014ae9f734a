-- ===== src/CAres/Tests.antt =====
-- Runs of the resolver and of the callback object, and the theorems at concrete inputs.
use kos_ce_extra.Prelude.{
  ℕ, ◌+◌, ◌≤◌, ◌≡◌, refl, ◌⊎◌, Bool, true, false, List, [], ◌∷◌, ◌++◌, ◌||◌, none, some, codes,
  arith, length, get_elem?, ltb,
}
use kos_ce_extra.Prelude.Decimal.{decimal, digits_of}
use kos_ce_extra.CAres.Address.{Hostent, address, dotted, char_text, pop_back}
use kos_ce_extra.CAres.Address.RoundTrip.{parts, numbers, numbers-parts-address}
use kos_ce_extra.CAres.Callable.{
  Callable, step, stop, fresh, get_handle, destroy, serve_call, gets, destroys, serves, Reach, here,
  next,
}
use kos_ce_extra.CAres.Callable.Serving.{served_at_end}
use kos_ce_extra.Prelude.{Text, if◌then◌else◌}
use kos_ce_extra.CAres.Client.{
  Resolving, resolving_main, with_callback, client_end, resolve_names, join_thread, serve_rounds,
}
use kos_ce_extra.CAres.Client.Answers.{Ends, all_answered, resolving_main-Ends}
use kos_ce_extra.CAres.Resolver
use kos_ce_extra.CAres.Resolver.{
  Request, Resolver, Call, new_resolver, resolve, on_resolved, end_call, find_request, shutdown,
}
use kos_ce_extra.CAres.Resolver.Sound.{Answered}
use kos_ce_extra.CAres.Resolver.Requests.{on_resolved-no_fault}
use kos_ce_extra.CAres.Polling.{fill_poll_descriptors, min, Pollfd}
use kos_ce_extra.CAres.Polling.Filling.{descriptor, fill_poll_descriptors_lem}

dotted_quad : address false (192 ∷ 168 ∷ 0 ∷ 1 ∷ []) ≡ codes "192.168.0.1"
unfolding address dotted char_text pop_back decimal digits_of
dotted_quad = refl

negative_octets : address true (192 ∷ 168 ∷ 0 ∷ 1 ∷ []) ≡ codes "-64.-88.0.1"
unfolding address dotted char_text pop_back decimal digits_of
negative_octets = refl

numbers-parts-address_example :
    numbers (parts (address false (192 ∷ 168 ∷ 0 ∷ 1 ∷ []))) ≡ 192 ∷ 168 ∷ 0 ∷ 1 ∷ []
numbers-parts-address_example =
    numbers-parts-address 192 168 0 1 (omega arith) (omega arith) (omega arith) (omega arith)

-- One call announced, the destructor, and the thread's two rounds.
abbrev announced : Callable
announced = get_handle fresh

abbrev joining : Callable
joining = destroy announced

abbrev served_once : Callable
served_once = serve_call step (stop ∷ []) joining

abbrev at_end : Callable
at_end = serve_call stop [] served_once

joining-Reach : Reach joining
unfolding get_handle destroy
joining-Reach = next (next here (gets refl)) (destroys refl)

at_end-Reach : Reach at_end
unfolding get_handle destroy serve_call
at_end-Reach =
    next (next joining-Reach (serves step (stop ∷ []) refl refl)) (serves stop [] refl refl)

served_at_end_example :
    (at_end.joining ≡ true) × (at_end.served ≡ at_end.gets) × (at_end.handlers ≡ [])
unfolding get_handle destroy serve_call
served_at_end_example = served_at_end at_end-Reach refl

-- A resolver with one request.
abbrev asked : Resolver
asked = record new_resolver {
  requests = record { id = 0; host_name = codes "ya.ru"; callback = some 7 } ∷ [];
  pending = 0 ∷ [];
  accepted = 1;
  asked = (codes "ya.ru", 7) ∷ [];
}

asked-Reach : Resolver.Reach false asked
unfolding resolve
asked-Reach =
    Resolver.Reach.next Resolver.Reach.here (Resolver.Step.resolves (codes "ya.ru") 7 refl refl)

on_resolved-no_fault_example :
    Answered false asked 0 true none
      (on_resolved false 0 true none (record asked { pending = [] ++ [] }))
on_resolved-no_fault_example = on_resolved-no_fault false asked-Reach 0 [] [] true none refl

-- The call begins in `AddRequest`, on the thread of the client's request, and the resolver's thread
-- looks at the list before the call goes on.
abbrev failing : Call
failing = record { id = 0; callback = 7; ok = false; host = none }

abbrev begun : Resolver
begun = record asked {
  requests = record { id = 0; host_name = codes "ya.ru"; callback = none } ∷ [];
  pending = [];
  inline = failing ∷ [];
}

abbrev looked : Resolver
looked = record begun { requests = [] }

abbrev a_host : Hostent
a_host = record { name = codes "ya.ru"; octets = 5 ∷ 6 ∷ 7 ∷ 8 ∷ [] }

-- The lookup failed: the node whose host name the call reads is gone.
failing_call_faults : end_call false failing (record looked { inline = [] }) ≡ none
unfolding end_call find_request
failing_call_faults = refl

-- The host was found: the call ends well.
found_call_ends :
    (s : Resolver) × (end_call false
        (record failing { ok = true; host = some a_host })
        (record looked { inline = [] })
      ≡ some s)
unfolding end_call
found_call_ends = (_, refl)

abbrev first_two : ℕ → Bool
first_two i = ltb i 2

abbrev never : ℕ → Bool
never i = false

abbrev socket : ℕ → ℕ
socket i = i + 5

fill_poll_descriptors_lem_example :
    let n = length (fill_poll_descriptors first_two never socket 16 16) in
    (n ≤ 16)
    × (n ≤ 16)
    × ((n ≡ min 16 16) ⊎ ((first_two n || never n) ≡ false))
    × ((i : ℕ) (d : Pollfd)
        → get_elem? (fill_poll_descriptors first_two never socket 16 16) i ≡ some d
        → (d ≡ descriptor first_two never socket i) × ((first_two i || never i) ≡ true))
fill_poll_descriptors_lem_example = fill_poll_descriptors_lem first_two never socket 16 16

-- A resolver that takes the first two names. The thread serves a call behind the second.
abbrev two_names : Resolving ℕ
two_names = record {
  make_callback = λ s. (none, s);
  make_proxy = λ s. (none, s);
  resolve = λ name s. (if ltb s 2 then none else some (codes "busy"), s + 1);
}

abbrev host_names : List Text
host_names = codes "a.org" ∷ codes "b.org" ∷ codes "c.org" ∷ []

abbrev at_once : ℕ → ℕ
at_once i = i

abbrev always : ℕ → Bool
always i = true

abbrev two_hosts : List Text
two_hosts = codes "b.org" ∷ []

resolving_main-Ends_example :
    Ends two_names always at_once 2
      (all_answered two_names always at_once 0 (codes "a.org" ∷ two_hosts) 0)
      (resolving_main two_names always at_once (codes "a.org" ∷ two_hosts) 0)
resolving_main-Ends_example =
    resolving_main-Ends two_names always at_once (codes "a.org") two_hosts 0 refl refl

-- Both are answered.
both_answered :
    (resolving_main two_names always at_once (codes "a.org" ∷ two_hosts) 0).exit ≡ some true
unfolding resolving_main with_callback client_end resolve_names join_thread serve_rounds get_handle
    destroy serve_call
both_answered = refl

-- The third name is refused, and the destructor waits for ever.
third_refused : (resolving_main two_names always at_once host_names 0).exit ≡ none
unfolding resolving_main with_callback client_end resolve_names join_thread serve_rounds get_handle
    destroy serve_call
third_refused = refl
