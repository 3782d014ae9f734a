-- ===== src/CAres/Resolver.antt =====
-- The request list of `Resolver` (resolver/src/resolver.h, resolver/src/resolver.cpp): clients add
-- requests, c-ares resolves them in any order, and the resolver's thread takes them off the list.
-- A request is known by its place in the order of arrival.
pub mod Lists
pub mod Sound
pub mod Calls
pub mod Requests
use kos_ce_extra.Prelude.{
  ℕ, ◌+◌, Bool, true, false, not, List, [], ◌∷◌, ◌++◌, ◌≡◌, ◌≢◌, ◌==◌, if◌then◌else◌, Text, Option,
  none, some,
}
use kos_ce_extra.CAres.Address.{Hostent, answer}

-- A list node: its address, the host name, and the client's callback until `OnResolved` moves it
-- out.
pub record Request : Type 0 where
  pub id : ℕ
  pub host_name : Text
  pub callback : Option ℕ

-- A call of a client's `OnResolve` with a name and an address, for the request with this id.
pub record Answer : Type 0 where
  pub id : ℕ
  pub callback : ℕ
  pub said : Text × Text

-- A call of `OnResolved` that has moved the callback out of its node, and not yet used it.
pub record Call : Type 0 where
  pub id : ℕ
  pub callback : ℕ
  pub ok : Bool
  pub host : Option Hostent

-- `pending` holds the requests that c-ares keeps a pointer to, `inline` the calls of `OnResolved`
-- that run in `AddRequest`, on the thread of a client's request, `answers` the calls of `OnResolve`
-- with the client's callback, `accepted` the number of requests so far, which is the next id, and
-- `asked` their names and callbacks.
pub record Resolver : Type 0 where
  pub requests : List Request
  pub pending : List ℕ
  pub inline : List Call
  pub accepted : ℕ
  pub asked : List (Text × ℕ)
  pub answers : List Answer
  pub active : Bool
  pub exited : Bool

abbrev pub new_resolver : Resolver
new_resolver = record {
  requests = [];
  pending = [];
  inline = [];
  accepted = 0;
  asked = [];
  answers = [];
  active = true;
  exited = false;
}

-- `Resolve` with `AddRequest`: `none` is the exception for an empty name. The request is on the
-- list before c-ares is given the pointer to it.
unfoldable pub resolve : Text → ℕ → Resolver → Option Resolver
resolve [] callback r = none
resolve (x ∷ name) callback r = some (record r {
  requests =
      r.requests ++ record { id = r.accepted; host_name = x ∷ name; callback = some callback } ∷ [];
  pending = r.pending ++ r.accepted ∷ [];
  accepted = r.accepted + 1;
  asked = r.asked ++ (x ∷ name, callback) ∷ [];
})

unfoldable pub find_request : ℕ → List Request → Option Request
find_request id [] = none
find_request id (q ∷ qs) = if q.id == id then some q else find_request id qs

-- `std::move` of the callback out of the node.
unfoldable pub take_callback : ℕ → List Request → List Request
take_callback id [] = []
take_callback id (q ∷ qs) =
    if q.id == id then record q { callback = none } ∷ qs else q ∷ take_callback id qs

-- `OnResolved` up to the `std::move`, for a request that c-ares no longer keeps. `none` is a fault:
-- the node is gone, or its callback is null.
unfoldable pub begin_call : ℕ → Bool → Option Hostent → Resolver → Option (Call × Resolver)
begin_call id ok host r = elim (find_request id r.requests) [
  | none ↦ none
  | some q ↦ elim q.callback [
    | none ↦ none
    | some callback ↦ some (
      record { id = id; callback = callback; ok = ok; host = host },
      record r { requests = take_callback id r.requests },
    )
  ]
]

-- Whether the lookup gave a host.
abbrev pub is_found : Bool → Option Hostent → Bool
is_found ok none = false
is_found ok (some host) = ok

unfoldable pub say : Call → Text × Text → Resolver → Resolver
say call said r = record r {
  answers = r.answers ++ record { id = call.id; callback = call.callback; said = said } ∷ [];
}

-- The rest of `OnResolved`. It takes no mutex. Where the lookup failed it reads the host name of the
-- node; `none` is a fault: the node is gone.
unfoldable pub end_call : Bool → Call → Resolver → Option Resolver
unfolding say
end_call is_signed call r =
    if is_found call.ok call.host
    then some (say call (answer is_signed [] call.ok call.host) r)
    else elim (find_request call.id r.requests) [
      | none ↦ none
      | some q ↦ some (say call (answer is_signed q.host_name call.ok call.host) r)
    ]

-- `OnResolved` on the resolver's own thread, which is the one that takes nodes off the list.
unfoldable pub on_resolved : Bool → ℕ → Bool → Option Hostent → Resolver → Option Resolver
unfolding begin_call end_call
on_resolved is_signed id ok host r = elim (begin_call id ok host r) [
  | none ↦ none
  | some started ↦ end_call is_signed started.0 started.1
]

abbrev pub is_null : Option ℕ → Bool
is_null none = true
is_null (some c) = false

-- `remove_if` of `HasRequests`.
unfoldable pub remove_answered : List Request → List Request
remove_answered [] = []
remove_answered (q ∷ qs) = if is_null q.callback then remove_answered qs else q ∷ remove_answered qs

abbrev pub is_empty : List Request → Bool
is_empty [] = true
is_empty (q ∷ qs) = false

-- `HasRequests`, one look at the list: `none` means that it goes on waiting.
unfoldable pub has_requests : Resolver → Resolver × Option Bool
has_requests r =
    let r' = record r { requests = remove_answered r.requests } in
    (r', if is_empty r'.requests then (if r.active then none else some false) else some true)

unfoldable pub shutdown : Resolver → Resolver
shutdown r = record r { active = false }

-- The loop of `ServeRequests` ends once `HasRequests` is false.
abbrev pub leave : Option Bool → Resolver → Resolver
leave none r = r
leave (some true) r = r
leave (some false) r = record r { exited = true }

-- What happens, in any order, until the thread has ended. c-ares calls `OnResolved` once for a
-- request that it keeps: on the resolver's thread, between two looks at the list, or in `AddRequest`,
-- where the thread may look at the list before the call goes on. A call that faults has no step.
pub data Step (is_signed : Bool) (r : Resolver) : Resolver → Type 0 where
  resolves :
      {s : Resolver} (name : Text) (callback : ℕ)
      → r.active ≡ true
      → resolve name callback r ≡ some s
      → Step is_signed r s
  completes :
      {s : Resolver} (id : ℕ) (before after : List ℕ) (ok : Bool) (host : Option Hostent)
      → r.pending ≡ before ++ id ∷ after
      → on_resolved is_signed id ok host (record r { pending = before ++ after }) ≡ some s
      → Step is_signed r s
  begins :
      {s : Resolver} {call : Call} (id : ℕ) (before after : List ℕ) (ok : Bool)
      (host : Option Hostent)
      → r.pending ≡ before ++ id ∷ after
      → begin_call id ok host (record r { pending = before ++ after }) ≡ some (call, s)
      → Step is_signed r (record s { inline = call ∷ s.inline })
  ends :
      {s : Resolver} (call : Call) (before after : List Call)
      → r.inline ≡ before ++ call ∷ after
      → end_call is_signed call (record r { inline = before ++ after }) ≡ some s
      → Step is_signed r s
  looks : r.exited ≡ false → Step is_signed r (leave (has_requests r).1 (has_requests r).0)
  shuts_down : Step is_signed r (shutdown r)

pub data Reach (is_signed : Bool) : Resolver → Type 0 where
  here : Reach is_signed new_resolver
  next : {r s : Resolver} → Reach is_signed r → Step is_signed r s → Reach is_signed s
