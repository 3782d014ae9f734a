-- ===== src/CAres/Resolver/Sound.antt =====
-- What holds of the resolver between two steps: its nodes, its calls and its answers belong to the
-- requests that were made.
use kos_ce_extra.Prelude.{
  ℕ, ◌+◌, ◌<◌, ◌≤◌, ◌≡◌, ◌==◌, inl, inr, Bool, true, false, List, [], ◌∷◌, ◌++◌, Option, some, map,
  arith, Text, All, All-append, All-map, length, length-append, get_elem?, get_elem?-append,
  get_elem?-last, Bool-cases,
}
use mathlib.Core.Option.{some-injective}
use kos_ce_extra.CAres.Address.{Hostent, answer}
use kos_ce_extra.CAres.Resolver.{
  Answer, Call, Request, Resolver, resolve, find_request, take_callback, remove_answered,
}
use kos_ce_extra.CAres.Resolver.Lists.{
  is_live, is_live-append, AreBelow, is_live-new, AreBelow-suc, Distinct, All-lt_ne, Distinct-snoc,
  count, count-append,
}

abbrev pub answered_ids : List Answer → List ℕ
answered_ids = map (λ (a : Answer). a.id)

abbrev pub inline_ids : List Call → List ℕ
inline_ids = map (λ (c : Call). c.id)

-- How often the request is kept by c-ares, being answered on a client's thread, or answered.
abbrev pub places : Resolver → ℕ → ℕ
places r id =
    count id r.pending + count id (inline_ids r.inline) + count id (answered_ids r.answers)

-- The request with this id was for this name, with this callback.
abbrev pub Asked : Resolver → ℕ → Text → ℕ → Type 0
Asked r id name callback = get_elem? r.asked id ≡ some (name, callback)

-- A node of the list has the name of its request, and its callback as long as it has one.
abbrev pub IsNode : Resolver → Request → Type 0
IsNode r q = (c : ℕ) × Asked r q.id q.host_name c × ((d : ℕ) → q.callback ≡ some d → d ≡ c)

abbrev pub IsCall : Resolver → Call → Type 0
IsCall r call = (name : Text) × Asked r call.id name call.callback

-- An answer goes to the callback of its own request, and says what came of its own name.
abbrev pub IsAnswer : Bool → Resolver → Answer → Type 0
IsAnswer is_signed r a =
    (name : Text) × (ok : Bool) × (host : Option Hostent) × Asked r a.id name a.callback
    × (a.said ≡ answer is_signed name ok host)

-- The outcome of `OnResolved`: one more answer, the request's own.
abbrev pub Answered : Bool → Resolver → ℕ → Bool → Option Hostent → Option Resolver → Type 0
Answered is_signed r id ok host outcome =
    (name : Text) × (callback : ℕ) × (s : Resolver) × Asked r id name callback
    × (outcome ≡ some s)
    × (s.answers
        ≡ r.answers
          ++ record { id = id; callback = callback; said = answer is_signed name ok host } ∷ [])

pub record IsSound (is_signed : Bool) (r : Resolver) : Type 0 where
  pub live : All (λ id. is_live id r.requests ≡ true) r.pending
  pub early : All (λ id. id < r.accepted) r.pending
  pub below : AreBelow r.accepted r.requests
  pub distinct : Distinct r.pending
  pub nodes : All (IsNode r) r.requests
  pub calls : All (IsCall r) r.inline
  pub said : All (IsAnswer is_signed r) r.answers
  pub once : (id : ℕ) → id < r.accepted → places r id ≡ 1
  pub never : (id : ℕ) → r.accepted ≤ id → places r id ≡ 0
  pub whole : length r.asked ≡ r.accepted
  pub done : r.exited ≡ true → (r.active ≡ false) × (r.pending ≡ [])

-- What the nodes hold stays so, wherever the list of what was asked for keeps its entries.
Keeps : Resolver → Resolver → Type 0
Keeps r t = (id : ℕ) (name : Text) (c : ℕ) → Asked r id name c → Asked t id name c

IsNode-Keeps : (r t : Resolver) → Keeps r t → (q : Request) → IsNode r q → IsNode t q
unfolding Keeps
IsNode-Keeps r t k q (c, asked, own) = (c, k q.id q.host_name c asked, own)

IsCall-Keeps : (r t : Resolver) → Keeps r t → (call : Call) → IsCall r call → IsCall t call
unfolding Keeps
IsCall-Keeps r t k call (name, asked) = (name, k call.id name call.callback asked)

IsAnswer-Keeps :
    (is_signed : Bool) (r t : Resolver)
    → Keeps r t
    → (a : Answer) → IsAnswer is_signed r a
    → IsAnswer is_signed t a
unfolding Keeps
IsAnswer-Keeps is_signed r t k a (name, ok, host, asked, said) =
    (name, ok, host, k a.id name a.callback asked, said)

pub found-IsNode :
    (r : Resolver) (id : ℕ) (qs : List Request) (q : Request)
    → find_request id qs ≡ some q
    → All (IsNode r) qs
    → IsNode r q × (q.id ≡ id)
unfolding find_request
found-IsNode r id [] q e h = absurd (cc)
found-IsNode r id (p ∷ qs) q e (h, hs) = elim (Bool-cases (p.id == id)) [
  | inl hit ↦ let same : p ≡ q = some-injective _ _ (rw hit at e) in rw (← same) (h, ground arith)
  | inr other ↦ found-IsNode r id qs q (rw other at e) hs
]

pub IsNode-take_callback :
    (r : Resolver) (id : ℕ) (qs : List Request)
    → All (IsNode r) qs
    → All (IsNode r) (take_callback id qs)
unfolding take_callback
IsNode-take_callback r id [] h = tt
IsNode-take_callback r id (p ∷ qs) ((c, asked, own), hs) = elim (Bool-cases (p.id == id)) [
  | inl hit ↦ rw (take_callback, hit) ((c, asked, λ d e. cc), hs)
  | inr other ↦ rw (take_callback, other) ((c, asked, own), IsNode-take_callback r id qs hs)
]

pub IsNode-remove_answered :
    (r : Resolver) (qs : List Request) → All (IsNode r) qs → All (IsNode r) (remove_answered qs)
unfolding remove_answered
IsNode-remove_answered r [] h = tt
IsNode-remove_answered r (p ∷ qs) (h, hs) = ground (arith, IsNode-remove_answered r qs hs)

pub resolve-IsSound :
    {is_signed : Bool} (name : Text) (callback : ℕ) (r s : Resolver)
    → IsSound is_signed r
    → r.active ≡ true
    → resolve name callback r ≡ some s
    → IsSound is_signed s
unfolding resolve Keeps
resolve-IsSound [] callback r s v a e = absurd (cc)
resolve-IsSound {is_signed} (x ∷ name) callback r s v a e =
    let n = r.accepted in
    let q : Request = record { id = n; host_name = x ∷ name; callback = some callback } in
    let t : Resolver = record r {
      requests = r.requests ++ q ∷ [];
      pending = r.pending ++ n ∷ [];
      accepted = n + 1;
      asked = r.asked ++ (x ∷ name, callback) ∷ [];
    } in
    let same : t ≡ s = some-injective _ _ e in
    let keeps : Keeps r t = λ id name' c asked.
      get_elem?-append r.asked ((x ∷ name, callback) ∷ []) id (name', c) asked in
    let asked : Asked t n (x ∷ name) callback =
      rw (← v.whole) (get_elem?-last r.asked (x ∷ name, callback)) in
    rw (← same) (record {
      live =
          All-append (λ id. is_live id t.requests ≡ true) r.pending (n ∷ [])
            (All-map _ _ r.pending (λ id h. is_live-append id r.requests (q ∷ []) h) v.live)
            (is_live-new n callback (x ∷ name) r.requests v.below, tt);
      early =
          All-append (λ id. id < n + 1) r.pending (n ∷ [])
            (All-map (λ id. id < n) (λ id. id < n + 1) r.pending (λ id h. omega arith) v.early)
            (omega arith, tt);
      below =
          All-append (λ (p : Request). p.id < n + 1) r.requests (q ∷ [])
            (AreBelow-suc n r.requests v.below) (omega arith, tt);
      distinct = Distinct-snoc r.pending n v.distinct (All-lt_ne n r.pending v.early);
      nodes =
          All-append (IsNode t) r.requests (q ∷ [])
            (All-map (IsNode r) (IsNode t) r.requests (IsNode-Keeps r t keeps) v.nodes)
            ((callback, asked, λ d e'. cc), tt);
      calls = All-map (IsCall r) (IsCall t) r.inline (IsCall-Keeps r t keeps) v.calls;
      said =
          All-map (IsAnswer is_signed r) (IsAnswer is_signed t) r.answers
            (IsAnswer-Keeps is_signed r t keeps) v.said;
      once = λ id h. ground (arith, v.once id, v.never id, count-append id r.pending (n ∷ []));
      never = λ id h. ground (arith, v.never id, count-append id r.pending (n ∷ []));
      whole = omega (arith, v.whole, length-append r.asked ((x ∷ name, callback) ∷ []));
      done = λ f. absurd (ground (arith, v.done f));
    })
