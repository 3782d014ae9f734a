-- ===== src/CAres/Resolver/Requests.antt =====
-- Every request is answered once, by the callback that its client gave, with what came of its name.
use kos_ce_extra.Prelude.{
  ℕ, ◌≡◌, refl, inl, inr, Bool, true, false, List, [], ◌∷◌, ◌++◌, Option, none, some, arith,
  if◌then◌else◌, Text, All, All-map, Bool-cases, ap,
}
use kos_ce_extra.CAres.Address.{Hostent, answer}
use kos_ce_extra.CAres.Resolver.{
  Answer, Call, Request, Resolver, find_request, take_callback, is_found, say, end_call,
  on_resolved, remove_answered, has_requests, shutdown, leave, is_empty, Step, resolves, completes,
  begins, ends, looks, shuts_down, Reach, here, next,
}
use kos_ce_extra.CAres.Resolver.Lists.{
  is_live, is_live-remove_answered, AreBelow-remove_answered, find_request-take_callback,
}
use kos_ce_extra.CAres.Resolver.Sound.{Answered, IsSound, IsNode-remove_answered, resolve-IsSound}
use kos_ce_extra.CAres.Resolver.Calls.{begun, begins-IsSound, answer-found, ends-IsSound}

-- `OnResolved` on the resolver's own thread, for a request that c-ares kept.
module _ {is_signed : Bool} (r : Resolver) (id : ℕ) (before after : List ℕ) (ok : Bool)
    (host : Option Hostent) (kept : r.pending ≡ before ++ id ∷ after)
    (v : IsSound is_signed r) where
  abbrev left : Resolver
  left = record r { pending = before ++ after }

  completes-IsSound :
      (s : Resolver) → on_resolved is_signed id ok host left ≡ some s → IsSound is_signed s
  unfolding on_resolved
  completes-IsSound s h =
      let (q, c, e, b, same, asked) = begun r id before after ok host kept v in
      let call : Call = record { id = id; callback = c; ok = ok; host = host } in
      let t : Resolver = record left { requests = take_callback id r.requests } in
      let begins-sound : IsSound is_signed (record t { inline = call ∷ r.inline }) =
        begins-IsSound r id before after ok host kept v call t b in
      ends-IsSound (record t { inline = call ∷ r.inline }) call [] r.inline refl begins-sound s
        (rw (on_resolved, b) at h)

  -- It answers with the request's own callback and name.
  completes_ok : Answered is_signed r id ok host (on_resolved is_signed id ok host left)
  unfolding on_resolved end_call say
  completes_ok =
      let (q, c, e, b, same, asked) = begun r id before after ok host kept v in
      let call : Call = record { id = id; callback = c; ok = ok; host = host } in
      let t : Resolver = record left { requests = take_callback id r.requests } in
      let a : Answer = record {
        id = id;
        callback = c;
        said = answer is_signed q.host_name ok host;
      } in
      let s : Resolver = record t { answers = r.answers ++ a ∷ [] } in
      let e' = find_request-take_callback id r.requests q e in
      let found : end_call is_signed call t ≡ some s = elim (Bool-cases (is_found ok host)) [
        | inl f ↦
            rw (end_call, f)
              (ap (λ (w : Text × Text). some (say call w t))
                (answer-found is_signed q.host_name ok host f))
        | inr f ↦ rw (end_call, f, e') refl
      ] in
      (q.host_name, c, s, asked, rw (on_resolved, b) found, refl)

empty_not_live :
    (qs : List Request) (ids : List ℕ)
    → is_empty qs ≡ true
    → All (λ id. is_live id qs ≡ true) ids
    → ids ≡ []
unfolding find_request
empty_not_live [] [] e h = refl
empty_not_live [] (id ∷ ids) e (h, hs) = absurd (cc)
empty_not_live (q ∷ qs) ids e h = absurd (cc)

ended-IsSound :
    {is_signed : Bool} (r : Resolver) (active exited : Bool)
    → IsSound is_signed r
    → (exited ≡ true → (active ≡ false) × (r.pending ≡ []))
    → IsSound is_signed (record r { active = active; exited = exited })
ended-IsSound r active exited v last = record {
  live = v.live;
  early = v.early;
  below = v.below;
  distinct = v.distinct;
  nodes = v.nodes;
  calls = v.calls;
  said = v.said;
  once = v.once;
  never = v.never;
  whole = v.whole;
  done = last;
}

leave-IsSound :
    {is_signed : Bool} (r : Resolver) (empty on : Bool)
    → IsSound is_signed r
    → (empty ≡ true → on ≡ false → (r.active ≡ false) × (r.pending ≡ []))
    → IsSound is_signed (leave (if empty then (if on then none else some false) else some true) r)
leave-IsSound r false on v last = v
leave-IsSound r true true v last = v
leave-IsSound r true false v last = ended-IsSound r r.active true v (λ f. last refl refl)

looks-IsSound :
    {is_signed : Bool} (r : Resolver)
    → IsSound is_signed r
    → IsSound is_signed (leave (has_requests r).1 (has_requests r).0)
unfolding has_requests
looks-IsSound {is_signed} r v =
    let qs = remove_answered r.requests in
    let live : All (λ id. is_live id qs ≡ true) r.pending =
      All-map _ _ r.pending (λ id h. is_live-remove_answered id r.requests h) v.live in
    let cleaned : IsSound is_signed (record r { requests = qs }) = record {
      live = live;
      early = v.early;
      below = AreBelow-remove_answered r.accepted r.requests v.below;
      distinct = v.distinct;
      nodes = IsNode-remove_answered r r.requests v.nodes;
      calls = v.calls;
      said = v.said;
      once = v.once;
      never = v.never;
      whole = v.whole;
      done = v.done;
    } in
    leave-IsSound (record r { requests = qs }) (is_empty qs) r.active cleaned
      (λ e off. (off, empty_not_live qs r.pending e live))

Step-IsSound :
    {is_signed : Bool} {r s : Resolver}
    → Step is_signed r s
    → IsSound is_signed r
    → IsSound is_signed s
unfolding shutdown
Step-IsSound {r} {s} (resolves name callback on e) v = resolve-IsSound name callback r s v on e
Step-IsSound {r} {s} (completes id before after ok host kept e) v =
    completes-IsSound r id before after ok host kept v s e
Step-IsSound {r} (begins {s = t} {call} id before after ok host kept e) v =
    begins-IsSound r id before after ok host kept v call t e
Step-IsSound {r} {s} (ends call before after running e) v =
    ends-IsSound r call before after running v s e
Step-IsSound {r} (looks on) v = looks-IsSound r v
Step-IsSound {r} shuts_down v = ended-IsSound r false r.exited v (λ f. (refl, (v.done f).1))

Reach-IsSound : {is_signed : Bool} {r : Resolver} → Reach is_signed r → IsSound is_signed r
Reach-IsSound here = record {
  live = tt;
  early = tt;
  below = tt;
  distinct = tt;
  nodes = tt;
  calls = tt;
  said = tt;
  once = λ id h. absurd (omega (arith, h));
  never = λ id h. refl;
  whole = refl;
  done = λ f. absurd (cc);
}
Reach-IsSound (next r s) = Step-IsSound s (Reach-IsSound r)

-- In every run, c-ares can have `OnResolved` called on the resolver's thread for each request that
-- it keeps, whatever the outcome: the call does not fault, and adds one answer, to the callback that
-- the request was made with, about the name that it was made for.
pub on_resolved-no_fault :
    (is_signed : Bool) {r : Resolver}
    → Reach is_signed r
    → (id : ℕ) (before after : List ℕ) (ok : Bool) (host : Option Hostent)
    → r.pending ≡ before ++ id ∷ after
    → Answered is_signed r id ok host
        (on_resolved is_signed id ok host (record r { pending = before ++ after }))
on_resolved-no_fault is_signed {r} run id before after ok host kept =
    completes_ok r id before after ok host kept (Reach-IsSound run)
