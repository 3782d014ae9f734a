-- ===== src/CAres/Resolver/Calls.antt =====
-- `OnResolved` in two parts, as it runs on a client's thread.
use kos_ce_extra.Prelude.{
  ℕ, ◌+◌, ◌<◌, ◌≡◌, refl, ◌≢◌, inl, inr, Bool, true, false, List, [], ◌∷◌, ◌++◌, Option, none, some,
  arith, Text, All-append, All-split, All-both, Option-cases, Bool-cases, sym, ap, ◌∙◌,
}
use mathlib.Core.Option.{some-injective}
use kos_ce_extra.CAres.Address.{Hostent, answer}
use kos_ce_extra.CAres.Resolver.{
  Answer, Call, Request, Resolver, find_request, take_callback, begin_call, is_found, say, end_call,
}
use kos_ce_extra.CAres.Resolver.Lists.{
  is_live, is_live-take_callback, AreBelow-take_callback, Distinct-split, count, count-append,
}
use kos_ce_extra.CAres.Resolver.Sound.{
  answered_ids, inline_ids, places, Asked, IsCall, IsAnswer, IsSound, found-IsNode,
  IsNode-take_callback,
}

live_request :
    (id : ℕ) (qs : List Request)
    → is_live id qs ≡ true
    → (q : Request) × (c : ℕ) × (find_request id qs ≡ some q) × (q.callback ≡ some c)
live_request id qs h = elim (Option-cases (find_request id qs)) [
  | inl e ↦ absurd (ground arith)
  | inr (q, e) ↦ elim (Option-cases q.callback) [
    | inl e' ↦ absurd (ground arith)
    | inr (c, e') ↦ (q, c, e, e')
  ]
]

pub nothing_kept : (id : ℕ) (xs after : List ℕ) → ¬ (◌≡◌ {A = List ℕ} [] (xs ++ id ∷ after))
nothing_kept id [] after p = cc
nothing_kept id (x ∷ xs) after p = cc

-- `OnResolved` begins, for a request that c-ares kept.
module _ {is_signed : Bool} (r : Resolver) (id : ℕ) (before after : List ℕ) (ok : Bool)
    (host : Option Hostent) (kept : r.pending ≡ before ++ id ∷ after)
    (v : IsSound is_signed r) where
  abbrev pub r0 : Resolver
  r0 = record r { pending = before ++ after }

  kept_live : is_live id r.requests ≡ true
  kept_live = (All-split (λ j. is_live j r.requests ≡ true) before id after (rw kept at v.live)).0

  -- The call that begins, its node, and what it leaves.
  abbrev pub Begun : Type 0
  Begun =
      (q : Request) × (c : ℕ) × (find_request id r.requests ≡ some q)
      × (begin_call id ok host r0
          ≡ some (
            record { id = id; callback = c; ok = ok; host = host },
            record r0 { requests = take_callback id r.requests },
          ))
      × (q.id ≡ id)
      × Asked r id q.host_name c

  pub begun : Begun
  unfolding begin_call
  begun =
      let (q, c, e, e') = live_request id r.requests kept_live in
      let ((d, asked, own), same) = found-IsNode r id r.requests q e v.nodes in
      (q, c, e, rw (begin_call, e, e') refl, same, rw (own c e', ← same) asked)

  -- The id goes from the ids that c-ares keeps to the calls that run.
  moved :
      {n : ℕ} (j : ℕ)
      → places r j ≡ n
      → count j (before ++ after)
          + count j (id ∷ inline_ids r.inline)
          + count j (answered_ids r.answers)
        ≡ n
  moved j h =
      ground
        (arith, ap (count j) kept, count-append j before (id ∷ after), count-append j before after)

  pub begins-IsSound :
      (call : Call) (s : Resolver)
      → begin_call id ok host r0 ≡ some (call, s)
      → IsSound is_signed (record s { inline = call ∷ s.inline })
  begins-IsSound call s h =
      let (q, c, e, b, same, asked) = begun in
      let call0 : Call = record { id = id; callback = c; ok = ok; host = host } in
      let t0 : Resolver = record r0 { requests = take_callback id r.requests } in
      let t : Resolver = record t0 { inline = call0 ∷ r.inline } in
      let pair : (call0, t0) ≡ (call, s) = some-injective _ _ (sym b ∙ h) in
      let live =
        (All-split (λ j. is_live j r.requests ≡ true) before id after (rw kept at v.live)).1 in
      let (others, distinct) = Distinct-split before id after (rw kept at v.distinct) in
      let sound : IsSound is_signed t = record {
        live =
            All-both (λ j. j ≢ id) (λ j. is_live j r.requests ≡ true)
              (λ j. is_live j t.requests ≡ true) (before ++ after)
              (λ j ne l. is_live-take_callback id j r.requests ne l) others live;
        early = (All-split (λ j. j < r.accepted) before id after (rw kept at v.early)).1;
        below = AreBelow-take_callback r.accepted id r.requests v.below;
        distinct = distinct;
        nodes = IsNode-take_callback r id r.requests v.nodes;
        calls = ((q.host_name, asked), v.calls);
        said = v.said;
        once = λ j l. moved j (v.once j l);
        never = λ j l. moved j (v.never j l);
        whole = v.whole;
        done = λ f. absurd (nothing_kept id before after (rw (v.done f).1 at kept));
      } in
      ap_sound pair sound
    where
      ap_sound :
          {a b : Call × Resolver}
          → a ≡ b
          → IsSound is_signed (record a.1 { inline = a.0 ∷ a.1.inline })
          → IsSound is_signed (record b.1 { inline = b.0 ∷ b.1.inline })
      ap_sound e h = rw (← e) h

inline_ids-append : (xs ys : List Call) → inline_ids (xs ++ ys) ≡ inline_ids xs ++ inline_ids ys
inline_ids-append [] ys = refl
inline_ids-append (x ∷ xs) ys = ap (x.id ∷◌) (inline_ids-append xs ys)

answered_ids-append :
    (xs ys : List Answer) → answered_ids (xs ++ ys) ≡ answered_ids xs ++ answered_ids ys
answered_ids-append [] ys = refl
answered_ids-append (x ∷ xs) ys = ap (x.id ∷◌) (answered_ids-append xs ys)

pub answer-found :
    (is_signed : Bool) (name : Text) (ok : Bool) (host : Option Hostent)
    → is_found ok host ≡ true
    → answer is_signed [] ok host ≡ answer is_signed name ok host
unfolding answer
answer-found is_signed name ok none h = absurd (cc)
answer-found is_signed name true (some x) h = refl
answer-found is_signed name false (some x) h = absurd (cc)

get_same : {A : Type 0} {o : Option A} {a b : A} → o ≡ some a → o ≡ some b → a ≡ b
get_same p q = some-injective _ _ (sym p ∙ q)

-- A call that runs on a client's thread ends.
module _ {is_signed : Bool} (r : Resolver) (call : Call) (before after : List Call)
    (running : r.inline ≡ before ++ call ∷ after) (v : IsSound is_signed r) where
  abbrev pub r1 : Resolver
  r1 = record r { inline = before ++ after }

  -- What it says is the answer to the name that its request had.
  abbrev Ended : Resolver → Type 0
  Ended s =
      (said : Text × Text) × (s ≡ say call said r1)
      × IsAnswer is_signed r (record { id = call.id; callback = call.callback; said = said })

  ended : (s : Resolver) → end_call is_signed call r1 ≡ some s → Ended s
  unfolding end_call
  ended s h =
      let (name, asked) = (All-split (IsCall r) before call after (rw running at v.calls)).0 in
      elim (Bool-cases (is_found call.ok call.host)) [
        | inl e ↦ (
          answer is_signed [] call.ok call.host,
          sym (some-injective _ _ (rw (end_call, e) at h)),
          (name, call.ok, call.host, asked, answer-found is_signed name call.ok call.host e),
        )
        | inr e ↦ elim (Option-cases (find_request call.id r.requests)) [
          | inl e' ↦ absurd (let g = rw (end_call, e, e') at h in cc)
          | inr (q, e') ↦
              let ((c, kept, own), same) = found-IsNode r call.id r.requests q e' v.nodes in
              let names = get_same (rw same at kept) asked in
              (
                answer is_signed q.host_name call.ok call.host,
                sym (some-injective _ _ (rw (end_call, e, e') at h)),
                (
                  name,
                  call.ok,
                  call.host,
                  asked,
                  ap (λ (p : Text × ℕ). answer is_signed p.0 call.ok call.host) names,
                ),
              )
        ]
      ]

  told : {n : ℕ} (said : Text × Text) (j : ℕ) → places r j ≡ n → places (say call said r1) j ≡ n
  unfolding say
  told said j h =
      let a : Answer = record { id = call.id; callback = call.callback; said = said } in
      ground (
        arith,
        ap (λ cs. count j (inline_ids cs)) running,
        ap (count j) (inline_ids-append before (call ∷ after)),
        ap (count j) (inline_ids-append before after),
        count-append j (inline_ids before) (call.id ∷ inline_ids after),
        count-append j (inline_ids before) (inline_ids after),
        ap (count j) (answered_ids-append r.answers (a ∷ [])),
        count-append j (answered_ids r.answers) (call.id ∷ []),
      )

  pub ends-IsSound : (s : Resolver) → end_call is_signed call r1 ≡ some s → IsSound is_signed s
  unfolding say
  ends-IsSound s h =
      let (said, same, right) = ended s h in
      let a : Answer = record { id = call.id; callback = call.callback; said = said } in
      rw same (record {
        live = v.live;
        early = v.early;
        below = v.below;
        distinct = v.distinct;
        nodes = v.nodes;
        calls = (All-split (IsCall r) before call after (rw running at v.calls)).1;
        said = All-append (IsAnswer is_signed r) r.answers (a ∷ []) v.said (right, tt);
        once = λ j l. told said j (v.once j l);
        never = λ j l. told said j (v.never j l);
        whole = v.whole;
        done = v.done;
      })
