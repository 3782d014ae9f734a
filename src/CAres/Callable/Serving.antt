-- ===== src/CAres/Callable/Serving.antt =====
-- Every call that `Get` announces is served before the destructor returns.
use kos_ce_extra.Prelude.{
  ℕ, zero, suc, ◌+◌, ◌<◌, ◌≡◌, refl, inl, inr, true, false, List, [], ◌∷◌, ◌++◌, arith, ap,
  Bool-cases, if◌then◌else◌,
}
use kos_ce_extra.CAres.Callable.{
  Handler, step, stop, Callable, get_handle, destroy, serve_call, Step, gets, destroys, serves,
  Reach, here, next,
}

abbrev steps : ℕ → List Handler → List Handler
steps zero last = last
steps (suc n) last = step ∷ steps n last

steps-snoc : (n : ℕ) → steps n [] ++ step ∷ [] ≡ steps (suc n) []
steps-snoc zero = refl
steps-snoc (suc n) = ap (λ l. step ∷ l) (steps-snoc n)

steps-stop : (n : ℕ) → steps n [] ++ stop ∷ [] ≡ steps n (stop ∷ [])
steps-stop zero = refl
steps-stop (suc n) = ap (λ l. step ∷ l) (steps-stop n)

-- The queue holds the steps that are not served yet, and the empty handler behind them once the
-- destructor runs.
abbrev tail_of : Callable → List Handler
tail_of c = if c.finished then [] else if c.joining then stop ∷ [] else []

pub record IsServing (c : Callable) : Type 0 where
  pub waiting : ℕ
  pub queued : c.handlers ≡ steps waiting (tail_of c)
  pub counted : c.served + waiting ≡ c.gets
  pub ended : c.finished ≡ true → (waiting ≡ 0) × (c.joining ≡ true)

not_finished : (c : Callable) → IsServing c → c.joining ≡ false → c.finished ≡ false
not_finished c v e = elim (Bool-cases c.finished) [
  | inl f ↦ absurd (ground (arith, v.ended f))
  | inr f ↦ f
]

get_handle-IsServing : (c : Callable) → IsServing c → c.joining ≡ false → IsServing (get_handle c)
unfolding get_handle
get_handle-IsServing c v e =
    let f = not_finished c v e in
    let q = rw (f, e) at v.queued in
    record {
      waiting = suc v.waiting;
      queued = rw (q, f, e) (steps-snoc v.waiting);
      counted = omega (arith, v.counted);
      ended = λ t. absurd (ground arith);
    }

destroy-IsServing : (c : Callable) → IsServing c → c.joining ≡ false → IsServing (destroy c)
unfolding destroy
destroy-IsServing c v e =
    let f = not_finished c v e in
    let q = rw (f, e) at v.queued in
    record {
      waiting = v.waiting;
      queued = rw (q, f) (steps-stop v.waiting);
      counted = v.counted;
      ended = λ t. absurd (ground arith);
    }

-- What the thread takes off the queue.
served-IsServing :
    (c : Callable) (h : Handler) (rest : List Handler) (waiting : ℕ)
    → c.finished ≡ false
    → c.handlers ≡ h ∷ rest
    → c.handlers ≡ steps waiting (tail_of c)
    → c.served + waiting ≡ c.gets
    → IsServing (serve_call h rest c)
unfolding serve_call
served-IsServing c step rest zero f e q k = absurd (ground arith)
served-IsServing c step rest (suc n) f e q k = record {
  waiting = n;
  queued = ground arith;
  counted = omega arith;
  ended = λ t. absurd (ground arith);
}
served-IsServing c stop rest zero f e q k = record {
  waiting = 0;
  queued = ground arith;
  counted = k;
  ended = λ t. (refl, ground arith);
}
served-IsServing c stop rest (suc n) f e q k = absurd (ground arith)

Step-IsServing : {c d : Callable} → Step c d → IsServing c → IsServing d
Step-IsServing {c} (gets e) v = get_handle-IsServing c v e
Step-IsServing {c} (destroys e) v = destroy-IsServing c v e
Step-IsServing {c} (serves h rest f e) v =
    served-IsServing c h rest v.waiting f e v.queued v.counted

Reach-IsServing : {c : Callable} → Reach c → IsServing c
Reach-IsServing here = record {
  waiting = 0;
  queued = refl;
  counted = omega arith;
  ended = λ t. absurd (cc);
}
Reach-IsServing (next r s) = Step-IsServing s (Reach-IsServing r)

-- In every run of the owner and the thread, when the thread has ended the destructor was called,
-- every handle that `Get` gave out has had its step of the event loop, and the queue is empty.
pub served_at_end :
    {c : Callable}
    → Reach c
    → c.finished ≡ true
    → (c.joining ≡ true) × (c.served ≡ c.gets) × (c.handlers ≡ [])
served_at_end r f =
    let v = Reach-IsServing r in
    let (none_left, joined) = v.ended f in
    (joined, omega (arith, v.counted), rw (v.queued, none_left, f) refl)

-- The destructor is never left waiting: while it joins and the thread runs, the queue is not
-- empty, so the thread can take a handler.
pub join_not_stuck :
    {c : Callable}
    → Reach c
    → c.joining ≡ true
    → c.finished ≡ false
    → (h : Handler) × (rest : List Handler) × (c.handlers ≡ h ∷ rest)
join_not_stuck {c} r j f = let v = Reach-IsServing r in front v.waiting v.queued
  where
    front :
        (n : ℕ)
        → c.handlers ≡ steps n (tail_of c)
        → (h : Handler) × (rest : List Handler) × (c.handlers ≡ h ∷ rest)
    front zero q = (stop, [], ground arith)
    front (suc n) q = (step, steps n (tail_of c), q)

-- A step that is queued is a call that is not served.
pub step_lt :
    {c : Callable} {rest : List Handler} → Reach c → c.handlers ≡ step ∷ rest → c.served < c.gets
step_lt {c} r e = let v = Reach-IsServing r in waits v.waiting v.queued v.counted
  where
    waits : (n : ℕ) → c.handlers ≡ steps n (tail_of c) → c.served + n ≡ c.gets → c.served < c.gets
    waits zero q k = absurd (ground arith)
    waits (suc n) q k = omega arith
