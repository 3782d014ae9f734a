-- ===== src/CAres/Client/Joining.antt =====
-- The thread of the callback object while it is joined: it ends, or waits for ever.
use kos_ce_extra.Prelude.{
  ℕ, zero, suc, ◌+◌, ◌≤◌, ◌<◌, Bool, true, false, List, [], ◌∷◌, length, Bool-cases, ◌≡◌, refl, ◌∙◌,
  inl, inr, arith,
}
use kos_ce_extra.CAres.Callable.{
  Callable, Handler, step, stop, destroy, serve_call, Reach, next, destroys, serves,
}
use kos_ce_extra.CAres.Callable.Serving.{served_at_end, join_not_stuck, step_lt}
use kos_ce_extra.CAres.Client.{Answering, serve_next, serve_front, serve_rounds, join_thread}

-- The object can be reached, has handed out `n` handles, and no call will come for `m` of those.
abbrev pub IsShort : ℕ → ℕ → Bool → Answering → Type 0
IsShort m n joining a =
    Reach a.object
    × (a.object.joining ≡ joining)
    × (a.object.gets ≡ n)
    × (a.object.served + a.due + m ≡ n)

-- The object is gone: its thread has ended, with nothing queued, and has served each of this many
-- handles.
abbrev pub IsServed : ℕ → Callable → Type 0
IsServed n c = (c.finished ≡ true) × (c.served ≡ n) × (c.gets ≡ n) × (c.handlers ≡ [])

serve_next-IsShort :
    (m n : ℕ) (j b : Bool) (hs : List Handler) (a : Answering)
    → a.object.finished ≡ b
    → a.object.handlers ≡ hs
    → IsShort m n j a
    → IsShort m n j (serve_next b hs a)
unfolding serve_next serve_call
serve_next-IsShort m n j true hs a f e v = v
serve_next-IsShort m n j false [] a f e v = v
serve_next-IsShort m n j false (stop ∷ rest) a f e (r, k, g, s) =
    (next r (serves stop rest f e), k, g, s)
serve_next-IsShort m n j false (step ∷ rest) a f e (r, k, g, s) = by_due a.due refl
  where
    by_due : (due : ℕ) → a.due ≡ due → IsShort m n j (serve_next false (step ∷ rest) a)
    by_due zero z = rw (serve_next, z) (r, k, g, s)
    by_due (suc due) z =
        rw (serve_next, z) (next r (serves step rest f e), k, g, omega (arith, z, s))

pub serve_rounds-IsShort :
    (k m n : ℕ) (j : Bool) (a : Answering) → IsShort m n j a → IsShort m n j (serve_rounds k a)
unfolding serve_rounds serve_front
serve_rounds-IsShort zero m n j a v = v
serve_rounds-IsShort (suc k) m n j a v =
    serve_rounds-IsShort k m n j (serve_front a)
      (serve_next-IsShort m n j a.object.finished a.object.handlers a refl refl v)

-- A round takes one handler, where each call comes.
serve_next-length :
    (k n : ℕ) (j b : Bool) (hs : List Handler) (a : Answering)
    → IsShort 0 n j a
    → a.object.handlers ≡ hs
    → (b ≡ true → hs ≡ [])
    → length hs ≤ suc k
    → length (serve_next b hs a).object.handlers ≤ k
unfolding serve_next serve_call
serve_next-length k n j true hs a v e none_left small = rw (e, none_left refl) (omega arith)
serve_next-length k n j false [] a v e none_left small = rw e (omega arith)
serve_next-length k n j false (stop ∷ rest) a v e none_left small = omega arith
serve_next-length k n j false (step ∷ rest) a (r, _, g, s) e none_left small = by_due a.due refl
  where
    by_due : (due : ℕ) → a.due ≡ due → length (serve_next false (step ∷ rest) a).object.handlers ≤ k
    by_due zero z = absurd (omega (arith, step_lt r e, z, s, g))
    by_due (suc due) z = rw (serve_next, z) (omega arith)

-- Where each call comes, as many rounds as there are handlers end the thread.
serve_rounds-ends :
    (k n : ℕ) (a : Answering)
    → IsShort 0 n true a
    → length a.object.handlers ≤ k
    → (serve_rounds k a).object.finished ≡ true
unfolding serve_rounds serve_front
serve_rounds-ends zero n a (r, j, g, s) small = elim (Bool-cases a.object.finished) [
  | inl f ↦ f
  | inr f ↦
      let (h, rest, e) = join_not_stuck r j f in
      let none_fits : ⊥ = omega (arith, (rw e at small)) in absurd none_fits
]
serve_rounds-ends (suc k) n a (r, j, g, s) small =
    let c = a.object in
    serve_rounds-ends k n (serve_front a)
      (serve_next-IsShort 0 n true c.finished c.handlers a refl refl (r, j, g, s))
      (serve_next-length k n true c.finished c.handlers a (r, j, g, s) refl
        (λ f. (served_at_end r f).2) small)

-- The object as it is destroyed.
abbrev joining_of : Answering → Answering
joining_of a = record a { object = destroy a.object }

joining-IsShort : (m n : ℕ) (a : Answering) → IsShort m n false a → IsShort m n true (joining_of a)
unfolding destroy
joining-IsShort m n a (r, j, g, s) = (next r (destroys j), refl, g, s)

pub join_thread-IsServed :
    (n : ℕ) (a : Answering) → IsShort 0 n false a → IsServed n (join_thread a)
unfolding join_thread
join_thread-IsServed n a v =
    let v1 = joining-IsShort 0 n a v in
    let k = length (destroy a.object).handlers in
    let (r, j, g, s) = serve_rounds-IsShort k 0 n true (joining_of a) v1 in
    let f = serve_rounds-ends k n (joining_of a) v1 (omega arith) in
    let (joined, served, empty) = served_at_end r f in (f, served ∙ g, g, empty)

-- The object waits for ever: its thread runs, with calls that are not served.
abbrev pub IsStuck : Callable → Type 0
IsStuck c = (c.finished ≡ false) × (c.served < c.gets)

pub join_thread-IsStuck :
    (m n : ℕ) (a : Answering) → 0 < m → IsShort m n false a → IsStuck (join_thread a)
unfolding join_thread
join_thread-IsStuck m n a some_short v =
    let k = length (destroy a.object).handlers in
    let (r, j, g, s) = serve_rounds-IsShort k m n true (joining_of a) (joining-IsShort m n a v) in
    elim (Bool-cases (join_thread a).finished) [
      | inl f ↦ absurd (omega (arith, (served_at_end r f).1, g, s))
      | inr f ↦ (f, omega (arith, g, s))
    ]
