-- ===== src/ExecutionManager/Acts.antt =====
-- Programs that make calls one after the other and end at the first that fails.
use kos_ce_extra.Prelude.{
  ℕ, Bool, true, false, Option, none, some, List, [], ◌∷◌, ◌++◌, append_assoc, ◌≡◌, refl, sym, ap,
  ◌∙◌,
}

-- A result, or the code of the call that failed.
pub data Result (A : Type 0) : Type 0 where
  good : A → Result A
  bad : ℕ → Result A

-- What the system is in, and the calls with whether they succeeded.
pub record World (O S : Type 0) : Type 0 where
  pub peer : S
  pub calls : List (O × Bool)

abbrev pub Act : Type 0 → Type 0 → Type 0 → Type 0
Act O S A = World O S → Result A × World O S

abbrev pub and_then :
    {O S A B : Type 0} → Result A × World O S → (A → Act O S B) → Result B × World O S
and_then (good a, w) k = k a w
and_then (bad rc, w) k = (bad rc, w)

infixr 20 ◌>>=◌
abbrev pub ◌>>=◌ : {O S A B : Type 0} → Act O S A → (A → Act O S B) → Act O S B
m >>= k = λ w. and_then (m w) k

-- How a call is recorded: with what it gives, if it succeeds.
abbrev pub entry : {O A : Type 0} → (Option A → O) → Result A → O × Bool
entry op (good a) = (op (some a), true)
entry op (bad rc) = (op none, false)

-- A call.
unfoldable pub perform : {O S A : Type 0} → (Option A → O) → (S → Result A × S) → Act O S A
perform op f w =
    let (r, peer) = f w.peer in (r, record { peer = peer; calls = w.calls ++ entry op r ∷ [] })

module _ {O : Type 0} where
  -- These calls, all of which succeeded.
  abbrev pub succeeded : List O → List (O × Bool)
  succeeded [] = []
  succeeded (op ∷ ops) = (op, true) ∷ succeeded ops

  succeeded-append : (ops more : List O) → succeeded (ops ++ more) ≡ succeeded ops ++ succeeded more
  succeeded-append [] more = refl
  succeeded-append (op ∷ ops) more = ap (λ l. (op, true) ∷ l) (succeeded-append ops more)

module _ {O S : Type 0} where
  -- What has happened when an act ends: if it has a result, its calls succeeded and `R` holds of it
  -- and of them; otherwise all but the last succeeded.
  abbrev pub Ran :
      {A : Type 0} → (A → List O → Type 0) → List (O × Bool) → Result A × World O S → Type 0
  Ran R before (good a, w) = (ops : List O) × (w.calls ≡ before ++ succeeded ops) × R a ops
  Ran R before (bad rc, w) =
      (ops : List O) × (last : O) × (w.calls ≡ before ++ (succeeded ops ++ (last, false) ∷ []))

  abbrev pub Runs : {A : Type 0} → (A → List O → Type 0) → Act O S A → Type 0
  Runs R m = (w : World O S) → Ran R w.calls (m w)

  pub perform-Runs :
      {A : Type 0} (op : Option A → O) (f : S → Result A × S)
      → Runs (λ a ops. ops ≡ op (some a) ∷ []) (perform op f)
  unfolding perform
  perform-Runs {A = A} op f w = with_result (f w.peer).0
    where
      with_result :
          (r : Result A)
          → Ran
              (λ a ops. ops ≡ op (some a) ∷ [])
              w.calls
              (r, record { peer = (f w.peer).1; calls = w.calls ++ entry op r ∷ [] })
      with_result (good a) = (op (some a) ∷ [], refl, refl)
      with_result (bad rc) = ([], op none, refl)

  pub Runs->>= :
      {A B : Type 0} (R : A → List O → Type 0) (Q : B → List O → Type 0) (m : Act O S A)
      (k : A → Act O S B)
      → Runs R m
      → ((a : A) (ops : List O) → R a ops → Runs (λ b more. Q b (ops ++ more)) (k a))
      → Runs Q (m >>= k)
  Runs->>= {A = A} {B = B} R Q m k h step w = with_result (m w) (h w)
    where
      with_next :
          (a : A) (w' : World O S) (ops : List O)
          → w'.calls ≡ w.calls ++ succeeded ops
          → (r : Result B × World O S) → Ran (λ b more. Q b (ops ++ more)) w'.calls r
          → Ran Q w.calls r
      with_next a w' ops e (good b, w'') (more, e', q) = (
        ops ++ more,
        e'
            ∙ (ap (λ l. l ++ succeeded more) e
                ∙ (append_assoc w.calls (succeeded ops) (succeeded more)
                    ∙ ap (λ l. w.calls ++ l) (sym (succeeded-append ops more)))),
        q,
      )
      with_next a w' ops e (bad rc, w'') (more, last, e') = (
        ops ++ more,
        last,
        rw
            (
              e',
              e,
              succeeded-append ops more,
              append_assoc (succeeded ops) (succeeded more) ((last, false) ∷ []),
            )
            (append_assoc w.calls (succeeded ops) (succeeded more ++ (last, false) ∷ [])),
      )

      with_result : (r : Result A × World O S) → Ran R w.calls r → Ran Q w.calls (and_then r k)
      with_result (bad rc, w') h' = h'
      with_result (good a, w') (ops, e, q) = with_next a w' ops e (k a w') (step a ops q w')

  pub Runs-weaken :
      {A : Type 0} (R Q : A → List O → Type 0) (m : Act O S A)
      → Runs R m
      → ((a : A) (ops : List O) → R a ops → Q a ops)
      → Runs Q m
  Runs-weaken {A = A} R Q m h step w = with_result (m w) (h w)
    where
      with_result : (r : Result A × World O S) → Ran R w.calls r → Ran Q w.calls r
      with_result (good a, w') (ops, e, q) = (ops, e, step a ops q)
      with_result (bad rc, w') h' = h'

  -- A call with an act behind it, and the last call.
  pub perform-then :
      {A B : Type 0} (Q : B → List O → Type 0) (op : Option A → O) (f : S → Result A × S)
      (k : A → Act O S B)
      → ((a : A) → Runs (λ b more. Q b (op (some a) ∷ more)) (k a))
      → Runs Q (perform op f >>= k)
  perform-then Q op f k step =
      Runs->>= (λ a ops. ops ≡ op (some a) ∷ []) Q (perform op f) k (perform-Runs op f)
        (λ a ops e. rw e (step a))

  pub perform-last :
      {A : Type 0} (Q : A → List O → Type 0) (op : Option A → O) (f : S → Result A × S)
      → ((a : A) → Q a (op (some a) ∷ []))
      → Runs Q (perform op f)
  perform-last Q op f last =
      Runs-weaken (λ a ops. ops ≡ op (some a) ∷ []) Q (perform op f) (perform-Runs op f)
        (λ a ops e. rw e (last a))
