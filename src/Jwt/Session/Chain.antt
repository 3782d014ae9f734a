-- ===== src/Jwt/Session/Chain.antt =====
-- What is outstanding on a connection at a time.
use kos_ce_extra.Prelude.{ℕ, ◌+◌, ◌≤◌, Bool, List, [], ◌∷◌, ◌++◌, ◌≡◌, ap, arith}
use kos_ce_extra.Jwt.Session.{
  Operation, shutdown, write, ErrorCode, Session, on_run, complete, Step, completes, Reach, here,
  next,
}

-- The operations that carry the conversation: all but `async_shutdown`.
abbrev pub talk : Operation → ℕ
talk shutdown = 0
talk _ = 1

abbrev pub writing : Operation → ℕ
writing (write _) = 1
writing _ = 0

abbrev pub total : (Operation → ℕ) → List Operation → ℕ
total f [] = 0
total f (op ∷ ops) = f op + total f ops

total-append :
    (f : Operation → ℕ) (xs ys : List Operation) → total f (xs ++ ys) ≡ total f xs + total f ys
total-append f [] ys = omega arith
total-append f (x ∷ xs) ys = omega (arith, total-append f xs ys)

total-split :
    (f : Operation → ℕ) (op : Operation) (before after ops : List Operation)
    → ops ≡ before ++ op ∷ after
    → total f ops ≡ f op + total f (before ++ after)
total-split f op before after ops e =
    omega (arith, ap (total f) e, total-append f before (op ∷ after), total-append f before after)

pub record IsOrderly (s : Session) : Type 0 where
  pub one_talk : total talk s.outstanding ≤ 1
  pub answered : s.sent + total writing s.outstanding ≤ s.served

complete-IsOrderly :
    (op : Operation) (before after : List Operation) (ec : ErrorCode) (keep_alive : Bool)
    (s : Session)
    → s.outstanding ≡ before ++ op ∷ after
    → IsOrderly s
    → IsOrderly (complete op ec keep_alive (record s { outstanding = before ++ after }))
unfolding complete
complete-IsOrderly op before after ec keep_alive s e h =
    let talks = total-split talk op before after s.outstanding e in
    let writes = total-split writing op before after s.outstanding e in
    ground (arith, talks, writes)

Step-IsOrderly : {s t : Session} → Step s t → IsOrderly s → IsOrderly t
Step-IsOrderly (completes op before after ec keep_alive e) h =
    complete-IsOrderly op before after ec keep_alive _ e h

-- On every connection, in whatever order and with whatever errors its operations complete, at most
-- one handshake, read or write is outstanding, and no response is written or being written that
-- no request was served for.
pub Reach-IsOrderly : {s : Session} → Reach s → IsOrderly s
unfolding on_run
Reach-IsOrderly here = omega arith
Reach-IsOrderly (next r st) = Step-IsOrderly st (Reach-IsOrderly r)
