-- ===== src/Jwt/Session/Accepting.antt =====
-- What the listener does with a series of accepts.
use kos_ce_extra.Prelude.{ℕ, suc, ◌+◌, ◌-◌, List, [], ◌∷◌, ◌≡◌, refl, arith, length}
use kos_ce_extra.Jwt.Session.{ErrorCode, success, Listener, listen, listening, on_accept}

abbrev pub successes : List ErrorCode → ℕ
successes [] = 0
successes (success ∷ ecs) = suc (successes ecs)
successes (_ ∷ ecs) = successes ecs

on_accept-counts :
    (ec : ErrorCode) (l : Listener)
    → l.accepting ≡ 1
    → let l' = on_accept ec (record l { accepting = l.accepting - 1 }) in
      (l'.accepting ≡ 1) × (length l'.sessions ≡ successes (ec ∷ []) + length l.sessions)
unfolding on_accept
on_accept-counts success l h = ground arith
on_accept-counts _ l h = ground arith

successes-cons :
    (ec : ErrorCode) (ecs : List ErrorCode)
    → successes (ec ∷ ecs) ≡ successes (ec ∷ []) + successes ecs
successes-cons success ecs = omega arith
successes-cons _ ecs = omega arith

listen-counts :
    (ecs : List ErrorCode) (l : Listener)
    → l.accepting ≡ 1
    → ((listen ecs l).accepting ≡ 1)
      × (length (listen ecs l).sessions ≡ successes ecs + length l.sessions)
unfolding listen
listen-counts [] l h = omega arith
listen-counts (ec ∷ ecs) l h =
    let (one, more) = on_accept-counts ec l h in
    let (ih, ih') =
      listen-counts ecs (on_accept ec (record l { accepting = l.accepting - 1 })) one in
    omega (arith, successes-cons ec ecs)

-- Whatever becomes of each accept, the listener goes on with exactly one accept outstanding, and
-- has started one session for each that succeeded.
listen-listening :
    (ecs : List ErrorCode)
    → ((listen ecs listening).accepting ≡ 1)
      × (length (listen ecs listening).sessions ≡ successes ecs)
unfolding listening
listen-listening ecs = omega (arith, listen-counts ecs listening refl)
