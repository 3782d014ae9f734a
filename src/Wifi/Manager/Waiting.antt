-- ===== src/Wifi/Manager/Waiting.antt =====
-- How long `WaitStatus` waits, and what it has seen when it returns.
use kos_ce_extra.Prelude.{
  ℕ, zero, suc, ◌<◌, ◌≡◌, refl, Bool, true, false, Option, Text, arith, Bool-cases, inl, inr, ◌⊎◌,
}
use kos_ce_extra.Wifi.Manager.{Manager, poll, wait_status}

module _ {S : Type 0} (execute : Text → S → Option Text × S) (property : Text)
    (checker : Text → Bool) where
  -- The status that the next round sees, and the state after some rounds.
  abbrev pub seen : Manager S → Text
  seen m = (poll execute property m).0

  pub after_polls : ℕ → Manager S → Manager S
  after_polls zero m = m
  after_polls (suc k) m = after_polls k (poll execute property m).1

  abbrev pub Unseen : ℕ → Manager S → Type 0
  Unseen zero m = Unit
  Unseen (suc k) m = (checker (seen m) ≡ false) × Unseen k (poll execute property m).1

  -- Either some round before `timeout` is the first whose status passes, and the wait ends with
  -- true right after it, or none of `timeout` rounds passes, and it ends with false after them.
  abbrev pub Waited : ℕ → Manager S → Type 0
  Waited timeout m =
      ((k : ℕ) × (k < timeout)
        × Unseen k m
        × (checker (seen (after_polls k m)) ≡ true)
        × (wait_status execute property checker timeout m ≡ (true, after_polls (suc k) m)))
      ⊎ (Unseen timeout m
          × (wait_status execute property checker timeout m ≡ (false, after_polls timeout m)))

  Waited-later :
      (timeout : ℕ) (m : Manager S)
      → checker (seen m) ≡ false
      → Waited timeout (poll execute property m).1
      → Waited (suc timeout) m
  unfolding wait_status after_polls
  Waited-later timeout m bad (inl (k, small, before, good, e)) =
      inl (suc k, omega arith, (bad, before), good, rw (wait_status, bad) e)
  Waited-later timeout m bad (inr (before, e)) = inr ((bad, before), rw (wait_status, bad) e)

  -- `WaitStatus` polls once a second. It returns true after the first round whose status passes
  -- the check, and false after `timeout` rounds none of which did.
  pub wait_status_lem : (timeout : ℕ) (m : Manager S) → Waited timeout m
  unfolding wait_status after_polls
  wait_status_lem zero m = inr (tt, refl)
  wait_status_lem (suc timeout) m = elim (Bool-cases (checker (seen m))) [
    | inl good ↦ inl (0, omega arith, tt, good, rw (wait_status, good))
    | inr bad ↦ Waited-later timeout m bad (wait_status_lem timeout (poll execute property m).1)
  ]
