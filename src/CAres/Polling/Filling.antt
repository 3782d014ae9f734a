-- ===== src/CAres/Polling/Filling.antt =====
-- Which sockets are polled.
use kos_ce_extra.Prelude.{
  ℕ, zero, suc, ◌+◌, ◌*◌, ◌/◌, ◌<◌, ◌≤◌, ◌≡◌, refl, ◌⊎◌, Bool, true, false, ◌||◌, arith, length,
  get_elem?, some, Bool-cases, inl, inr,
}
use native.Mathlib.Nat.{zero-add}
use kos_ce_extra.CAres.Polling.{Pollfd, get_timeout, fill_from, fill_poll_descriptors, min}

-- The time-out in milliseconds, where `ares_timeout` gives less than a second's microseconds and
-- the number of milliseconds fits an `int`: the milliseconds of the seconds and the whole
-- milliseconds of the rest.
get_timeout_lem :
    (tv_sec tv_usec : ℕ)
    → tv_usec < 1000000
    → tv_sec < 2000000
    → get_timeout (some (tv_sec, tv_usec)) ≡ some (tv_sec * 1000 + tv_usec / 1000)
unfolding get_timeout
get_timeout_lem tv_sec tv_usec h k = ground arith

min_le : (a b : ℕ) → (min a b ≤ a) × (min a b ≤ b)
min_le a b = ground arith

module _ (readable writable : ℕ → Bool) (socks : ℕ → ℕ) where
  abbrev pub descriptor : ℕ → Pollfd
  descriptor i = record { fd = socks i; pollin = readable i; pollout = writable i }

  fill_from-elem :
      (rounds i j : ℕ) (d : Pollfd)
      → get_elem? (fill_from readable writable socks rounds i) j ≡ some d
      → (d ≡ descriptor (i + j)) × ((readable (i + j) || writable (i + j)) ≡ true)
  unfolding fill_from
  fill_from-elem zero i j d h = cc
  fill_from-elem (suc rounds) i zero d h =
      let here : i + 0 ≡ i = omega arith in rw here (ground arith)
  fill_from-elem (suc rounds) i (suc j) d h =
      let there : i + suc j ≡ i + 1 + j = omega arith in
      rw there (ground (arith, fill_from-elem rounds (i + 1) j d))

  fill_from-end :
      (rounds i : ℕ)
      → let n = length (fill_from readable writable socks rounds i) in
        (n ≤ rounds) × ((n ≡ rounds) ⊎ ((readable (i + n) || writable (i + n)) ≡ false))
  unfolding fill_from
  fill_from-end zero i = (omega arith, inl refl)
  fill_from-end (suc rounds) i = elim (Bool-cases (readable i || writable i)) [
    | inl busy ↦ rw (fill_from, busy) (further (fill_from-end rounds (i + 1)))
    | inr idle ↦
        let here : i + 0 ≡ i = omega arith in rw (fill_from, idle) (omega arith, inr (rw here idle))
  ]
    where
      further :
          let n = length (fill_from readable writable socks rounds (i + 1)) in
          ((n ≤ rounds) × ((n ≡ rounds) ⊎ ((readable (i + 1 + n) || writable (i + 1 + n)) ≡ false)))
          → (suc n ≤ suc rounds)
            × ((suc n ≡ suc rounds) ⊎ ((readable (i + suc n) || writable (i + suc n)) ≡ false))
      further (le, inl e) = (omega arith, inl (omega arith))
      further (le, inr e) =
          let n = length (fill_from readable writable socks rounds (i + 1)) in
          let there : i + suc n ≡ i + 1 + n = omega arith in (omega arith, inr (rw there e))

  -- `FillPollDescriptors` fills no more entries than the array or the library's limit allow. Entry
  -- `i` is for the socket `i`, with the events that the library asks for, and asks for at least
  -- one. The entries end with the array, or before the first socket with no event.
  pub fill_poll_descriptors_lem :
      (size max : ℕ)
      → let n = length (fill_poll_descriptors readable writable socks size max) in
        (n ≤ size)
        × (n ≤ max)
        × ((n ≡ min size max) ⊎ ((readable n || writable n) ≡ false))
        × ((i : ℕ) (d : Pollfd)
            → get_elem? (fill_poll_descriptors readable writable socks size max) i ≡ some d
            → (d ≡ descriptor i) × ((readable i || writable i) ≡ true))
  unfolding fill_poll_descriptors
  fill_poll_descriptors_lem size max =
      let (le, stop) = fill_from-end (min size max) 0 in
      let (small, smaller) = min_le size max in
      let n = length (fill_from readable writable socks (min size max) 0) in
      let start : 0 + n ≡ n = omega arith in
      (
        omega arith,
        omega arith,
        rw start at stop,
        λ i d h. (rw (zero-add) at (fill_from-elem (min size max) 0 i d h)),
      )
