-- ===== src/Cellular/Ntpd/Laws.antt =====
-- When the clock counts as set, and how the client ends.
use kos_ce_extra.Prelude.{
  ℕ, zero, suc, ◌<◌, Bool, true, false, some, [], ltb, ◌≡◌, ◌↔◌, ◌∙◌, sym, ap, refl, Bool-cases,
  Option-cases, inl, inr, arith, ltb→lt,
}
use kos_ce_extra.Cellular.Client.{success, Modem}
use kos_ce_extra.Cellular.Ntpd.{
  System, attempts, time_step_sec, pause, wait_time_update, mbim_connect, set_initial_time,
  wwan_apn, with_device, ntpd_main,
}

module _ {S : Type 0} (m : Modem S) (y : System S) where
  -- The state in front of the look `k` at the clock.
  abbrev pub looked : ℕ → S → S
  looked zero s = s
  looked (suc k) s = looked k (pause m y time_step_sec (y.local_year s).1)

  -- What the look `k` finds: a year that is after 2011, or one that is not.
  abbrev pub IsLate : ℕ → S → Type 0
  IsLate k s = (year : ℕ) × ((y.local_year (looked k s)).0 ≡ some year) × (2011 < year)

  abbrev pub IsEarly : ℕ → S → Type 0
  IsEarly k s = (year : ℕ) × ((y.local_year (looked k s)).0 ≡ some year) × (year < 2012)

  -- Some look is late, and each before it early.
  abbrev pub Updates : ℕ → S → Type 0
  Updates left s = (k : ℕ) × (k < left) × IsLate k s × ((i : ℕ) → i < k → IsEarly i s)

  all-IsEarly :
      (s : S) (k : ℕ)
      → IsEarly 0 s
      → ((i : ℕ) → i < k → IsEarly i (looked 1 s))
      → (i : ℕ) → i < suc k
      → IsEarly i s
  all-IsEarly s k first others zero h = first
  all-IsEarly s k first others (suc i) h = others i (omega arith)

  wait_time_update-early :
      (left : ℕ) (s : S)
      → IsEarly 0 s
      → wait_time_update m y (suc left) s ≡ wait_time_update m y left (looked 1 s)
  unfolding wait_time_update
  wait_time_update-early left s (year, e, early) =
      let no : ltb 2011 year ≡ false = ground arith in rw (wait_time_update, e, no) refl

  wait_time_update_finds :
      (left : ℕ) (s : S) → (wait_time_update m y left s).0 ≡ true → Updates left s
  unfolding wait_time_update
  wait_time_update_finds zero s h = cc
  wait_time_update_finds (suc left) s h = elim (Option-cases (y.local_year s).0) [
    | inl e ↦ cc (rw (wait_time_update, e) at h)
    | inr (year, e) ↦ elim (Bool-cases (ltb 2011 year)) [
      | inl late ↦ (0, omega arith, (year, e, ltb→lt 2011 year late), λ i h. absurd (omega arith))
      | inr early ↦
          let first : IsEarly 0 s = (year, e, ground arith) in
          let (k, small, found, before) =
            wait_time_update_finds left (looked 1 s)
              (sym (ap (λ (r : Bool × S). r.0) (wait_time_update-early left s first)) ∙ h) in
          (suc k, omega (arith, small), found, all-IsEarly s k first before)
    ]
  ]

  wait_time_update_found :
      (left k : ℕ) (s : S)
      → k < left
      → IsLate k s
      → ((i : ℕ) → i < k → IsEarly i s)
      → (wait_time_update m y left s).0 ≡ true
  unfolding wait_time_update
  wait_time_update_found zero k s small late early = absurd (omega (arith, small))
  wait_time_update_found (suc left) zero s small (year, e, late) early =
      let yes : ltb 2011 year ≡ true = ground arith in rw (wait_time_update, e, yes) refl
  wait_time_update_found (suc left) (suc k) s small late early =
      ap (λ (r : Bool × S). r.0) (wait_time_update-early left s (early 0 (omega arith)))
      ∙ wait_time_update_found left k (looked 1 s) (omega arith) late
          (λ i h. early (suc i) (omega arith))

  ntpd_main-calls :
      (s : S)
      → let s1 = (set_initial_time m y s).1 in
        let s2 = (m.wait_for_iface s1).1 in
        let s3 = (m.open_device s2).1 in
        let s4 = (mbim_connect m y wwan_apn [] [] s3).1 in
        ((ntpd_main m y s).success ≡ true) ↔ (
          ((set_initial_time m y s).0 ≡ true)
          × ((m.wait_for_iface s1).0 ≡ true)
          × ((m.open_device s2).0 ≡ success)
          × ((mbim_connect m y wwan_apn [] [] s3).0 ≡ true)
          × ((wait_time_update m y attempts s4).0 ≡ true))
  unfolding ntpd_main with_device
  ntpd_main-calls s = (λ h. ground arith, λ h. ground arith)

  ntpd_main-closes : (s : S) → (ntpd_main m y s).closed ≡ (ntpd_main m y s).opened
  unfolding ntpd_main with_device
  ntpd_main-closes s = ground arith

  -- What the client leaves where it succeeds, in order.
  abbrev pub Succeeds : S → Type 0
  Succeeds s =
      let s1 = (set_initial_time m y s).1 in
      let s2 = (m.wait_for_iface s1).1 in
      let s3 = (m.open_device s2).1 in
      ((set_initial_time m y s).0 ≡ true)
      × ((m.wait_for_iface s1).0 ≡ true)
      × ((m.open_device s2).0 ≡ success)
      × ((mbim_connect m y wwan_apn [] [] s3).0 ≡ true)
      × Updates attempts (mbim_connect m y wwan_apn [] [] s3).1

  -- `main` succeeds exactly where the date in the past is set, the modem is there and opens, the
  -- connection is made, and one of ten looks at the clock, five seconds apart, finds a year after
  -- 2011, while every look before it finds an earlier year. Whether it succeeds or not, it closes
  -- the modem exactly if it opened it.
  pub ntpd_main_iff :
      (s : S)
      → (((ntpd_main m y s).success ≡ true) ↔ Succeeds s)
        × ((ntpd_main m y s).closed ≡ (ntpd_main m y s).opened)
  ntpd_main_iff s =
      let s1 = (set_initial_time m y s).1 in
      let s3 = (m.open_device (m.wait_for_iface s1).1).1 in
      let s4 = (mbim_connect m y wwan_apn [] [] s3).1 in
      let (forth, back) = ntpd_main-calls s in
      (
        (
          λ h.
              let (set, exists, opens, connects, updates) = forth h in
              (set, exists, opens, connects, wait_time_update_finds attempts s4 updates),
          λ (set, exists, opens, connects, (k, small, late, early)).
              back (
                set,
                exists,
                opens,
                connects,
                wait_time_update_found attempts k s4 small late early,
              ),
        ),
        ntpd_main-closes s,
      )
