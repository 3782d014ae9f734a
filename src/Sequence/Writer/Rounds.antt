-- ===== src/Sequence/Writer/Rounds.antt =====
-- What the writer sends in each round, and what becomes of it.
use kos_ce_extra.Prelude.{
  ℕ, zero, suc, ◌+◌, ◌%◌, ◌^◌, ◌-◌, ◌<◌, ◌≤◌, Option, none, some, List, [], ◌∷◌, ◌++◌, length,
  length-append, get_elem?, Text, ltb, ◌==◌, if◌then◌else◌, Bool-cases, ==_iff, inl, inr, ◌≡◌, refl,
  ap, ◌∙◌, arith,
}
use kos_ce_extra.Sequence.Writer.{
  iota, make_seq, show_seq, received, expected, log_sequence, try_log_sequence, example_rounds,
}

-- The numbers from 1 to `n`.
abbrev pub one_to : ℕ → List ℕ
one_to zero = []
one_to (suc n) = one_to n ++ suc n ∷ []

iota-snoc :
    (n value : ℕ) → n + value < 2 ^ 32 → iota (suc n) value ≡ iota n value ++ (value + n) ∷ []
unfolding iota
iota-snoc zero value h = let same : value + 0 ≡ value = omega arith in rw same refl
iota-snoc (suc n) value h =
    let next = (value + 1) % 2 ^ 32 in
    let last : next + n ≡ value + suc n = omega arith in
    ap (λ seq. value ∷ seq) (rw last at (iota-snoc n next (omega arith)))

make_seq-one_to : (n : ℕ) → n < 2 ^ 31 → make_seq n 1 ≡ one_to n
unfolding make_seq
make_seq-one_to zero h = refl
make_seq-one_to (suc n) h =
    let last : 1 + n ≡ suc n = omega arith in
    rw last at (iota-snoc n 1 (omega arith))
    ∙ ap (λ seq. seq ++ suc n ∷ []) (make_seq-one_to n (omega arith))

length-one_to : (n : ℕ) → length (one_to n) ≡ n
length-one_to zero = refl
length-one_to (suc n) = omega (arith, length-append {0} (one_to n) (suc n ∷ []), length-one_to n)

module _ (denial : Text) (transport : List ℕ → Option Text)
    (delivers : (seq : List ℕ) → length seq ≤ 7 → transport seq ≡ none) where
  lines :
      (n : ℕ)
      → n ≤ 10
      → try_log_sequence denial transport (make_seq n 1)
        ≡ (if ltb 7 n then expected else received (show_seq (one_to n))) ∷ []
  unfolding try_log_sequence log_sequence
  lines n h = rw (make_seq-one_to n (omega arith)) (elim (Bool-cases (ltb 7 n)) [
    | inl e ↦ ground (arith, length-one_to n)
    | inr e ↦
        let short : n ≤ 7 = ground arith in
        ground (arith, length-one_to n, delivers (one_to n) (rw (length-one_to n) short))
  ])

  -- The length of the sequence of the round `k`, if the loop begins with the length `i`.
  round_lem :
      (rounds i k : ℕ)
      → 1 ≤ i
      → i ≤ 10
      → k < rounds
      → let n = (i + k - 1) % 10 + 1 in
        get_elem? (example_rounds denial transport rounds i) k
        ≡ some ((if ltb 7 n then expected else received (show_seq (one_to n))) ∷ [])
  unfolding example_rounds
  round_lem zero i k lo hi h = absurd (omega (arith, h))
  round_lem (suc rounds) i zero lo hi h =
      let here : (i + 0 - 1) % 10 + 1 ≡ i = omega arith in rw here (ap some (lines i hi))
  round_lem (suc rounds) i (suc k) lo hi h = elim (Bool-cases (i == 10)) [
    | inl e ↦
        let top : i ≡ 10 = (==_iff i 10).0 e in
        let same : (1 + k - 1) % 10 + 1 ≡ (i + suc k - 1) % 10 + 1 = omega arith in
        rw e (rw same at (round_lem rounds 1 k (omega arith) (omega arith) (omega arith)))
    | inr e ↦
        let below : i ≤ 9 = ground arith in
        let same : (i + 1 + k - 1) % 10 + 1 ≡ (i + suc k - 1) % 10 + 1 = omega arith in
        rw e (rw same at (round_lem rounds (i + 1) k (omega arith) (omega arith) (omega arith)))
  ]

  -- Over a transport that delivers what the policy grants, the writer sends the numbers from 1 to
  -- `n` in its rounds, where `n` goes from 1 to 10 and begins again with 1. The reader prints each
  -- sequence of at most seven numbers; of a longer one the writer says that the failure is the
  -- expected one. No other line appears.
  pub example_rounds_lem :
      (rounds k : ℕ)
      → k < rounds
      → let n = k % 10 + 1 in
        get_elem? (example_rounds denial transport rounds 1) k
        ≡ some ((if ltb 7 n then expected else received (show_seq (one_to n))) ∷ [])
  example_rounds_lem rounds k h =
      let same : 1 + k - 1 ≡ k = omega arith in
      rw same at (round_lem rounds 1 k (omega arith) (omega arith) h)
