-- ===== src/CAres/Client/Answers.antt =====
-- How `main` of the client ends, and what it leaves of its callback object.
use kos_ce_extra.Prelude.{
  ℕ, ◌+◌, ◌≤◌, ◌<◌, Bool, true, false, ◌&&◌, Option, none, some, List, [], ◌∷◌, length, Text,
  Bool-cases, Option-cases, ◌≡◌, refl, inl, inr, arith, if◌then◌else◌,
}
use kos_ce_extra.CAres.Callable.{Callable, fresh, get_handle, here, next, gets}
use kos_ce_extra.CAres.Client.{
  Resolving, Answering, serve_rounds, join_thread, ClientRun, resolve_names, client_end,
  with_callback, resolving_main,
}
use kos_ce_extra.CAres.Client.Joining.{
  IsShort, IsServed, IsStuck, serve_rounds-IsShort, join_thread-IsServed, join_thread-IsStuck,
}

-- A handle that is handed out, with or without a call that comes.
handed-IsShort :
    (m n : ℕ) (sent : Bool) (a : Answering)
    → IsShort m n false a
    → IsShort
        (m + (if sent then 0 else 1))
        (n + 1)
        false
        (record { object = get_handle a.object; due = a.due + (if sent then 1 else 0) })
unfolding get_handle
handed-IsShort m n sent a (r, j, g, s) = (next r (gets j), j, omega (arith, g), ground (arith, s))

refused-IsShort :
    (m n : ℕ) (a : Answering)
    → IsShort m n false a
    → IsShort (m + 1) (n + 1) false (record a { object = get_handle a.object })
unfolding get_handle
refused-IsShort m n a (r, j, g, s) = (next r (gets j), j, omega (arith, g), omega (arith, s))

abbrev pub returns : Option Text → Bool
returns none = true
returns (some what) = false

module _ {S : Type 0} (d : Resolving S) (comes : ℕ → Bool) (rounds : ℕ → ℕ) where
  -- Each `Resolve` returns, and its call comes.
  abbrev pub all_answered : ℕ → List Text → S → Bool
  all_answered i [] s = true
  all_answered i (name ∷ names) s =
      returns (d.resolve name s).0 && (comes i && all_answered (i + 1) names (d.resolve name s).1)

  -- What the loop leaves, where `m` calls were short and `n` handles handed out before it.
  abbrev LoopEnd : ℕ → ℕ → Bool → Option Text → ℕ → Answering → Type 0
  LoopEnd m n answered threw asked a =
      (k : ℕ) × (l : ℕ) × IsShort k l false a
      × (m ≤ k)
      × (answered ≡ true → (threw ≡ none) × (asked ≡ n) × (k ≡ m) × (l ≡ n))
      × (answered ≡ false → m < k)

  resolve_names-LoopEnd :
      (m i : ℕ) (names : List Text) (a : Answering) (s : S)
      → IsShort m i false a
      → LoopEnd m
          (i + length names)
          (all_answered i names s)
          (resolve_names d comes rounds i names a s).0.0
          (resolve_names d comes rounds i names a s).0.1
          (resolve_names d comes rounds i names a s).1
  unfolding resolve_names
  resolve_names-LoopEnd m i [] a s v =
      (m, i, v, omega arith, λ _. (refl, omega arith, refl, omega arith), λ e. absurd (cc))
  resolve_names-LoopEnd m i (name ∷ names) a s v = elim (Option-cases (d.resolve name s).0) [
    | inr (what, e) ↦
        rw (resolve_names, e)
          (m + 1, i + 1, refused-IsShort m i a v, omega arith, λ h. absurd (cc), λ _. omega arith)
    | inl e ↦
        let sent : Answering = record {
          object = get_handle a.object;
          due = a.due + (if comes i then 1 else 0);
        } in
        let m' = m + (if comes i then 0 else 1) in
        let v' =
          serve_rounds-IsShort (rounds i) m' (i + 1) false sent
            (handed-IsShort m i (comes i) a v) in
        let (k, l, w, less, well, ill) =
          resolve_names-LoopEnd m' (i + 1) names (serve_rounds (rounds i) sent) (d.resolve name s).1
            v' in
        rw (resolve_names, e)
          (
            k,
            l,
            w,
            ground (arith, less),
            λ h. elim (Bool-cases (comes i)) [
              | inl c ↦
                  let (t, b, p, q) = well (rw c at h) in
                  (t, omega (arith, b), ground (arith, p), omega (arith, q))
              | inr c ↦ absurd (let g = rw c at h in cc)
            ],
            λ h. elim (Bool-cases (comes i)) [
              | inl c ↦ ground (arith, ill (rw c at h))
              | inr c ↦ ground (arith, less)
            ],
          )
  ]

  -- How `main` ends behind its constructors, and what it leaves of its callback object.
  abbrev pub Ends : ℕ → Bool → ClientRun S → Type 0
  Ends n answered run =
      (c : Callable) × (run.callback ≡ some c)
      × (answered ≡ true → (run.exit ≡ some true) × (run.asked ≡ n) × IsServed n c)
      × (answered ≡ false → (run.exit ≡ none) × IsStuck c)

  client_end-Ends :
      (n asked : ℕ) (answered : Bool) (threw : Option Text) (c : Callable) (s : S)
      → (answered ≡ true → (threw ≡ none) × (asked ≡ n) × IsServed n c)
      → (answered ≡ false → IsStuck c)
      → Ends n answered (client_end d comes rounds threw (some c) asked s)
  unfolding client_end
  client_end-Ends n asked true threw c s well ill =
      let (t, same, served) = well refl in
      (
        c,
        rw (client_end, t, served.0) refl,
        λ _. (rw (client_end, t, served.0) refl, rw (client_end, t, served.0) same, served),
        λ h. absurd (cc),
      )
  client_end-Ends n asked false threw c s well ill =
      let f = (ill refl).0 in
      (c, rw (client_end, f) refl, λ h. absurd (cc), λ _. (rw (client_end, f) refl, ill refl))

  -- Where the two constructors return, `main` with the names of its command line ends with
  -- `EXIT_SUCCESS` if each `Resolve` returns and its call comes, however far the thread has come
  -- meanwhile: it has made one `Resolve` for each name, and the thread of its callback object has
  -- served one call for each, has ended, and has nothing queued. If a `Resolve` throws, or a call
  -- does not come, `main` does not end: its destructor joins the thread, which waits for a call.
  pub resolving_main-Ends :
      (name : Text) (names : List Text) (s : S)
      → (d.make_callback s).0 ≡ none
      → (d.make_proxy (d.make_callback s).1).0 ≡ none
      → let s' = (d.make_proxy (d.make_callback s).1).1 in
        Ends
          (length (name ∷ names))
          (all_answered 0 (name ∷ names) s')
          (resolving_main d comes rounds (name ∷ names) s)
  unfolding resolving_main with_callback
  resolving_main-Ends name names s e e' =
      let start : Answering = record { object = fresh; due = 0 } in
      let s' = (d.make_proxy (d.make_callback s).1).1 in
      let all = name ∷ names in
      let end = resolve_names d comes rounds 0 all start s' in
      let (k, l, v, less, well, ill) =
        resolve_names-LoopEnd 0 0 all start s' (here, refl, refl, refl) in
      rw (resolving_main, with_callback, e, e')
        (client_end-Ends (length all) end.0.1 (all_answered 0 all s') end.0.0 (join_thread end.1)
          end.2
          (λ h.
            let (t, b, p, q) = well h in
            let (r, j, g, u) = v in
            (
              t,
              omega (arith, b),
              join_thread-IsServed (length all) end.1
                  (r, j, omega (arith, g, q), omega (arith, u, p, q)),
            ))
          (λ h. join_thread-IsStuck k l end.1 (ill h) v))
