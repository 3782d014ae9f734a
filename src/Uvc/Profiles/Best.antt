-- ===== src/Uvc/Profiles/Best.antt =====
-- The profile that the loop finds is the best one.
use kos_ce_extra.Prelude.{
  ℕ, zero, suc, ◌+◌, ◌<◌, ◌≤◌, true, false, Option, none, some, List, [], ◌∷◌, ◌++◌, append_assoc,
  append-nil, length, length-append, get_elem?-append, get_elem?-last, get_elem?, Bool-cases,
  Option-cases, if◌then◌else◌, ◌≡◌, ◌↔◌, ◌⊎◌, inl, inr, refl, sym, ap, ◌∙◌, arith,
}
use kos_ce_extra.Uvc.Profiles.{PixelFormat, format_eq, Info, is_better, best_from}

module _ {ℓ} {A : Type ℓ} where
  get_elem?-lt : (xs : List A) (j : ℕ) (a : A) → get_elem? xs j ≡ some a → j < length xs
  get_elem?-lt [] j a e = cc
  get_elem?-lt (x ∷ xs) zero a e = omega arith
  get_elem?-lt (x ∷ xs) (suc j) a e = omega (arith, get_elem?-lt xs j a e)

  -- A place in a list with one more element: an old one, or the last.
  get_elem?-snoc :
      (xs : List A) (x : A) (j : ℕ) (a : A)
      → get_elem? (xs ++ x ∷ []) j ≡ some a
      → (get_elem? xs j ≡ some a) ⊎ ((j ≡ length xs) × (x ≡ a))
  get_elem?-snoc [] x zero a e = inr (refl, cc)
  get_elem?-snoc [] x (suc j) a e = cc
  get_elem?-snoc (y ∷ xs) x zero a e = inl e
  get_elem?-snoc (y ∷ xs) x (suc j) a e = ground (arith, get_elem?-snoc xs x j a e)

module _ (height : ℕ) (format : PixelFormat) where
  -- A profile with the format whose pictures are not too high.
  abbrev pub Fits : Info → Type 0
  Fits info = (format_eq info.pixel_format format ≡ true) × (info.res_y ≤ height) × (0 < info.res_y)

  -- A profile that fits, as high as any other that does, and the first of those.
  abbrev pub IsBest : List Info → ℕ → Type 0
  IsBest infos k =
      (info : Info) × (get_elem? infos k ≡ some info)
      × Fits info
      × ((j : ℕ) (other : Info)
          → get_elem? infos j ≡ some other
          → Fits other
          → (other.res_y < info.res_y) ⊎ ((other.res_y ≡ info.res_y) × (k ≤ j)))

  abbrev NoneFits : List Info → Type 0
  NoneFits infos = (j : ℕ) (other : Info) → get_elem? infos j ≡ some other → ¬ Fits other

  -- What the two variables of the loop hold when it has seen these profiles.
  abbrev Holds : List Info → ℕ → Option ℕ → Type 0
  Holds seen best_height none = (best_height ≡ 0) × NoneFits seen
  Holds seen best_height (some k) = (best : IsBest seen k) × (best.0.res_y ≡ best_height)

  is_better_iff :
      (best_height : ℕ) (info : Info)
      → (is_better height format best_height info ≡ true) ↔ (Fits info × (best_height < info.res_y))
  unfolding is_better
  is_better_iff best_height info = ground arith

  Holds-bound :
      (seen : List Info) (best_height : ℕ) (best : Option ℕ)
      → Holds seen best_height best
      → (j : ℕ) (other : Info) → get_elem? seen j ≡ some other
      → Fits other
      → other.res_y ≤ best_height
  Holds-bound seen best_height none h j other e f = absurd (h.1 j other e f)
  Holds-bound seen best_height (some k) ((info, at, fits, first), same) j other e f =
      omega (arith, first j other e f)

  Holds-better :
      (seen : List Info) (best_height : ℕ) (best : Option ℕ) (info : Info)
      → Holds seen best_height best
      → Fits info
      → best_height < info.res_y
      → Holds (seen ++ info ∷ []) info.res_y (some (length seen))
  Holds-better seen best_height best info h fits higher = (
    (
      info,
      get_elem?-last seen info,
      fits,
      λ j other e f. elim (get_elem?-snoc seen info j other e) [
        | inl old ↦ inl (omega (arith, Holds-bound seen best_height best h j other old f))
        | inr (last, same) ↦ inr (rw same refl, omega arith)
      ],
    ),
    refl,
  )

  Holds-keep :
      (seen : List Info) (best_height : ℕ) (best : Option ℕ) (info : Info)
      → Holds seen best_height best
      → (Fits info → info.res_y ≤ best_height)
      → Holds (seen ++ info ∷ []) best_height best
  Holds-keep seen best_height none info (zero_height, fits_none) low = (
    zero_height,
    λ j other e f. elim (get_elem?-snoc seen info j other e) [
      | inl old ↦ fits_none j other old f
      | inr (last, same) ↦ let f' : Fits info = rw (sym same) at f in omega (arith, low f')
    ],
  )
  Holds-keep seen best_height (some k) info ((info', at, fits, first), height_of) low = (
    (
      info',
      get_elem?-append seen (info ∷ []) k info' at,
      fits,
      λ j other e f. elim (get_elem?-snoc seen info j other e) [
        | inl old ↦ first j other old f
        | inr (last, same) ↦
            let f' : Fits info = rw (sym same) at f in
            let k_lt = get_elem?-lt seen k info' at in
            rw same at (low_or_later info info' k j height_of (low f') (omega arith))
      ],
    ),
    height_of,
  )
    where
      low_or_later :
          (one best : Info) (i j : ℕ)
          → best.res_y ≡ best_height
          → one.res_y ≤ best_height
          → i ≤ j
          → (one.res_y < best.res_y) ⊎ ((one.res_y ≡ best.res_y) × (i ≤ j))
      low_or_later one best i j e le ij = ground arith

  Holds-step :
      (seen : List Info) (best_height : ℕ) (best : Option ℕ) (info : Info)
      → Holds seen best_height best
      → let better = is_better height format best_height info in
        Holds
          (seen ++ info ∷ [])
          (if better then info.res_y else best_height)
          (if better then some (length seen) else best)
  Holds-step seen best_height best info h =
      elim (Bool-cases (is_better height format best_height info)) [
        | inl yes_better ↦
            let (fits, higher) = (is_better_iff best_height info).0 yes_better in
            rw yes_better (Holds-better seen best_height best info h fits higher)
        | inr no_better ↦
            rw no_better (Holds-keep seen best_height best info h (not_better no_better))
      ]
    where
      not_better :
          is_better height format best_height info ≡ false → Fits info → info.res_y ≤ best_height
      not_better e f = ground (arith, is_better_iff best_height info)

  best_from-Holds :
      (infos seen : List Info) (best_height : ℕ) (best : Option ℕ)
      → Holds seen best_height best
      → (last : ℕ) × Holds
          (seen ++ infos)
          last
          (best_from height format (length seen) best_height best infos)
  unfolding best_from
  best_from-Holds [] seen best_height best h = (best_height, rw append-nil h)
  best_from-Holds (info ∷ infos) seen best_height best h =
      let next : length (seen ++ info ∷ []) ≡ length seen + 1 =
        omega (arith, length-append {0} seen (info ∷ [])) in
      rw (← next, ← append_assoc seen (info ∷ []) infos)
        (best_from-Holds infos (seen ++ info ∷ []) _ _ (Holds-step seen best_height best info h))

  IsBest-unique : (infos : List Info) (i j : ℕ) → IsBest infos i → IsBest infos j → i ≡ j
  IsBest-unique infos i j (a, at_a, fits_a, first_a) (b, at_b, fits_b, first_b) =
      omega (arith, first_a j b at_b fits_b, first_b i a at_a fits_a)

  -- The loop of `ConfigureCamera` finds a profile exactly if it is the best one: it has the format
  -- and a height of at least 1 and at most the limit, no other such profile is higher, and it is
  -- the first of that height, whatever its frames per second.
  pub best_from_iff :
      (infos : List Info) (k : ℕ)
      → (best_from height format 0 0 none infos ≡ some k) ↔ IsBest infos k
  best_from_iff infos k = (
    λ e. (rw e at holds).0,
    λ best. elim (Option-cases found) [
      | inl e ↦ absurd ((rw e at holds).1 k best.0 best.1 best.2)
      | inr (k', e) ↦ e ∙ ap some (IsBest-unique infos k' k (rw e at holds).0 best)
    ],
  )
    where
      found : Option ℕ
      found = best_from height format 0 0 none infos

      all_seen : (last : ℕ) × Holds infos last found
      all_seen = best_from-Holds infos [] 0 none (refl, λ j other e. cc)

      holds : Holds infos all_seen.0 found
      holds = all_seen.1
