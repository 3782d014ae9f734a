-- ===== src/CAres/Resolver/Lists.antt =====
-- Facts of the list of requests and of lists of ids.
use kos_ce_extra.Prelude.{
  ℕ, ◌+◌, ◌<◌, ◌≡◌, refl, ◌≢◌, ◌==◌, Bool, true, false, List, [], ◌∷◌, ◌++◌, none, some, arith,
  if◌then◌else◌, Text, All, All-append, All-split, not, sym,
}
use kos_ce_extra.CAres.Resolver.{Request, find_request, take_callback, is_null, remove_answered}

-- The request is on the list with its callback.
abbrev pub is_live : ℕ → List Request → Bool
is_live id qs = elim (find_request id qs) [ none ↦ false | some q ↦ not (is_null q.callback) ]

pub is_live-append :
    (id : ℕ) (qs rs : List Request) → is_live id qs ≡ true → is_live id (qs ++ rs) ≡ true
unfolding find_request
is_live-append id [] rs h = cc
is_live-append id (p ∷ qs) rs h = ground (arith, is_live-append id qs rs)

pub is_live-remove_answered :
    (id : ℕ) (qs : List Request) → is_live id qs ≡ true → is_live id (remove_answered qs) ≡ true
unfolding find_request remove_answered
is_live-remove_answered id [] h = h
is_live-remove_answered id (p ∷ qs) h = ground (arith, is_live-remove_answered id qs)

pub is_live-take_callback :
    (id j : ℕ) (qs : List Request)
    → j ≢ id
    → is_live j qs ≡ true
    → is_live j (take_callback id qs) ≡ true
unfolding find_request take_callback
is_live-take_callback id j [] ne h = h
is_live-take_callback id j (p ∷ qs) ne h = ground (arith, is_live-take_callback id j qs)

abbrev pub AreBelow : ℕ → List Request → Type 0
AreBelow n = All (λ (q : Request). q.id < n)

pub is_live-new :
    (id c : ℕ) (name : Text) (qs : List Request)
    → AreBelow id qs
    → is_live id (qs ++ record { id = id; host_name = name; callback = some c } ∷ []) ≡ true
unfolding find_request
is_live-new id c name [] h = ground arith
is_live-new id c name (p ∷ qs) (h, hs) = ground (arith, is_live-new id c name qs hs)

pub AreBelow-suc : (n : ℕ) (qs : List Request) → AreBelow n qs → AreBelow (n + 1) qs
AreBelow-suc n [] h = tt
AreBelow-suc n (p ∷ qs) (h, hs) = (omega arith, AreBelow-suc n qs hs)

pub AreBelow-remove_answered :
    (n : ℕ) (qs : List Request) → AreBelow n qs → AreBelow n (remove_answered qs)
unfolding remove_answered
AreBelow-remove_answered n [] h = tt
AreBelow-remove_answered n (p ∷ qs) (h, hs) = ground (arith, AreBelow-remove_answered n qs hs)

pub AreBelow-take_callback :
    (n id : ℕ) (qs : List Request) → AreBelow n qs → AreBelow n (take_callback id qs)
unfolding take_callback
AreBelow-take_callback n id [] h = tt
AreBelow-take_callback n id (p ∷ qs) (h, hs) = ground (arith, AreBelow-take_callback n id qs hs)

-- No number is in the list twice.
abbrev pub Distinct : List ℕ → Type 0
Distinct [] = Unit
Distinct (x ∷ xs) = All (λ y. y ≢ x) xs × Distinct xs

pub Distinct-split :
    (xs : List ℕ) (y : ℕ) (ys : List ℕ)
    → Distinct (xs ++ y ∷ ys)
    → All (λ j. j ≢ y) (xs ++ ys) × Distinct (xs ++ ys)
Distinct-split [] y ys h = h
Distinct-split (x ∷ xs) y ys (h, hs) =
    let (k, ks) = All-split (λ z. z ≢ x) xs y ys h in
    let (l, ls) = Distinct-split xs y ys hs in ((λ e. k (sym e), l), (ks, ls))

pub All-lt_ne : (n : ℕ) (xs : List ℕ) → All (λ x. x < n) xs → All (λ x. n ≢ x) xs
All-lt_ne n [] h = tt
All-lt_ne n (x ∷ xs) (h, hs) = (omega arith, All-lt_ne n xs hs)

pub Distinct-snoc :
    (xs : List ℕ) (n : ℕ) → Distinct xs → All (λ x. n ≢ x) xs → Distinct (xs ++ n ∷ [])
Distinct-snoc [] n h k = (tt, tt)
Distinct-snoc (x ∷ xs) n (h, hs) (k, ks) =
    (All-append (λ y. y ≢ x) xs (n ∷ []) h (k, tt), Distinct-snoc xs n hs ks)

pub find_request-take_callback :
    (id : ℕ) (qs : List Request) (q : Request)
    → find_request id qs ≡ some q
    → find_request id (take_callback id qs) ≡ some (record q { callback = none })
unfolding find_request take_callback
find_request-take_callback id [] q e = cc
find_request-take_callback id (p ∷ qs) q e = ground (arith, find_request-take_callback id qs q)

-- How often the id is in the list.
abbrev pub count : ℕ → List ℕ → ℕ
count id [] = 0
count id (x ∷ xs) = (if x == id then 1 else 0) + count id xs

pub count-append : (id : ℕ) (xs ys : List ℕ) → count id (xs ++ ys) ≡ count id xs + count id ys
count-append id [] ys = omega arith
count-append id (x ∷ xs) ys = omega (arith, count-append id xs ys)

pub count-fresh : (id : ℕ) (xs : List ℕ) → All (λ x. x < id) xs → count id xs ≡ 0
count-fresh id [] h = refl
count-fresh id (x ∷ xs) (h, hs) = ground (arith, count-fresh id xs hs)
