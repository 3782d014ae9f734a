-- ===== src/CAres/Address/RoundTrip.antt =====
-- What can be read back from the text of an address.
use kos_ce_extra.Prelude.{
  ℕ, ◌<◌, ◌≡◌, refl, Bool, true, false, List, [], ◌∷◌, ◌++◌, if◌then◌else◌, Text, arith, ap, ◌∙◌,
  ◌==◌, All, Lacks, append_assoc, append-nil, Lacks-split, Lacks-append, ◌↔◌,
}
use mathlib.Core.Path.{ap₂}
use kos_ce_extra.Prelude.Decimal.{number, number-decimal, decimal-Lacks}
use kos_ce_extra.CAres.Address.{char_text, dotted, pop_back, address}

-- The parts of a text between the dots.
abbrev pub parts_from : Text → Text → List Text
parts_from part [] = part ∷ []
parts_from part (x ∷ s) =
    let closed = part ∷ parts_from [] s in
    let longer = parts_from (part ++ x ∷ []) s in if x == b'.' then closed else longer

abbrev pub parts : Text → List Text
parts s = parts_from [] s

abbrev pub numbers : List Text → List ℕ
numbers [] = []
numbers (s ∷ rest) = number s ∷ numbers rest

parts-part :
    (part s rest : Text)
    → Lacks b'.' s
    → parts_from part (s ++ b'.' ∷ rest) ≡ (part ++ s) ∷ parts_from [] rest
parts-part part [] rest h = rw (append-nil)
parts-part part (x ∷ s) rest (p, h) =
    let ih = parts-part (part ++ x ∷ []) s rest h in
    let regroup = append_assoc part (x ∷ []) s in ground arith

pop_back-append : (s : Text) (x : ℕ) (t : Text) → pop_back (s ++ x ∷ t) ≡ s ++ pop_back (x ∷ t)
unfolding pop_back
pop_back-append [] x t = refl
pop_back-append (y ∷ []) x t = refl
pop_back-append (y ∷ z ∷ s) x t = ap (λ r. y ∷ r) (pop_back-append (z ∷ s) x t)

parts-last : (part s : Text) → Lacks b'.' s → parts_from part s ≡ (part ++ s) ∷ []
parts-last part [] h = rw append-nil
parts-last part (x ∷ s) (p, h) =
    let ih = parts-last (part ++ x ∷ []) s h in
    let regroup = append_assoc part (x ∷ []) s in ground arith

abbrev AreBytes : List ℕ → Type 0
AreBytes = All (λ b. b < 256)

char_text-Lacks : (b : ℕ) → Lacks b'.' (char_text false b)
unfolding char_text
char_text-Lacks b = decimal-Lacks b b'.' (omega arith)

number-char_text : (b : ℕ) → b < 256 → number (char_text false b) ≡ b
unfolding char_text
number-char_text b h = number-decimal b (omega arith)

dotted-cons : (c : Bool) (b : ℕ) (bs : List ℕ) → (x : ℕ) × (s : Text) × (dotted c (b ∷ bs) ≡ x ∷ s)
unfolding dotted
dotted-cons c b bs = head_of (char_text c b) b'.' (dotted c bs) refl
  where
    head_of :
        (s : Text) (d : ℕ) (t : Text)
        → dotted c (b ∷ bs) ≡ s ++ d ∷ t
        → (x : ℕ) × (r : Text) × (dotted c (b ∷ bs) ≡ x ∷ r)
    head_of [] d t e = (d, t, e)
    head_of (y ∷ s) d t e = (y, s ++ d ∷ t, e)

pop_back-dotted :
    (c : Bool) (d b : ℕ) (bs : List ℕ)
    → pop_back (d ∷ dotted c (b ∷ bs)) ≡ d ∷ pop_back (dotted c (b ∷ bs))
unfolding pop_back
pop_back-dotted c d b bs = let (x, s, e) = dotted-cons c b bs in rw e refl

-- The octets are joined by dots.
address-cons :
    (c : Bool) (b b' : ℕ) (bs : List ℕ)
    → address c (b ∷ b' ∷ bs) ≡ char_text c b ++ b'.' ∷ address c (b' ∷ bs)
unfolding address dotted pop_back
address-cons c b b' bs =
    pop_back-append (char_text c b) b'.' (dotted c (b' ∷ bs))
    ∙ ap (λ t. char_text c b ++ t) (pop_back-dotted c b'.' b' bs)

address-one : (c : Bool) (b : ℕ) → address c (b ∷ []) ≡ char_text c b
unfolding address dotted pop_back
address-one c b = pop_back-append (char_text c b) b'.' [] ∙ append-nil (char_text c b)

numbers-address :
    (b : ℕ) (bs : List ℕ) → AreBytes (b ∷ bs) → numbers (parts (address false (b ∷ bs))) ≡ b ∷ bs
numbers-address b [] (h, _) =
    rw (address-one false b, parts-last [] (char_text false b) (char_text-Lacks b))
      (ap (λ n. n ∷ []) (number-char_text b h))
numbers-address b (b' ∷ bs) (h, hs) =
    let ih = numbers-address b' bs hs in
    rw
      (
        address-cons false b b' bs,
        parts-part [] (char_text false b) (address false (b' ∷ bs)) (char_text-Lacks b),
      )
      (ap₂ ◌∷◌ (number-char_text b h) ih)

-- Where `char` is unsigned, the address of a resolved host reads back as its octets, in order:
-- decimal numbers between dots.
pub numbers-parts-address :
    (a b c d : ℕ)
    → a < 256
    → b < 256
    → c < 256
    → d < 256
    → numbers (parts (address false (a ∷ b ∷ c ∷ d ∷ []))) ≡ a ∷ b ∷ c ∷ d ∷ []
numbers-parts-address a b c d ha hb hc hd =
    numbers-address a (b ∷ c ∷ d ∷ []) (ha, (hb, (hc, (hd, tt))))

char_text-minus : (b : ℕ) → Lacks b'-' (char_text true b) ↔ (b < 128)
unfolding char_text
char_text-minus b = ground (arith, decimal-Lacks b b'-')

-- Where `char` is signed, the address has a minus sign exactly when an octet is 128 or more.
address-minus_iff :
    (b : ℕ) (bs : List ℕ) → Lacks b'-' (address true (b ∷ bs)) ↔ All (λ n. n < 128) (b ∷ bs)
address-minus_iff b [] =
    let (to, from) = char_text-minus b in rw (address-one true b) (λ h. (to h, tt), λ h. from h.0)
address-minus_iff b (b' ∷ bs) =
    let (to, from) = char_text-minus b in
    let (to', from') = address-minus_iff b' bs in
    rw (address-cons true b b' bs) (
      λ h.
          let (here, later) =
            Lacks-split b'-' (char_text true b) (b'.' ∷ address true (b' ∷ bs)) h in
          (to here, to' later.1),
      λ h.
          Lacks-append b'-' (char_text true b) (b'.' ∷ address true (b' ∷ bs)) (from h.0)
            (omega arith, from' h.1),
    )
