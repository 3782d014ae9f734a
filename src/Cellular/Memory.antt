-- ===== src/Cellular/Memory.antt =====
-- What the C code of examples/cellular/mbim_sms does with its buffer: writes through a pointer,
-- which are refused where they leave the buffer.
use kos_ce_extra.Prelude.{ℕ, zero, suc, List, [], ◌∷◌, ◌++◌, ◌≡◌, refl}

-- A C function that returns, that returns -1, or that writes outside its buffer.
pub data Outcome {ℓ} (A : Type ℓ) : Type ℓ where
  done : A → Outcome A
  failed : Outcome A
  overrun : Outcome A

infixl 5 ◌>>=◌
abbrev pub ◌>>=◌ {ℓ κ} : {A : Type ℓ} {B : Type κ} → Outcome A → (A → Outcome B) → Outcome B
done a >>= f = f a
failed >>= f = failed
overrun >>= f = overrun

pub >>=-assoc {ℓ κ μ} :
    {A : Type ℓ} {B : Type κ} {C : Type μ} (m : Outcome A) (f : A → Outcome B) (g : B → Outcome C)
    → (m >>= f >>= g) ≡ (m >>= λ a. f a >>= g)
>>=-assoc (done a) f g = refl
>>=-assoc failed f g = refl
>>=-assoc overrun f g = refl

-- `p[k] = f(p[k])`.
unfoldable pub modify : ℕ → (ℕ → ℕ) → List ℕ → Outcome (List ℕ)
modify k f [] = overrun
modify zero f (b ∷ p) = done (f b ∷ p)
modify (suc k) f (b ∷ p) = modify k f p >>= λ p'. done (b ∷ p')

-- A pointer into a buffer: the bytes before it, and those from it on.
pub record Pointer : Type 0 where
  pub written : List ℕ
  pub rest : List ℕ

-- `*p++ = v`.
unfoldable pub push : ℕ → Pointer → Outcome Pointer
unfolding modify
push v p = elim p.rest [
  | [] ↦ overrun
  | b ∷ rest ↦ done (record { written = p.written ++ v ∷ []; rest = rest })
]

-- `p += n`: past the end of the buffer there is no such pointer.
unfoldable pub advance_by : ℕ → List ℕ → List ℕ → Outcome Pointer
advance_by zero written rest = done (record { written = written; rest = rest })
advance_by (suc n) written [] = overrun
advance_by (suc n) written (b ∷ rest) = advance_by n (written ++ b ∷ []) rest

unfoldable pub advance : ℕ → Pointer → Outcome Pointer
unfolding advance_by
advance n p = advance_by n p.written p.rest
