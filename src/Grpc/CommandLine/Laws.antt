-- ===== src/Grpc/CommandLine/Laws.antt =====
-- Which command lines the server and the client accept.
use kos_ce_extra.Prelude.{
  ℕ, suc, Bool, true, false, some, List, [], ◌∷◌, ◌++◌, map, length, length-append, get_elem?, drop,
  Text, ◌==◌, Bool-cases, inl, inr, ◌⊎◌, ◌↔◌, ◌≢◌, ◌≡◌, refl, ◌∙◌, append-nil, arith,
}
use mathlib.Core.Path.{subst, ap₂}
use kos_ce_extra.Grpc.CommandLine.{
  Attempt, accepted, rejected, threw, starts_with, is_separator_at, try_parse_flag, try_parse_value,
  Options, Parsed, options, runtime_error, arg_secure, arg_target, parse_client_args,
}

starts_with-append : (name rest : Text) → starts_with name (name ++ rest) ≡ true
unfolding starts_with
starts_with-append [] rest = refl
starts_with-append (c ∷ name) rest = ground (arith, starts_with-append name rest)

-- A text does not begin with a name, is the name, or goes on behind it.
prefix_cases :
    (name text : Text)
    → (starts_with name text ≡ false)
      ⊎ ((text ≡ name) ⊎ ((c : ℕ) × (rest : Text) × (text ≡ name ++ c ∷ rest)))
unfolding starts_with
prefix_cases [] [] = inr (inl refl)
prefix_cases [] (c ∷ text) = inr (inr (c, text, refl))
prefix_cases (c ∷ name) [] = inl refl
prefix_cases (c ∷ name) (d ∷ text) = elim (Bool-cases (c == d)) [
  | inr differ ↦ inl (rw differ)
  | inl same ↦ elim (prefix_cases name text) [
    | inl other ↦ inl (rw same other)
    | inr (inl e) ↦ inr (inl (ground (arith, same, e)))
    | inr (inr (b, rest, e)) ↦ inr (inr (b, rest, ground (arith, same, e)))
  ]
]

get_elem?-append :
    (name : Text) (c : ℕ) (rest : Text) → get_elem? (name ++ c ∷ rest) (length name) ≡ some c
get_elem?-append [] c rest = refl
get_elem?-append (d ∷ name) c rest = get_elem?-append name c rest

drop-append :
    (name : Text) (c : ℕ) (rest : Text) → drop (suc (length name)) (name ++ c ∷ rest) ≡ rest
drop-append [] c rest = refl
drop-append (d ∷ name) c rest = drop-append name c rest

-- An argument as the two programs mean it.
pub data Arg : Type 0 where
  secure : Arg
  target : Text → Arg

pub render : Arg → Text
render secure = arg_secure
render (target v) = arg_target ++ b'=' ∷ v

pub apply : Arg → Options → Options
apply secure o = record o { use_secure_connection = true }
apply (target v) o = record o { target_endpoint = v }

pub apply_all : List Arg → Options → Options
apply_all [] o = o
apply_all (a ∷ rest) o = apply_all rest (apply a o)

pub Attempt-cases {ℓ} :
    {A : Type ℓ} (m : Attempt A)
    → ((a : A) × (m ≡ accepted a)) ⊎ (((e : Text) × (m ≡ threw e)) ⊎ (m ≡ rejected))
Attempt-cases (accepted a) = inl (a, refl)
Attempt-cases (threw e) = inr (inl (e, refl))
Attempt-cases rejected = inr (inr refl)

pub Parsed-cases :
    (p : Parsed) → ((o : Options) × (p ≡ options o)) ⊎ ((e : Text) × (p ≡ runtime_error e))
Parsed-cases (options o) = inl (o, refl)
Parsed-cases (runtime_error e) = inr (e, refl)

longer : (name : Text) (c : ℕ) (rest : Text) → (length (name ++ c ∷ rest) == length name) ≡ false
longer name c rest = ground (arith, length-append name (c ∷ rest))

pub flag_whole : (name : Text) → try_parse_flag name name ≡ accepted true
unfolding try_parse_flag
flag_whole name =
    let begins : starts_with name name ≡ true =
      subst (λ t. starts_with name t ≡ true) (append-nil name) (starts_with-append name []) in
    rw begins (ground arith)

flag_longer :
    (name : Text) (c : ℕ) (rest : Text) (v : Bool)
    → try_parse_flag name (name ++ c ∷ rest) ≢ accepted v
unfolding try_parse_flag
flag_longer name c rest v =
    rw (starts_with-append name (c ∷ rest), longer name c rest) (λ h. ground arith)

flag_other :
    (name text : Text) → starts_with name text ≡ false → try_parse_flag name text ≡ rejected
unfolding try_parse_flag
flag_other name text h = rw h

pub flag_accepts :
    (name text : Text) (v : Bool)
    → try_parse_flag name text ≡ accepted v
    → (text ≡ name) × (v ≡ true)
flag_accepts name text v h = elim (prefix_cases name text) [
  | inl other ↦ cc (flag_other name text other)
  | inr (inl e) ↦ (e, cc (flag_whole name, rw e at h))
  | inr (inr (c, rest, e)) ↦ absurd (flag_longer name c rest v (rw e at h))
]

is_separator_at-append :
    (name : Text) (c : ℕ) (rest : Text)
    → is_separator_at (length name) (name ++ c ∷ rest) ≡ (c == b'=')
unfolding is_separator_at
is_separator_at-append name c rest = rw (is_separator_at, get_elem?-append name c rest)

value_lem : (name v : Text) → try_parse_value name (name ++ b'=' ∷ v) ≡ accepted v
unfolding try_parse_value
value_lem name v = rw (
  starts_with-append name (b'=' ∷ v),
  longer name b'=' v,
  is_separator_at-append name b'=' v,
  drop-append name b'=' v,
)

value_whole : (name : Text) (v : Text) → try_parse_value name name ≢ accepted v
unfolding try_parse_value
value_whole name v =
    let begins : starts_with name name ≡ true =
      subst (λ t. starts_with name t ≡ true) (append-nil name) (starts_with-append name []) in
    rw begins (λ h. ground arith)

value_longer :
    (name : Text) (c : ℕ) (rest v : Text)
    → try_parse_value name (name ++ c ∷ rest) ≡ accepted v
    → (c ≡ b'=') × (rest ≡ v)
unfolding try_parse_value
value_longer name c rest v h = ground (
  arith,
  starts_with-append name (c ∷ rest),
  longer name c rest,
  is_separator_at-append name c rest,
  drop-append name c rest,
)

value_other :
    (name text : Text) → starts_with name text ≡ false → try_parse_value name text ≡ rejected
unfolding try_parse_value
value_other name text h = rw h

value_accepts :
    (name text v : Text) → try_parse_value name text ≡ accepted v → text ≡ name ++ b'=' ∷ v
value_accepts name text v h = elim (prefix_cases name text) [
  | inl other ↦ cc (value_other name text other)
  | inr (inl e) ↦ absurd (value_whole name v (rw e at h))
  | inr (inr (c, rest, e)) ↦
      let (is_separator, same) = value_longer name c rest v (rw e at h) in
      e ∙ rw (is_separator, same)
]

client_reads :
    (meant : List Arg) (o : Options)
    → parse_client_args (map render meant) o ≡ options (apply_all meant o)
unfolding parse_client_args apply_all render apply
client_reads [] o = refl
client_reads (secure ∷ meant) o =
    rw (parse_client_args, flag_whole arg_secure)
      (client_reads meant (record o { use_secure_connection = true }))
client_reads (target v ∷ meant) o =
    rw
      (
        parse_client_args,
        flag_other arg_secure (arg_target ++ b'=' ∷ v) (unfold starts_with in refl),
        value_lem arg_target v,
      )
      (client_reads meant (record o { target_endpoint = v }))

client_accepts :
    (args : List Text) (o r : Options)
    → parse_client_args args o ≡ options r
    → (meant : List Arg) × (args ≡ map render meant) × (r ≡ apply_all meant o)
unfolding parse_client_args apply_all apply render
client_accepts [] o r h = ([], refl, cc)
client_accepts (arg ∷ args) o r h = elim (Attempt-cases (try_parse_flag arg_secure arg)) [
  | inl (v, e) ↦
      let (same, is_true) = flag_accepts arg_secure arg v e in
      let (meant, es, rs) =
        client_accepts args (record o { use_secure_connection = true }) r
          (rw (parse_client_args, e, is_true) at h) in
      (secure ∷ meant, ap₂ (λ (t : Text) (l : List Text). t ∷ l) same es, rs)
  | inr (inl (t, e)) ↦ cc (rw (parse_client_args, e) at h)
  | inr (inr e) ↦ elim (Attempt-cases (try_parse_value arg_target arg)) [
    | inl (v, e') ↦
        let same = value_accepts arg_target arg v e' in
        let (meant, es, rs) =
          client_accepts args (record o { target_endpoint = v }) r
            (rw (parse_client_args, e, e') at h) in
        (target v ∷ meant, ap₂ (λ (t : Text) (l : List Text). t ∷ l) same es, rs)
    | inr (inl (t, e')) ↦ cc (rw (parse_client_args, e, e') at h)
    | inr (inr e') ↦ cc (rw (parse_client_args, e, e') at h)
  ]
]

-- Every list of arguments of the client that `main` accepts is one of `--secure` and
-- `--target=<endpoint>`, in any order and number, and every such list is accepted: the connection
-- is secure if `--secure` is among them, and the last `--target` counts.
pub parse_client_args_iff :
    (args : List Text) (o r : Options)
    → (parse_client_args args o ≡ options r)
      ↔ ((meant : List Arg) × (args ≡ map render meant) × (r ≡ apply_all meant o))
parse_client_args_iff args o r =
    (client_accepts args o r, λ (meant, e, s). rw (e, s) (client_reads meant o))
