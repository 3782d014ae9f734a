-- ===== src/Hasher/Digest.antt =====
-- The class `Digest` and `PrintMessageDigest` (boringssl/hasher/src/main.cpp) over BoringSSL.
pub mod Printing
use kos_ce_extra.Prelude.{
  ℕ, ◌+◌, ◌-◌, ◌/◌, ◌%◌, Bool, Option, none, some, List, [], ◌∷◌, ◌++◌, replicate, Text, codes, ltb,
  if◌then◌else◌,
}

-- `EVP_get_digestbyname`, `EVP_MD_CTX_new` (which finds memory), `EVP_DigestInit_ex`, where `none`
-- is a failure, `EVP_DigestUpdate`, and the bytes that `EVP_DigestFinal_ex` gives. `C` is a context.
pub record Library (C : Type 0) : Type 0 where
  pub known : Text → Bool
  pub new_context : C
  pub digest_init : Text → C → Option C
  pub digest_update : List ℕ → C → C
  pub digest_final : C → List ℕ

pub record Digest (C : Type 0) : Type 0 where
  pub name : Text
  pub context : Option C
  pub value : List ℕ

-- What the constructor leaves: the text of an exception, or the object.
pub data Made (C : Type 0) : Type 0 where
  throws : Text → Made C
  made : Digest C → Made C

abbrev pub max_md_size : ℕ
max_md_size = 64

-- The two columns of a byte under `setfill('0')`, `setw(2)` and `hex`.
unfoldable pub hex_digit : ℕ → ℕ
hex_digit d = if ltb d 10 then b'0' + d else b'a' + (d - 10)

unfoldable pub show_bytes : List ℕ → Text
unfolding hex_digit
show_bytes [] = []
show_bytes (v ∷ vect) = hex_digit (v / 16) ∷ hex_digit (v % 16) ∷ show_bytes vect

unfoldable pub show_parts : List Text → Text
show_parts [] = []
show_parts (part ∷ parts) = codes "[" ++ (part ++ (codes "]" ++ show_parts parts))

-- What `PrintMessageDigest` prints.
pub data Printed : Type 0 where
  error_line : Text → Printed
  digest_lines : Text → Text → Printed

module _ {C : Type 0} (lib : Library C) where
  unfoldable pub make_digest : Text → Made C
  make_digest name =
      if lib.known name
      then (elim (lib.digest_init name lib.new_context) [
        | none ↦ throws (codes "Digest initialization failed")
        | some c ↦ made (record { name = name; context = some c; value = replicate max_md_size 0 })
      ])
      else throws (codes "Unknown message digest" ++ name)

  unfoldable pub update : List ℕ → Digest C → Digest C
  update [] d = d
  update (x ∷ bytes) d = elim d.context [
    | none ↦ d
    | some c ↦ record d { context = some (lib.digest_update (x ∷ bytes) c) }
  ]

  -- Both `operator<<`.
  unfoldable pub shift : Text → Digest C → Digest C
  unfolding update
  shift [] d = d
  shift (x ∷ bytes) d = elim d.context [ none ↦ d | some c ↦ update (x ∷ bytes) d ]

  unfoldable pub shift_all : List Text → Digest C → Digest C
  unfolding shift
  shift_all [] d = d
  shift_all (part ∷ parts) d = shift_all parts (shift part d)

  unfoldable pub get : Digest C → List ℕ × Digest C
  get d = elim d.context [
    | none ↦ (d.value, d)
    | some c ↦ (lib.digest_final c, record d { context = none; value = lib.digest_final c })
  ]

  unfoldable pub print_message_digest : Text → List Text → Printed
  unfolding make_digest shift_all get show_parts show_bytes
  print_message_digest algorithm parts = elim (make_digest algorithm) [
    | throws what ↦ error_line (codes "Error occurred :" ++ what)
    | made d ↦
        let digest = shift_all parts d in
        digest_lines (codes "Message parts: " ++ show_parts parts) (
          codes "Message digest obtain with "
          ++ (digest.name ++ (codes " algorithm is: " ++ show_bytes (get digest).0)))
  ]
