-- ===== src/Rabbitmq/Tests.antt =====
-- Runs of the dump, and the theorems at concrete inputs.
use kos_ce_extra.Prelude.{
  ℕ, ◌<◌, ◌≡◌, refl, ◌≢◌, false, List, [], ◌∷◌, ◌++◌, some, Text, codes, arith, replicate,
  if◌then◌else◌, ltb,
}
use kos_ce_extra.Rabbitmq.Dump.{dump_row, amqp_dump, dump_loop, take_byte, hex}
use kos_ce_extra.Rabbitmq.Dump.Refinement.{
  flat, dump_spec, plain_spec, amqp_dump-eq-spec, amqp_dump-repeated_rows,
}
use kos_ce_extra.Rabbitmq.Errors.{Status, success, failure}
use kos_ce_extra.Rabbitmq.Client.{Envelope}

one_row :
    amqp_dump (codes "ab")
    ≡ codes "000000006162                   :                          ab"
      ++ 10 ∷ codes "00000002"
      ++ 10 ∷ []
unfolding amqp_dump dump_loop take_byte dump_row hex
one_row = refl

abbrev letters : List ℕ
letters = codes "bcdefghijklmnop"

abbrev letter_rows : List (ℕ × List ℕ)
letter_rows = (b'a', letters) ∷ (b'a', letters) ∷ (b'a', letters) ∷ []

amqp_dump-eq-spec_example :
    amqp_dump (flat ((0, replicate 15 0) ∷ letter_rows) (1 ∷ []))
    ≡ dump_spec 0 0 false ((0, replicate 15 0) ∷ letter_rows) (1 ∷ [])
amqp_dump-eq-spec_example =
    amqp_dump-eq-spec ((0, replicate 15 0) ∷ letter_rows) 1 [] (omega arith) (omega arith)

letters-ne-zeros : letters ≢ replicate 15 0
letters-ne-zeros e = ground arith

amqp_dump-repeated_rows_example :
    amqp_dump (flat letter_rows (1 ∷ [])) ≡ plain_spec 0 letter_rows (1 ∷ [])
amqp_dump-repeated_rows_example =
    amqp_dump-repeated_rows letter_rows 1 [] (omega arith) (omega arith)
      (letters-ne-zeros, (letters-ne-zeros, (letters-ne-zeros, tt)))

abbrev describe : Status → Text
describe e = codes "socket error"

abbrev always : ℕ → Status
always i = success 0

abbrev third_fails : ℕ → Status
third_fails i = if ltb i 2 then success 0 else failure 8

first_two : (j : ℕ) → j < 2 → (n : ℕ) × (third_fails j ≡ success n)
first_two j h = (0, ground arith)

abbrev letter : Envelope
letter = record {
  delivery_tag = 1;
  exchange = codes "amq.direct";
  routing_key = codes "test";
  content_type = some (codes "text/plain");
  body = codes "x";
}
