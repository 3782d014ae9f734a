-- ===== src/Sequence/Tests.antt =====
-- The rounds of the writer at concrete inputs.
use kos_ce_extra.Prelude.{none, some, [], ◌∷◌, codes, ◌≡◌, refl, get_elem?, arith}
use kos_ce_extra.Sequence.Writer.{iota, make_seq, show_items, show_seq, expected, example_rounds}
use kos_ce_extra.Sequence.Writer.Rounds.{example_rounds_lem}
use kos_ce_extra.Prelude.Decimal.{decimal}

make_seq-3 : make_seq 3 1 ≡ 1 ∷ 2 ∷ 3 ∷ []
unfolding make_seq iota
make_seq-3 = refl

show_seq-3 : show_seq (1 ∷ 2 ∷ 3 ∷ []) ≡ codes "[1, 2, 3]"
unfolding show_seq show_items decimal
show_seq-3 = refl

example_rounds_lem_example :
    get_elem? (example_rounds (codes "Security") (λ seq. none) 12 1) 8 ≡ some (expected ∷ [])
example_rounds_lem_example =
    example_rounds_lem (codes "Security") (λ seq. none) (λ seq h. refl) 12 8 (omega arith)
