-- ===== src/Uvc/Jpeg/Total.antt =====
-- `GetJpegSize` on any buffer: it ends, and reads only what is there.
use kos_ce_extra.Prelude.{
  ℕ, zero, suc, ◌+◌, ◌-◌, ◌*◌, ◌≤◌, ◌<◌, some, List, [], ◌∷◌, length, get_elem?, ltb, leb, ◌==◌,
  ==_iff, ltb→lt, Bool-cases, ◌⊎◌, inl, inr, ◌≡◌, refl, arith,
}
use kos_ce_extra.Uvc.Jpeg.{
  ended, jpeg_padding, jpeg_eoi, jpeg_sos, is_alone, is_scanned, read, read_be16, skip_scan,
  jpeg_loop, get_jpeg_size,
}

get_elem?-some : (jpeg : List ℕ) (i : ℕ) → i < length jpeg → (b : ℕ) × (get_elem? jpeg i ≡ some b)
get_elem?-some [] i h = absurd (omega (arith, h))
get_elem?-some (x ∷ jpeg) zero h = (x, refl)
get_elem?-some (x ∷ jpeg) (suc i) h = get_elem?-some jpeg i (omega arith)

-- A read inside the buffer.
reads : (jpeg : List ℕ) (i : ℕ) → i < length jpeg → (b : ℕ) × (read jpeg i ≡ ended b)
unfolding read
reads jpeg i h = let (b, e) = get_elem?-some jpeg i h in (b, rw (read, e) refl)

skip_scan_total :
    (fuel : ℕ) (jpeg : List ℕ) (i : ℕ)
    → i ≤ length jpeg
    → 0 < length jpeg
    → length jpeg < fuel + i
    → (j : ℕ) × (skip_scan fuel jpeg (length jpeg) i ≡ ended j) × (i ≤ j) × (j ≤ length jpeg)
unfolding skip_scan
skip_scan_total zero jpeg i h some_byte enough = absurd (omega arith)
skip_scan_total (suc fuel) jpeg i h some_byte enough = elim (Bool-cases (ltb i (length jpeg - 1))) [
  | inr e ↦ (i, rw (skip_scan, e) refl, omega arith, h)
  | inl e ↦
      let (b, read_b) = reads jpeg i (omega (arith, ltb→lt i (length jpeg - 1) e)) in
      let (marker, read_marker) =
        reads jpeg (i + 1) (omega (arith, ltb→lt i (length jpeg - 1) e)) in
      let (j, again, le, bound) =
        skip_scan_total fuel jpeg (i + 1) (omega (arith, ltb→lt i (length jpeg - 1) e)) some_byte
          (omega arith) in
      elim (Bool-cases (b == jpeg_padding)) [
        | inr plain ↦ (j, rw (skip_scan, e, read_b, plain) again, omega arith, bound)
        | inl padding ↦ elim (Bool-cases (is_scanned marker)) [
          | inl scanned ↦ (
            j,
            rw (skip_scan, e, read_b, padding, read_marker, scanned) again,
            omega arith,
            bound,
          )
          | inr other ↦ (
            i + 1,
            rw (skip_scan, e, read_b, padding, read_marker, other) refl,
            omega arith,
            omega (arith, ltb→lt i (length jpeg - 1) e),
          )
        ]
      ]
]

-- A size that is 0, or that of a part of the buffer that ends with the last marker of a picture.
abbrev pub IsSize : List ℕ → ℕ → Type 0
IsSize jpeg n =
    (n ≡ 0) ⊎ ((k : ℕ) × (n ≡ k + 1) × (k < length jpeg) × (get_elem? jpeg k ≡ some jpeg_eoi))

reads_be16 : (jpeg : List ℕ) (i : ℕ) → i + 1 < length jpeg → (n : ℕ) × (read_be16 jpeg i ≡ ended n)
unfolding read_be16
reads_be16 jpeg i h =
    let (high, e) = reads jpeg i (omega arith) in
    let (low, e') = reads jpeg (i + 1) h in (high * 256 + low, rw (read_be16, e, e') refl)

jpeg_loop_total :
    (fuel : ℕ) (jpeg : List ℕ) (i : ℕ)
    → 0 < fuel
    → length jpeg < fuel + i
    → (n : ℕ) × (jpeg_loop fuel jpeg (length jpeg) i ≡ ended n) × IsSize jpeg n
unfolding jpeg_loop
jpeg_loop_total zero jpeg i some_fuel enough = elim some_fuel [ ]
jpeg_loop_total (suc fuel) jpeg i some_fuel enough = elim (Bool-cases (ltb i (length jpeg))) [
  | inr e ↦ (0, rw (jpeg_loop, e) refl, inl refl)
  | inl e ↦
      let inside = ltb→lt i (length jpeg) e in
      let (m, at_i) = get_elem?-some jpeg i inside in
      let read_m : read jpeg i ≡ ended m = unfold read in rw (read, at_i) refl in
      elim (Bool-cases (is_alone m)) [
        | inl alone ↦
            let (n, next, size) = jpeg_loop_total fuel jpeg (i + 1) (omega arith) (omega arith) in
            (n, rw (jpeg_loop, e, read_m, alone) next, size)
        | inr marker ↦ elim (Bool-cases (m == jpeg_sos)) [
          | inl sos ↦
              let (j, skips, le, bound) =
                skip_scan_total fuel jpeg (i + 1) (omega arith) (omega arith) (omega arith) in
              let (n, next, size) = jpeg_loop_total fuel jpeg j (omega arith) (omega arith) in
              (n, rw (jpeg_loop, e, read_m, marker, sos, skips) next, size)
          | inr no_scan ↦ elim (Bool-cases (m == jpeg_eoi)) [
            | inl eoi ↦ (
              i + 1,
              rw (jpeg_loop, e, read_m, marker, no_scan, eoi) refl,
              inr (i, refl, inside, rw ((==_iff m jpeg_eoi).0 eoi) at at_i),
            )
            | inr no_end ↦ elim (Bool-cases (leb (length jpeg) (i + 1 + 2))) [
              | inl short ↦
                  (0, rw (jpeg_loop, e, read_m, marker, no_scan, no_end, short) refl, inl refl)
              | inr room ↦
                  let (n, len) = reads_be16 jpeg (i + 1) (ground arith) in
                  let (size, next, is_size) =
                    jpeg_loop_total fuel jpeg (i + 1 + n) (omega arith) (omega arith) in
                  (
                    size,
                    rw (jpeg_loop, e, read_m, marker, no_scan, no_end, room, len) next,
                    is_size,
                  )
            ]
          ]
        ]
      ]
]

-- Whatever the buffer holds, `GetJpegSize` ends and reads no byte outside it. It returns 0, or the
-- size of a part of the buffer whose last byte is that of an EOI marker.
pub get_jpeg_size-IsSize :
    (jpeg : List ℕ) → (n : ℕ) × (get_jpeg_size jpeg (length jpeg) ≡ ended n) × IsSize jpeg n
unfolding get_jpeg_size
get_jpeg_size-IsSize jpeg = jpeg_loop_total (length jpeg + 1) jpeg 0 (omega arith) (omega arith)
