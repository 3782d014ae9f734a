-- ===== src/Uvc/Jpeg/Scans.antt =====
-- The entropy-coded data behind an SOS marker, and where `GetJpegSize` finds its end.
use kos_ce_extra.Prelude.{
  ℕ, zero, suc, ◌+◌, ◌-◌, ◌<◌, true, false, List, [], ◌∷◌, ◌++◌, length, length-append, All, ltb,
  ◌==◌, ◌≡◌, ◌≢◌, refl, ◌∙◌, arith,
}
use kos_ce_extra.Uvc.Jpeg.{ended, jpeg_padding, is_rst, is_scanned, read, skip_scan}
use kos_ce_extra.Prelude.{if◌then◌else◌}
use kos_ce_extra.Uvc.Jpeg.Positions.{From, From-byte, From-next, From-skip}

-- A piece of a scan: a byte as it is, the byte 0xff with a 0 behind it, or a restart marker.
pub data Piece : Type 0 where
  plain : ℕ → Piece
  stuffed : Piece
  restart : ℕ → Piece

abbrev pub piece_bytes : Piece → List ℕ
piece_bytes (plain b) = b ∷ []
piece_bytes stuffed = 0xff ∷ 0x00 ∷ []
piece_bytes (restart m) = 0xff ∷ m ∷ []

abbrev pub IsPiece : Piece → Type 0
IsPiece (plain b) = b ≢ 0xff
IsPiece stuffed = Unit {0}
IsPiece (restart m) = is_rst m ≡ true

abbrev pub scan_bytes : List Piece → List ℕ
scan_bytes [] = []
scan_bytes (p ∷ ps) = piece_bytes p ++ scan_bytes ps

pub read-From : (jpeg : List ℕ) (i b : ℕ) (s : List ℕ) → From jpeg i (b ∷ s) → read jpeg i ≡ ended b
unfolding read
read-From jpeg i b s at = rw (read, From-byte jpeg i b s at) refl

rst-is_scanned : (m : ℕ) → is_rst m ≡ true → is_scanned m ≡ true
unfolding is_scanned
rst-is_scanned m h = ground (arith, h)

rst-ne-padding : (m : ℕ) → is_rst m ≡ true → m ≢ 0xff
unfolding is_rst
rst-ne-padding m h = ground arith

behind : (ps : List Piece) (m : ℕ) (tail : List ℕ) → 0 < length (scan_bytes ps ++ 0xff ∷ m ∷ tail)
behind ps m tail = omega (arith, length-append (scan_bytes ps) (0xff ∷ m ∷ tail))

two : (i : ℕ) (s : List ℕ) → i + 2 + length s ≡ i + suc (suc (length s))
two i s = omega arith

module _ (jpeg : List ℕ) where
  -- A byte that the scan goes over.
  scan_plain :
      (fuel i b : ℕ) (s : List ℕ)
      → From jpeg i (b ∷ s)
      → 0 < length s
      → b ≢ 0xff
      → skip_scan (suc fuel) jpeg (length jpeg) i ≡ skip_scan fuel jpeg (length jpeg) (i + 1)
  unfolding skip_scan
  scan_plain fuel i b s at more other =
      let small : ltb i (length jpeg - 1) ≡ true = ground (arith, at.size) in
      let no : (b == jpeg_padding) ≡ false = ground arith in
      rw (skip_scan, small, read-From jpeg i b s at, no) refl

  -- The byte 0xff, and what stands behind it.
  scan_marker :
      (fuel i m : ℕ) (s : List ℕ)
      → From jpeg i (0xff ∷ m ∷ s)
      → skip_scan (suc fuel) jpeg (length jpeg) i
        ≡ (if is_scanned m then skip_scan fuel jpeg (length jpeg) (i + 1) else ended (i + 1))
  unfolding skip_scan
  scan_marker fuel i m s at =
      let small : ltb i (length jpeg - 1) ≡ true = ground (arith, at.size) in
      rw
        (
          skip_scan,
          small,
          read-From jpeg i 0xff (m ∷ s) at,
          read-From jpeg (i + 1) m s (From-next jpeg i 0xff (m ∷ s) at),
        )
        refl

  -- A pair of bytes that stays in the scan.
  scan_pair :
      (fuel i m : ℕ) (s : List ℕ)
      → From jpeg i (0xff ∷ m ∷ s)
      → 0 < length s
      → is_scanned m ≡ true
      → m ≢ 0xff
      → skip_scan (suc (suc fuel)) jpeg (length jpeg) i ≡ skip_scan fuel jpeg (length jpeg) (i + 2)
  scan_pair fuel i m s at more scanned other =
      let same : i + 1 + 1 ≡ i + 2 = omega arith in
      scan_marker (suc fuel) i m s at
      ∙ rw (scanned, ← same)
          (scan_plain fuel (i + 1) m s (From-next jpeg i 0xff (m ∷ s) at) more other)

  -- Where a scan of pieces ends: at the byte behind the next 0xff.
  pub skip_scan-scan_bytes :
      (ps : List Piece) (fuel i m : ℕ) (tail : List ℕ)
      → All IsPiece ps
      → is_scanned m ≡ false
      → From jpeg i (scan_bytes ps ++ 0xff ∷ m ∷ tail)
      → length (scan_bytes ps) < fuel
      → skip_scan fuel jpeg (length jpeg) i ≡ ended (i + length (scan_bytes ps) + 1)
  skip_scan-scan_bytes ps zero i m tail hs stop at enough = absurd (omega (arith, enough))
  skip_scan-scan_bytes [] (suc fuel) i m tail hs stop at enough =
      let same : i + 0 ≡ i = omega arith in rw (same, scan_marker fuel i m tail at, stop) refl
  skip_scan-scan_bytes (plain b ∷ ps) (suc fuel) i m tail (h, hs) stop at enough =
      let rest = scan_bytes ps ++ 0xff ∷ m ∷ tail in
      let same : i + 1 + length (scan_bytes ps) ≡ i + suc (length (scan_bytes ps)) = omega arith in
      scan_plain fuel i b rest at (behind ps m tail) h
      ∙ rw same at (
          skip_scan-scan_bytes ps fuel (i + 1) m tail hs stop (From-next jpeg i b rest at)
            (omega arith))
  skip_scan-scan_bytes (p ∷ ps) (suc zero) i m tail (h, hs) stop at enough =
      absurd (omega (arith, enough))
  skip_scan-scan_bytes (stuffed ∷ ps) (suc (suc fuel)) i m tail (h, hs) stop at enough =
      let rest = scan_bytes ps ++ 0xff ∷ m ∷ tail in
      let at' = From-skip jpeg i (0xff ∷ 0 ∷ []) rest at in
      scan_pair fuel i 0 rest at (behind ps m tail) (unfold is_scanned in refl) (λ e. cc)
      ∙ rw (two i (scan_bytes ps)) at
          (skip_scan-scan_bytes ps fuel (i + 2) m tail hs stop at' (omega arith))
  skip_scan-scan_bytes (restart k ∷ ps) (suc (suc fuel)) i m tail (h, hs) stop at enough =
      let rest = scan_bytes ps ++ 0xff ∷ m ∷ tail in
      let at' = From-skip jpeg i (0xff ∷ k ∷ []) rest at in
      scan_pair fuel i k rest at (behind ps m tail) (rst-is_scanned k h) (rst-ne-padding k h)
      ∙ rw (two i (scan_bytes ps)) at
          (skip_scan-scan_bytes ps fuel (i + 2) m tail hs stop at' (omega arith))
