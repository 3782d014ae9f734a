-- ===== src/Uvc/Jpeg/Images.antt =====
-- Pictures as a camera sends them: markers and segments up to the EOI marker, with what the buffer
-- holds behind it.
use kos_ce_extra.Prelude.{
  ℕ, zero, suc, ◌+◌, ◌*◌, ◌/◌, ◌%◌, ◌^◌, ◌<◌, true, false, List, [], ◌∷◌, ◌++◌, length,
  length-append, append_assoc, All, ltb, leb, ◌==◌, ◌≡◌, ◌≢◌, ◌⊎◌, refl, ◌∙◌, arith,
}
use kos_ce_extra.Uvc.Jpeg.{
  ended, jpeg_eoi, jpeg_sos, jpeg_soi, jpeg_tem, is_alone, is_scanned, read_be16, jpeg_loop,
  get_jpeg_size,
}
use kos_ce_extra.Uvc.Jpeg.Positions.{From, From-whole, From-next, From-skip}
use kos_ce_extra.Uvc.Jpeg.Scans.{Piece, IsPiece, scan_bytes, read-From, skip_scan-scan_bytes}

-- A part of a picture: a fill byte, a marker that stands alone, a marker with a block of data whose
-- length it gives, or an SOS marker with what it begins.
pub data Segment : Type 0 where
  fill : Segment
  alone : ℕ → Segment
  block : ℕ → List ℕ → Segment
  scan : List Piece → Segment

abbrev pub segment_bytes : Segment → List ℕ
segment_bytes fill = 0xff ∷ []
segment_bytes (alone m) = 0xff ∷ m ∷ []
segment_bytes (block m payload) =
    0xff ∷ m ∷ ((length payload + 2) / 256) ∷ ((length payload + 2) % 256) ∷ payload
segment_bytes (scan ps) = 0xff ∷ 0xda ∷ scan_bytes ps

-- The marker of a block is none of those with a meaning of their own.
abbrev pub IsSegment : Segment → Type 0
IsSegment fill = Unit {0}
IsSegment (alone m) = (m ≡ jpeg_soi) ⊎ (m ≡ jpeg_tem)
IsSegment (block m payload) =
    (is_alone m ≡ false) × (m ≢ jpeg_sos) × (m ≢ jpeg_eoi) × (m ≢ 0) × (length payload + 2 < 2 ^ 16)
IsSegment (scan ps) = All IsPiece ps

-- A picture.
abbrev pub image_bytes : List Segment → List ℕ
image_bytes [] = 0xff ∷ 0xd9 ∷ []
image_bytes (g ∷ gs) = segment_bytes g ++ image_bytes gs

-- A picture and what follows it, behind the first byte, which is always 0xff.
abbrev inner : List Segment → List ℕ → List ℕ
inner [] tail = 0xd9 ∷ tail
inner (fill ∷ gs) tail = 0xff ∷ inner gs tail
inner (alone m ∷ gs) tail = m ∷ 0xff ∷ inner gs tail
inner (block m payload ∷ gs) tail =
    m
    ∷ ((length payload + 2) / 256)
    ∷ ((length payload + 2) % 256)
    ∷ (payload ++ 0xff ∷ inner gs tail)
inner (scan ps ∷ gs) tail = 0xda ∷ (scan_bytes ps ++ 0xff ∷ inner gs tail)

image_bytes-inner :
    (gs : List Segment) (tail : List ℕ) → image_bytes gs ++ tail ≡ 0xff ∷ inner gs tail
image_bytes-inner [] tail = refl
image_bytes-inner (fill ∷ gs) tail = rw (image_bytes-inner gs tail) refl
image_bytes-inner (alone m ∷ gs) tail = rw (image_bytes-inner gs tail) refl
image_bytes-inner (block m payload ∷ gs) tail =
    rw (append_assoc payload (image_bytes gs) tail, image_bytes-inner gs tail) refl
image_bytes-inner (scan ps ∷ gs) tail =
    rw (append_assoc (scan_bytes ps) (image_bytes gs) tail, image_bytes-inner gs tail) refl

-- A picture begins with a marker at which no scan goes on.
inner-marker :
    (gs : List Segment) (tail : List ℕ)
    → All IsSegment gs
    → (m : ℕ) × (s : List ℕ) × (inner gs tail ≡ m ∷ s) × (is_scanned m ≡ false)
unfolding is_scanned is_alone
inner-marker [] tail hs = (0xd9, tail, refl, unfold is_scanned in refl)
inner-marker (fill ∷ gs) tail hs = (0xff, inner gs tail, refl, unfold is_scanned in refl)
inner-marker (alone m ∷ gs) tail (h, hs) = (m, 0xff ∷ inner gs tail, refl, ground (arith, h))
inner-marker (block m payload ∷ gs) tail (h, hs) = (m, _, refl, ground (arith, h))
inner-marker (scan ps ∷ gs) tail hs = (0xda, _, refl, unfold is_scanned in refl)

inner-pos : (gs : List Segment) (tail : List ℕ) → 0 < length (inner gs tail)
inner-pos [] tail = omega arith
inner-pos (fill ∷ gs) tail = omega arith
inner-pos (alone m ∷ gs) tail = omega arith
inner-pos (block m payload ∷ gs) tail = omega arith
inner-pos (scan ps ∷ gs) tail = omega arith

is_alone-of_segment : (m : ℕ) → IsSegment (alone m) → is_alone m ≡ true
unfolding is_alone
is_alone-of_segment m h = ground arith

module _ (jpeg : List ℕ) where
  -- A round at a marker that is passed over.
  loop-alone :
      (fuel i m : ℕ) (s : List ℕ)
      → From jpeg i (m ∷ s)
      → is_alone m ≡ true
      → jpeg_loop (suc fuel) jpeg (length jpeg) i ≡ jpeg_loop fuel jpeg (length jpeg) (i + 1)
  unfolding jpeg_loop
  loop-alone fuel i m s at passes =
      let inside : ltb i (length jpeg) ≡ true = ground (arith, at.size) in
      rw (jpeg_loop, inside, read-From jpeg i m s at, passes) refl

  -- A round at the end of the picture.
  loop-eoi :
      (fuel i : ℕ) (s : List ℕ)
      → From jpeg i (0xd9 ∷ s)
      → jpeg_loop (suc fuel) jpeg (length jpeg) i ≡ ended (i + 1)
  unfolding jpeg_loop is_alone
  loop-eoi fuel i s at =
      let inside : ltb i (length jpeg) ≡ true = ground (arith, at.size) in
      rw (jpeg_loop, inside, read-From jpeg i 0xd9 s at) refl

  -- A round at a block, up to the byte behind it.
  loop-block :
      (fuel i m n : ℕ) (s : List ℕ)
      → From jpeg i (m ∷ (n / 256) ∷ (n % 256) ∷ s)
      → IsSegment (block m [])
      → 0 < length s
      → jpeg_loop (suc fuel) jpeg (length jpeg) i ≡ jpeg_loop fuel jpeg (length jpeg) (i + 1 + n)
  unfolding jpeg_loop read_be16
  loop-block fuel i m n s at (marker, no_scan, no_end, some_byte, small) more =
      let at1 = From-next jpeg i m ((n / 256) ∷ (n % 256) ∷ s) at in
      let at2 = From-next jpeg (i + 1) (n / 256) ((n % 256) ∷ s) at1 in
      let inside : ltb i (length jpeg) ≡ true = ground (arith, at.size) in
      let room : leb (length jpeg) (i + 1 + 2) ≡ false = ground (arith, at.size) in
      let scan : (m == jpeg_sos) ≡ false = ground arith in
      let end : (m == jpeg_eoi) ≡ false = ground arith in
      let whole : n / 256 * 256 + n % 256 ≡ n = omega arith in
      rw
        (
          jpeg_loop,
          inside,
          read-From jpeg i m ((n / 256) ∷ (n % 256) ∷ s) at,
          marker,
          scan,
          end,
          room,
          read_be16,
          read-From jpeg (i + 1) (n / 256) ((n % 256) ∷ s) at1,
          read-From jpeg (i + 1 + 1) (n % 256) s at2,
          whole,
        )
        refl

  -- A round at a scan, up to the byte behind the next 0xff that ends it.
  loop-scan :
      (ps : List Piece) (fuel i m : ℕ) (tail : List ℕ)
      → All IsPiece ps
      → is_scanned m ≡ false
      → From jpeg i (0xda ∷ (scan_bytes ps ++ 0xff ∷ m ∷ tail))
      → length (scan_bytes ps) < fuel
      → jpeg_loop (suc fuel) jpeg (length jpeg) i
        ≡ jpeg_loop fuel jpeg (length jpeg) (i + 1 + length (scan_bytes ps) + 1)
  unfolding jpeg_loop is_alone
  loop-scan ps fuel i m tail hs stop at enough =
      let s = scan_bytes ps ++ 0xff ∷ m ∷ tail in
      let inside : ltb i (length jpeg) ≡ true = ground (arith, at.size) in
      rw
        (
          jpeg_loop,
          inside,
          read-From jpeg i 0xda s at,
          skip_scan-scan_bytes jpeg ps fuel (i + 1) m tail hs stop (From-next jpeg i 0xda s at)
              enough,
        )
        refl

  -- The outer loop from behind the first byte of a picture on.
  loop-inner :
      (gs : List Segment) (tail : List ℕ) (fuel i k : ℕ)
      → All IsSegment gs
      → From jpeg i (inner gs tail)
      → length jpeg < fuel + i
      → k + 1 ≡ i + length (image_bytes gs)
      → jpeg_loop fuel jpeg (length jpeg) i ≡ ended k
  loop-inner [] tail zero i k hs at enough size = absurd (omega (arith, at.size))
  loop-inner [] tail (suc fuel) i k hs at enough size =
      let same : k ≡ i + 1 = omega arith in rw same (loop-eoi fuel i tail at)
  loop-inner (g ∷ gs) tail zero i k hs at enough size =
      absurd (omega (arith, at.size, inner-pos (g ∷ gs) tail))
  loop-inner (fill ∷ gs) tail (suc fuel) i k (h, hs) at enough size =
      loop-alone fuel i 0xff (inner gs tail) at (unfold is_alone in refl)
      ∙ loop-inner gs tail fuel (i + 1) k hs (From-next jpeg i 0xff (inner gs tail) at)
          (omega arith) (omega arith)
  loop-inner (scan ps ∷ gs) tail (suc fuel) i k (h, hs) at enough size =
      let (m, s, e, stop) = inner-marker gs tail hs in
      let at1 = From-next jpeg i 0xda (scan_bytes ps ++ 0xff ∷ inner gs tail) at in
      let at2 = From-skip jpeg (i + 1) (scan_bytes ps) (0xff ∷ inner gs tail) at1 in
      let long = length-append (scan_bytes ps) (0xff ∷ inner gs tail) in
      loop-scan ps fuel i m s h stop (rw e at at) (omega (arith, at.size, long))
      ∙ loop-inner gs tail fuel (i + 1 + length (scan_bytes ps) + 1) k hs
          (From-next jpeg (i + 1 + length (scan_bytes ps)) 0xff (inner gs tail) at2) (omega arith)
          (omega (arith, length-append (scan_bytes ps) (image_bytes gs)))
  loop-inner (g ∷ gs) tail (suc zero) i k hs at enough size = absurd (omega (arith, at.size))
  loop-inner (alone m ∷ gs) tail (suc (suc fuel)) i k (h, hs) at enough size =
      let at1 = From-next jpeg i m (0xff ∷ inner gs tail) at in
      loop-alone (suc fuel) i m (0xff ∷ inner gs tail) at (is_alone-of_segment m h)
      ∙ loop-alone fuel (i + 1) 0xff (inner gs tail) at1 (unfold is_alone in refl)
      ∙ loop-inner gs tail fuel (i + 1 + 1) k hs (From-next jpeg (i + 1) 0xff (inner gs tail) at1)
          (omega arith) (omega arith)
  loop-inner (block m payload ∷ gs) tail (suc (suc fuel)) i k (h, hs) at enough size =
      let n = length payload + 2 in
      let rest = payload ++ 0xff ∷ inner gs tail in
      let same : i + length (m ∷ (n / 256) ∷ (n % 256) ∷ payload) ≡ i + 1 + n = omega arith in
      let at1 =
        rw same at
          (From-skip jpeg i (m ∷ (n / 256) ∷ (n % 256) ∷ payload) (0xff ∷ inner gs tail) at) in
      loop-block (suc fuel) i m n rest at (h.0, h.1, h.2, h.3, omega arith)
        (omega (arith, length-append payload (0xff ∷ inner gs tail)))
      ∙ loop-alone fuel (i + 1 + n) 0xff (inner gs tail) at1 (unfold is_alone in refl)
      ∙ loop-inner gs tail fuel (i + 1 + n + 1) k hs
          (From-next jpeg (i + 1 + n) 0xff (inner gs tail) at1) (omega arith)
          (omega (arith, length-append payload (image_bytes gs)))

-- `GetJpegSize` finds the exact size of a picture, whatever the buffer holds behind it: of any fill
-- bytes, markers and blocks of data up to the first EOI marker, and of scans with stuffed bytes and
-- restart markers. The length of each block fits its two bytes.
pub get_jpeg_size-image_bytes :
    (gs : List Segment) (tail : List ℕ)
    → All IsSegment gs
    → get_jpeg_size (image_bytes gs ++ tail) (length (image_bytes gs ++ tail))
      ≡ ended (length (image_bytes gs))
unfolding get_jpeg_size
get_jpeg_size-image_bytes gs tail hs =
    let jpeg = 0xff ∷ inner gs tail in
    let fuel : length jpeg + 1 ≡ suc (suc (length (inner gs tail))) = omega arith in
    rw (image_bytes-inner gs tail, fuel)
      (loop-alone jpeg (suc (length (inner gs tail))) 0 0xff (inner gs tail) (From-whole jpeg)
          (unfold is_alone in refl)
        ∙ loop-inner jpeg gs tail (suc (length (inner gs tail))) (0 + 1) (length (image_bytes gs))
            hs (From-next jpeg 0 0xff (inner gs tail) (From-whole jpeg)) (omega arith)
            (omega arith))
