-- ===== src/Uvc/Jpeg.antt =====
-- `GetJpegSize` (uvc_camera_stills/client/src/main.c): how long the picture at the beginning of a
-- buffer is.
pub mod Positions
pub mod Total
pub mod Scans
pub mod Images
use kos_ce_extra.Prelude.{
  ℕ, zero, suc, ◌+◌, ◌-◌, ◌*◌, Bool, not, ◌||◌, ◌&&◌, none, some, List, get_elem?, ltb, leb, ◌==◌,
  if◌then◌else◌,
}

-- A part of a C function: it ends with a value, reads outside its buffer, or needs more fuel.
pub data Run {ℓ} (A : Type ℓ) : Type ℓ where
  ended : A → Run A
  fault : Run A
  out_of_fuel : Run A

infixl 5 ◌>>=◌
abbrev pub ◌>>=◌ {ℓ κ} : {A : Type ℓ} {B : Type κ} → Run A → (A → Run B) → Run B
ended a >>= f = f a
fault >>= f = fault
out_of_fuel >>= f = out_of_fuel

abbrev pub jpeg_padding : ℕ
jpeg_padding = 0xff

abbrev pub jpeg_ff : ℕ
jpeg_ff = 0x00

abbrev pub jpeg_soi : ℕ
jpeg_soi = 0xd8

abbrev pub jpeg_eoi : ℕ
jpeg_eoi = 0xd9

abbrev pub jpeg_tem : ℕ
jpeg_tem = 0x01

abbrev pub jpeg_rst0 : ℕ
jpeg_rst0 = 0xd0

abbrev pub jpeg_rst7 : ℕ
jpeg_rst7 = 0xd7

abbrev pub jpeg_sos : ℕ
jpeg_sos = 0xda

-- `case JpegRST0 ... JpegRST7`.
unfoldable pub is_rst : ℕ → Bool
is_rst b = leb jpeg_rst0 b && leb b jpeg_rst7

-- The markers that the outer `switch` passes over.
unfoldable pub is_alone : ℕ → Bool
unfolding is_rst
is_alone b = b == jpeg_padding || b == jpeg_soi || b == jpeg_tem || is_rst b

-- The bytes that the inner `switch` goes on at.
unfoldable pub is_scanned : ℕ → Bool
unfolding is_rst
is_scanned b = b == jpeg_ff || is_rst b

-- `jpeg[i]`.
unfoldable pub read : List ℕ → ℕ → Run ℕ
read jpeg i = elim (get_elem? jpeg i) [ none ↦ fault | some b ↦ ended b ]

-- `be16toh` of the two bytes at `i`.
unfoldable pub read_be16 : List ℕ → ℕ → Run ℕ
unfolding read
read_be16 jpeg i = read jpeg i >>= λ high. read jpeg (i + 1) >>= λ low. ended (high * 256 + low)

-- The loop behind `JpegSOS`: `i` at its end. It is reached with `i` behind a byte, so that `size`
-- is not 0.
unfoldable pub skip_scan : ℕ → List ℕ → ℕ → ℕ → Run ℕ
unfolding read is_scanned
skip_scan zero jpeg size i = out_of_fuel
skip_scan (suc fuel) jpeg size i =
    let again = skip_scan fuel jpeg size (i + 1) in
    if ltb i (size - 1)
    then (read jpeg i >>= λ b.
        if not (b == jpeg_padding)
        then again
        else (read jpeg (i + 1) >>= λ marker. if is_scanned marker then again else ended (i + 1)))
    else ended i

-- The outer loop. No sum wraps: the sizes have 32 bits, and a `size_t` has 64.
unfoldable pub jpeg_loop : ℕ → List ℕ → ℕ → ℕ → Run ℕ
unfolding read read_be16 skip_scan is_alone
jpeg_loop zero jpeg size i = out_of_fuel
jpeg_loop (suc fuel) jpeg size i =
    let next = jpeg_loop fuel jpeg size (i + 1) in
    let scan = (skip_scan fuel jpeg size (i + 1) >>= λ j. jpeg_loop fuel jpeg size j) in
    let segment = (read_be16 jpeg (i + 1) >>= λ n. jpeg_loop fuel jpeg size (i + 1 + n)) in
    if ltb i size
    then (read jpeg i >>= λ marker.
        if is_alone marker
        then next
        else if marker == jpeg_sos
        then scan
        else if marker == jpeg_eoi
        then ended (i + 1)
        else if leb size (i + 1 + 2)
        then ended 0
        else segment)
    else ended 0

-- 0 is the failure. Each round of a loop reads a byte further on.
unfoldable pub get_jpeg_size : List ℕ → ℕ → Run ℕ
unfolding jpeg_loop
get_jpeg_size jpeg size = jpeg_loop (size + 1) jpeg size 0
