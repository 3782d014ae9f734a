-- ===== src/Uvc/Frames/Files.antt =====
-- What the client writes of a frame.
use kos_ce_extra.Prelude.{
  ℕ, ◌*◌, ◌/◌, ◌%◌, ◌^◌, ◌<◌, true, List, [], length, take, codes, ◌==◌, Bool-cases, ◌≡◌, refl, inl,
  inr, arith,
}
use kos_ce_extra.Uvc.Jpeg.{ended}
use kos_ce_extra.Uvc.Jpeg.Total.{get_jpeg_size-IsSize}
use kos_ce_extra.Uvc.Profiles.{Info, rc_fail}
use kos_ce_extra.Uvc.Frames.{
  Channels, ppm_header, yuyv_to_rgb, TimeSpec, u32, image_name, FileSystem, Saved, save_file,
  save_yuyv, save_mjpeg,
}

-- An uncompressed profile whose frames pass the assertions: two bytes for each pixel, an even number
-- of pixels, and a picture whose size has 32 bits.
abbrev pub IsWhole : Info → Type 0
IsWhole info =
    (info.bpp ≡ 2) × (info.res_x * info.res_y % 2 ≡ 0) × (info.res_x * info.res_y * 3 < 2 ^ 32)

module _ {S : Type 0} (fs : FileSystem S) where
  pub save_mjpeg_ends :
      (frame : List ℕ) (ts : TimeSpec) (s : S)
      → (saved : Saved S) × (save_mjpeg fs frame ts s ≡ ended saved)
  unfolding save_mjpeg
  save_mjpeg_ends frame ts s =
      let (n, e, size) = get_jpeg_size-IsSize frame in
      elim (Bool-cases (n == 0)) [
        | inl zero_size ↦
            (record { rc = rc_fail; written = []; peer = s }, rw (save_mjpeg, e, zero_size) refl)
        | inr some_size ↦ (
          save_file fs (image_name ts (codes ".jpg")) [] (take n frame) s,
          rw (save_mjpeg, e, some_size) refl,
        )
      ]

  pub save_yuyv_ends :
      (channels : Channels) (frame : List ℕ) (info : Info) (ts : TimeSpec) (s : S)
      → IsWhole info
      → length frame ≡ u32 (info.res_x * info.res_y * 2)
      → (saved : Saved S) × (save_yuyv fs channels frame info ts s ≡ ended saved)
  unfolding save_yuyv
  save_yuyv_ends channels frame info ts s (two, even, small) size =
      let pixels = info.res_x * info.res_y in
      let bpp : (info.bpp == 2) ≡ true = ground arith in
      let n : length frame ≡ pixels * 2 = omega arith in
      let rgb : u32 (pixels * 3) ≡ pixels * 3 = omega arith in
      let whole : (pixels * 2 % 4 == 0) ≡ true = ground arith in
      let thirds : (pixels * 3 % 3 == 0) ≡ true = ground arith in
      let same : (pixels * 2 / 4 * 2 == pixels * 3 / 3) ≡ true = ground arith in
      (
        save_file fs (image_name ts (codes ".ppm")) (ppm_header info.res_x info.res_y)
            (yuyv_to_rgb channels frame) s,
        elim (Bool-cases (fs.create (image_name ts (codes ".ppm")) s).0) [
          | inl opened ↦ rw (save_yuyv, bpp, opened, n, rgb, whole, thirds, same) refl
          | inr closed ↦ rw (save_yuyv, bpp, closed) refl
        ],
      )
