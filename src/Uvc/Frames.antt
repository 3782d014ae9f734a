-- ===== src/Uvc/Frames.antt =====
-- `YUYVToRGB`, `SaveYUYV` and `SaveMJPEG` (uvc_camera_stills/client/src/main.c): from the bytes of a
-- frame to a file.
pub mod Files
use kos_ce_extra.Prelude.{
  ℕ, zero, suc, ◌+◌, ◌-◌, ◌*◌, ◌/◌, ◌%◌, ◌^◌, Bool, true, not, ◌||◌, List, [], ◌∷◌, ◌++◌, length,
  take, replicate, Text, codes, ◌==◌, if◌then◌else◌,
}
use kos_ce_extra.Prelude.Decimal.{decimal}
use kos_ce_extra.Uvc.Jpeg.{Run, ended, fault, out_of_fuel, get_jpeg_size}
use kos_ce_extra.Uvc.Profiles.{Retcode, rc_ok, rc_fail, Info}

-- The red, green and blue of a pixel. The arithmetic that makes them of Y, U and V has floating
-- point, and is a parameter.
abbrev pub Channels : Type 0
Channels = ℕ → ℕ → ℕ → ℕ × ℕ × ℕ

abbrev pub pixel : ℕ × ℕ × ℕ → List ℕ
pixel (r, g, b) = r ∷ g ∷ b ∷ []

-- Four bytes are two pixels, which share U and V.
unfoldable pub yuyv_to_rgb : Channels → List ℕ → List ℕ
yuyv_to_rgb channels (y1 ∷ u ∷ y2 ∷ v ∷ src) =
    pixel (channels y1 u v) ++ (pixel (channels y2 u v) ++ yuyv_to_rgb channels src)
yuyv_to_rgb channels _ = []

-- `%0<width>` and `%<width>` of a number.
unfoldable pub padded : ℕ → ℕ → ℕ → Text
padded pad width n = replicate (width - length (decimal n)) pad ++ decimal n

-- A time stamp.
pub record TimeSpec : Type 0 where
  pub sec : ℕ
  pub nsec : ℕ

abbrev pub nsec_per_msec : ℕ
nsec_per_msec = 1000000

unfoldable pub image_name : TimeSpec → Text → Text
unfolding padded
image_name ts extension =
    codes "/img_"
    ++ (padded b'0' 4 ts.sec
        ++ (codes "_" ++ (padded b'0' 3 (ts.nsec / nsec_per_msec) ++ extension)))

unfoldable pub ppm_header : ℕ → ℕ → Text
unfolding padded
ppm_header res_x res_y =
    codes "P6\n\n"
    ++ (padded b' ' 7 res_x ++ (codes " " ++ (padded b' ' 7 res_y ++ codes "\n255\n")))

abbrev pub u32 : ℕ → ℕ
u32 n = n % 2 ^ 32

-- The files of the client: `fopen`, and `fwrite` with the number of bytes that it writes.
pub record FileSystem (S : Type 0) : Type 0 where
  pub create : Text → S → Bool × S
  pub write : List ℕ → S → ℕ × S

-- What is handed to `fwrite`, by the name of the file and its header.
pub record Saved (S : Type 0) : Type 0 where
  pub rc : Retcode
  pub written : List (Text × List ℕ)
  pub peer : S

module _ {S : Type 0} (fs : FileSystem S) where
  -- `fprintf` of a header, where the format has one.
  unfoldable pub print_header : List ℕ → S → S
  print_header [] s = s
  print_header (x ∷ header) s = (fs.write (x ∷ header) s).1

  -- A file with a header and the bytes that count.
  unfoldable pub save_file : Text → List ℕ → List ℕ → S → Saved S
  unfolding print_header
  save_file name header bytes s =
      let (opened, s1) = fs.create name s in
      let (n, s2) = fs.write bytes (print_header header s1) in
      if not opened then record { rc = rc_fail; written = []; peer = s1 } else record {
        rc = if n == length bytes then rc_ok else rc_fail;
        written = (name, header ++ bytes) ∷ [];
        peer = s2;
      }

  -- With the assertions on: `fault` is one that fails.
  unfoldable pub save_yuyv : Channels → List ℕ → Info → TimeSpec → S → Run (Saved S)
  unfolding save_file yuyv_to_rgb image_name ppm_header
  save_yuyv channels frame info ts s =
      let rgb_size = u32 (info.res_x * info.res_y * 3) in
      let name = image_name ts (codes ".ppm") in
      let header = ppm_header info.res_x info.res_y in
      let saved = save_file name header (yuyv_to_rgb channels frame) s in
      let (opened, s1) = fs.create name s in
      if not (info.bpp == 2)
      then fault
      else if not opened
      then ended saved
      else if not (length frame % 4 == 0)
          || (not (rgb_size % 3 == 0) || not (length frame / 4 * 2 == rgb_size / 3))
      then fault
      else ended saved

  unfoldable pub save_mjpeg : List ℕ → TimeSpec → S → Run (Saved S)
  unfolding save_file get_jpeg_size image_name
  save_mjpeg frame ts s = elim (get_jpeg_size frame (length frame)) [
    | ended actual_size ↦
        if actual_size == 0
        then ended (record { rc = rc_fail; written = []; peer = s })
        else ended (save_file (image_name ts (codes ".jpg")) [] (take actual_size frame) s)
    | fault ↦ fault
    | out_of_fuel ↦ out_of_fuel
  ]
