-- ===== src/Uvc/Tests.antt =====
-- A small camera, and the theorems at concrete inputs.
use kos_ce_extra.Prelude.{
  ℕ, ◌+◌, Bool, true, Option, Text, none, some, List, [], ◌∷◌, ◌++◌, length, All, codes, ltb,
  if◌then◌else◌, ◌≡◌, ◌↔◌, refl, inl, inr, arith,
}
use kos_ce_extra.Prelude.Decimal.{decimal}
use kos_ce_extra.Uvc.Jpeg.{Run, ended, fault, out_of_fuel, get_jpeg_size, is_alone, is_rst}
use kos_ce_extra.Uvc.Jpeg.Scans.{plain, stuffed, restart}
use kos_ce_extra.Uvc.Jpeg.Total.{IsSize, get_jpeg_size-IsSize}
use kos_ce_extra.Uvc.Jpeg.Images.{
  Segment, fill, alone, block, scan, IsSegment, image_bytes, get_jpeg_size-image_bytes,
}
use kos_ce_extra.Uvc.Profiles.{
  rc_ok, rc_fail, rc_resource_not_found, mjpeg, yuyv, Info, best_from, configure_camera,
}
use kos_ce_extra.Uvc.Profiles.Best.{IsBest, best_from_iff}
use kos_ce_extra.Uvc.Frames.{TimeSpec, FileSystem, image_name, padded}
use kos_ce_extra.Uvc.Capture.{
  Driver, Session, camera_main, perform, notify, capture, wait_camera, with_camera, try_format,
  make_snapshots, snapshots_loop, take_snapshot,
}
use kos_ce_extra.Uvc.Capture.Device.{off, Ends}
use kos_ce_extra.Uvc.Capture.Protocol.{camera_main-off}

abbrev picture : List Segment
picture =
    alone 0xd8 ∷ block 0xe0 (1 ∷ 2 ∷ []) ∷ scan (plain 7 ∷ stuffed ∷ restart 0xd1 ∷ []) ∷ fill ∷ []

picture-IsSegment : All IsSegment picture
unfolding is_alone is_rst
picture-IsSegment = (
  inl refl,
  (
    (refl, ground arith, ground arith, ground arith, omega arith),
    ((ground arith, (tt, (refl, tt))), (tt, tt)),
  ),
)

abbrev open_scan : List ℕ
open_scan = 0xff ∷ 0xda ∷ []

get_jpeg_size-IsSize_example :
    (n : ℕ) × (get_jpeg_size open_scan (length open_scan) ≡ ended n) × IsSize open_scan n
get_jpeg_size-IsSize_example = get_jpeg_size-IsSize open_scan

get_jpeg_size-image_bytes_example :
    get_jpeg_size (image_bytes picture ++ 0 ∷ 0 ∷ []) (length (image_bytes picture ++ 0 ∷ 0 ∷ []))
    ≡ ended (length (image_bytes picture))
get_jpeg_size-image_bytes_example = get_jpeg_size-image_bytes picture (0 ∷ 0 ∷ []) picture-IsSegment

abbrev profiles : List Info
profiles =
    record { res_x = 640; res_y = 480; fps = 30; bpp = 0; pixel_format = mjpeg }
    ∷ record { res_x = 1280; res_y = 720; fps = 30; bpp = 0; pixel_format = mjpeg }
    ∷ record { res_x = 320; res_y = 240; fps = 30; bpp = 2; pixel_format = yuyv }
    ∷ []

best_from_iff_example :
    (best_from 1080 mjpeg 0 0 none profiles ≡ some 1) ↔ IsBest 1080 mjpeg profiles 1
best_from_iff_example = best_from_iff 1080 mjpeg profiles 1

abbrev disk : FileSystem ℕ
disk = record { create = λ name s. (true, s); write = λ bytes s. (length bytes, s + length bytes) }

abbrev moment : TimeSpec
moment = record { sec = 12; nsec = 345678901 }

image_name-moment : image_name moment (codes ".jpg") ≡ codes "/img_0012_345.jpg"
unfolding image_name padded decimal
image_name-moment = refl

-- A camera that is found at the third search, and has one profile. No frame can be read.
abbrev toy : Driver ℕ
toy = record {
  fs = disk;
  channels = λ y u v. (y, u, v);
  camera_init = λ s. (rc_ok, s);
  camera_fini = λ s. s;
  enum_ports = λ s. (if ltb s 2 then rc_resource_not_found else rc_ok, s);
  open_port = λ s. (rc_ok, s);
  close_port = λ s. (rc_ok, s);
  enum_profiles = λ s. (profiles, rc_resource_not_found);
  select_profile = λ i s. (rc_ok, s);
  get_info = λ s. (rc_ok, record { res_x = 4; res_y = 2; fps = 30; bpp = 2; pixel_format = mjpeg });
  enable = λ s. (rc_ok, s);
  disable = λ s. s;
  read_frame = λ size s. ((rc_fail, (λ i. 0), moment), s);
  sleep = λ s. s + 1;
}

camera_main-off_example : Ends (λ r. r.1) off (camera_main toy 3 0)
camera_main-off_example = camera_main-off toy (λ p e. inl refl) 3 0 (inr (inr (inl refl)))

-- `main` ends with `EXIT_SUCCESS` though no frame was read and no file was written.
abbrev outcome : Run (Bool × Session ℕ) → Option (Bool × List (Text × List ℕ))
outcome (ended (done, s)) = some (done, s.files)
outcome fault = none
outcome out_of_fuel = none

no_snapshots : outcome (camera_main toy 3 0) ≡ some (true, [])
unfolding camera_main perform notify capture wait_camera with_camera try_format configure_camera
    best_from make_snapshots snapshots_loop take_snapshot
no_snapshots = refl
