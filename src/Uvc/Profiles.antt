-- ===== src/Uvc/Profiles.antt =====
-- `ConfigureCamera` (uvc_camera_stills/client/src/main.c): which of the camera's profiles is taken.
pub mod Best
use kos_ce_extra.Prelude.{
  ℕ, ◌+◌, Bool, true, false, ◌&&◌, Option, none, some, List, [], ◌∷◌, ltb, leb, ◌==◌, if◌then◌else◌,
}

-- The codes that the client tells apart, and any other.
pub data Retcode : Type 0 where
  rc_ok rc_fail rc_resource_not_found rc_no_capability : Retcode
  rc_other : ℕ → Retcode

abbrev pub is_ok : Retcode → Bool
is_ok rc_ok = true
is_ok rc_fail = false
is_ok rc_resource_not_found = false
is_ok rc_no_capability = false
is_ok (rc_other n) = false

abbrev pub is_not_found : Retcode → Bool
is_not_found rc_ok = false
is_not_found rc_fail = false
is_not_found rc_resource_not_found = true
is_not_found rc_no_capability = false
is_not_found (rc_other n) = false

pub data PixelFormat : Type 0 where
  yuyv mjpeg : PixelFormat
  other_format : ℕ → PixelFormat

unfoldable pub format_eq : PixelFormat → PixelFormat → Bool
format_eq yuyv yuyv = true
format_eq mjpeg mjpeg = true
format_eq (other_format a) (other_format b) = a == b
format_eq _ _ = false

-- What the client reads of a `CameraInfo`; it only logs `fps`.
pub record Info : Type 0 where
  pub res_x : ℕ
  pub res_y : ℕ
  pub fps : ℕ
  pub bpp : ℕ
  pub pixel_format : PixelFormat

-- The body of the loop over the profiles: whether the profile is the best so far.
unfoldable pub is_better : ℕ → PixelFormat → ℕ → Info → Bool
unfolding format_eq
is_better height format best_height info =
    format_eq info.pixel_format format && (leb info.res_y height && ltb best_height info.res_y)

-- The loop over the profiles from the index `i` on; `none` is the index -1.
unfoldable pub best_from : ℕ → PixelFormat → ℕ → ℕ → Option ℕ → List Info → Option ℕ
unfolding is_better
best_from height format i best_height best [] = best
best_from height format i best_height best (info ∷ infos) =
    let better = is_better height format best_height info in
    best_from height format (i + 1) (if better then info.res_y else best_height)
      (if better then some i else best) infos

-- `ConfigureCamera` over the profiles that `CameraEnumProfiles` gives and the code behind the last
-- of them; `select` is `CameraSelectProfile`.
unfoldable pub configure_camera :
    {S : Type 0} → (ℕ → S → Retcode × S) → List Info → Retcode → ℕ → PixelFormat → S → Retcode × S
unfolding best_from
configure_camera select infos rc height format s =
    if is_not_found rc
    then (elim (best_from height format 0 0 none infos) [
      | none ↦ (rc_resource_not_found, s)
      | some index ↦ select index s
    ])
    else (rc, s)
