-- ===== src/Uvc/Capture.antt =====
-- `MakeSnapshots`, `CaptureCameraSnapshots` and `main` (uvc_camera_stills/client/src/main.c) over
-- any behaviour of the camera, the file system and the wait for a camera.
pub mod Device
pub mod Protocol
use kos_ce_extra.Prelude.{
  ℕ, zero, suc, ◌+◌, ◌*◌, Bool, true, false, not, List, [], ◌∷◌, ◌++◌, Text, ltb, if◌then◌else◌,
}
use kos_ce_extra.Uvc.Jpeg.{Run, ended, fault, out_of_fuel, ◌>>=◌}
use kos_ce_extra.Uvc.Profiles.{
  Retcode, rc_ok, rc_resource_not_found, rc_no_capability, is_ok, is_not_found, PixelFormat, yuyv,
  mjpeg, other_format, Info, configure_camera,
}
use kos_ce_extra.Uvc.Frames.{Channels, TimeSpec, u32, FileSystem, Saved, save_yuyv, save_mjpeg}

-- The calls of the camera's library that change what it does, and whether they succeeded.
pub data Call : Type 0 where
  init_call open_call select_call enable_call read_call close_call : Bool → Call
  disable_call fini_call : Call

-- The library, the file system and the arithmetic of `YUYVToRGB`. `enum_profiles` gives the profiles
-- in order and the code behind the last one. `read_frame` fills a buffer of the given size.
pub record Driver (S : Type 0) : Type 0 where
  pub fs : FileSystem S
  pub channels : Channels
  pub camera_init : S → Retcode × S
  pub camera_fini : S → S
  pub enum_ports : S → Retcode × S
  pub open_port : S → Retcode × S
  pub close_port : S → Retcode × S
  pub enum_profiles : S → List Info × Retcode
  pub select_profile : ℕ → S → Retcode × S
  pub get_info : S → Retcode × Info
  pub enable : S → Retcode × S
  pub disable : S → S
  pub read_frame : ℕ → S → (Retcode × (ℕ → ℕ) × TimeSpec) × S
  pub sleep : S → S

-- What the client has done: its calls of the library, and the files with their bytes.
pub record Session (S : Type 0) : Type 0 where
  pub peer : S
  pub calls : List Call
  pub files : List (Text × List ℕ)

abbrev pub snapshot_count : ℕ
snapshot_count = 3

abbrev pub max_height_mjpeg : ℕ
max_height_mjpeg = 1080

abbrev pub max_height_yuyv : ℕ
max_height_yuyv = 240

-- A buffer of the given size with these bytes, from the index `i` on.
unfoldable pub tabulate : ℕ → ℕ → (ℕ → ℕ) → List ℕ
tabulate zero i f = []
tabulate (suc n) i f = f i ∷ tabulate n (i + 1) f

-- `info.resX * info.resY * rtl_max(info.bpp, 1)`.
unfoldable pub data_size : Info → ℕ
data_size info = u32 (info.res_x * info.res_y * (if ltb 1 info.bpp then info.bpp else 1))

abbrev pub is_supported : PixelFormat → Bool
is_supported yuyv = true
is_supported mjpeg = true
is_supported (other_format n) = false

module _ {S : Type 0} (d : Driver S) where
  -- A call with a code, in the session.
  unfoldable pub perform : (Bool → Call) → (S → Retcode × S) → Session S → Retcode × Session S
  perform call op s =
      let (rc, peer) = op s.peer in
      (rc, record s { peer = peer; calls = s.calls ++ call (is_ok rc) ∷ [] })

  unfoldable pub notify : Call → (S → S) → Session S → Session S
  notify call op s = record s { peer = op s.peer; calls = s.calls ++ call ∷ [] }

  -- The frame, by its format.
  unfoldable pub save_frame : Info → List ℕ → TimeSpec → Session S → Run (Retcode × Session S)
  save_frame info frame ts s =
      (elim info.pixel_format [
        | yuyv ↦ save_yuyv d.fs d.channels frame info ts s.peer
        | mjpeg ↦ save_mjpeg d.fs frame ts s.peer
        | other_format n ↦ fault
      ])
      >>= λ saved.
          ended (saved.rc, record s { peer = saved.peer; files = s.files ++ saved.written })

  -- One round of the loop.
  unfoldable pub take_snapshot : Info → Session S → Run (Retcode × Session S)
  take_snapshot info s =
      let size = data_size info in
      let ((rc, bytes, ts), peer) = d.read_frame size (d.sleep s.peer) in
      let s' = record s { peer = peer; calls = s.calls ++ read_call (is_ok rc) ∷ [] } in
      if is_ok rc then save_frame info (tabulate size 0 bytes) ts s' else ended (rc, s')

  -- The rounds that are left, and the code of the last one.
  unfoldable pub snapshots_loop : ℕ → Info → Retcode → Session S → Run (Retcode × Session S)
  snapshots_loop zero info rc s = ended (rc, s)
  snapshots_loop (suc n) info rc s =
      take_snapshot info s >>= λ (rc', s'). snapshots_loop n info rc' s'

  unfoldable pub make_snapshots : Session S → Run (Retcode × Session S)
  make_snapshots s =
      let (rc, info) = d.get_info s.peer in
      let (rc', s1) = perform enable_call d.enable s in
      if not (is_ok rc)
      then ended (rc, s)
      else if not (is_supported info.pixel_format)
      then ended (rc_no_capability, s)
      else if is_ok rc'
      then (snapshots_loop snapshot_count info rc' s1 >>= λ (rc'', s2).
          ended (rc'', notify disable_call d.disable s2))
      else ended (rc', s1)

  -- `ConfigureCamera` with a height and a format, and the snapshots; what they return is only logged.
  unfoldable pub try_format : ℕ → PixelFormat → Session S → Run (Session S)
  try_format height format s =
      let (infos, end) = d.enum_profiles s.peer in
      let (rc, s') =
        configure_camera (λ i. perform select_call (d.select_profile i)) infos end height format
          s in
      if is_ok rc then (make_snapshots s' >>= λ (rc', s''). ended s'') else ended s'

  -- `CaptureCameraSnapshots` behind `CameraOpenPort`.
  unfoldable pub with_camera : Session S → Run (Retcode × Session S)
  with_camera s = try_format max_height_mjpeg mjpeg s >>= λ s'.
      try_format max_height_yuyv yuyv s' >>= λ s''. ended (perform close_call d.close_port s'')

  -- The wait for a camera, with the rounds that are left: `out_of_fuel` is the client still waiting.
  unfoldable pub wait_camera : ℕ → Session S → Run (Retcode × Session S)
  wait_camera zero s = out_of_fuel
  wait_camera (suc rounds) s =
      let (rc, peer) = d.enum_ports s.peer in
      let again = wait_camera rounds (record s { peer = d.sleep peer }) in
      if is_not_found rc then again else ended (rc, record s { peer = peer })

  unfoldable pub capture : ℕ → Session S → Run (Retcode × Session S)
  capture rounds s = wait_camera rounds s >>= λ (rc, s').
      if is_ok rc
      then (let (rc', s'') = perform open_call d.open_port s' in
          if is_ok rc' then with_camera s'' else ended (rc', s''))
      else ended (rc, s')

  -- `main`: whether it ends with `EXIT_SUCCESS`.
  unfoldable pub camera_main : ℕ → S → Run (Bool × Session S)
  camera_main rounds peer =
      let (rc, s) =
        perform init_call d.camera_init (record { peer = peer; calls = []; files = [] }) in
      if is_ok rc
      then (capture rounds s >>= λ (rc', s'). ended (is_ok rc', notify fini_call d.camera_fini s'))
      else ended (false, s)
