-- ===== src/Uvc/Capture/Device.antt =====
-- The calls that the camera's library allows, and what it is in after them.
use kos_ce_extra.Prelude.{
  ◌⊎◌, Bool, true, false, Option, some, none, List, [], ◌∷◌, ◌++◌, Option-cases, if◌then◌else◌, ◌≡◌,
  refl, inl, inr, arith,
}
use kos_ce_extra.Uvc.Jpeg.{Run, ended, fault, out_of_fuel, ◌>>=◌}
use kos_ce_extra.Uvc.Profiles.{Retcode, yuyv, mjpeg, Info}
use kos_ce_extra.Uvc.Frames.Files.{IsWhole}
use kos_ce_extra.Uvc.Capture.{
  Call, init_call, open_call, select_call, enable_call, read_call, close_call, disable_call,
  fini_call, Session,
}

-- What the library is in.
pub data Device : Type 0 where
  off ready opened streaming : Device

-- The calls that the library allows, and what it is in after them. Nothing changes at a call that
-- fails, but a port is closed whatever `CameraClosePort` returns.
unfoldable pub device_step : Device → Call → Option Device
device_step off (init_call ok) = some (if ok then ready else off)
device_step ready (open_call ok) = some (if ok then opened else ready)
device_step ready fini_call = some off
device_step opened (select_call ok) = some opened
device_step opened (enable_call ok) = some (if ok then streaming else opened)
device_step opened (close_call ok) = some ready
device_step streaming (read_call ok) = some streaming
device_step streaming disable_call = some opened
device_step _ _ = none

unfoldable pub device_after : Device → List Call → Option Device
device_after v [] = some v
device_after v (c ∷ calls) = elim (device_step v c) [
  | none ↦ none
  | some v' ↦ device_after v' calls
]

pub device_after-snoc :
    (v : Device) (calls : List Call) (c : Call) (v' v'' : Device)
    → device_after v calls ≡ some v'
    → device_step v' c ≡ some v''
    → device_after v (calls ++ c ∷ []) ≡ some v''
unfolding device_after
device_after-snoc v [] c v' v'' h k =
    let same : v ≡ v' = ground arith in rw (device_after, same, k) refl
device_after-snoc v (c' ∷ calls) c v' v'' h k = elim (Option-cases (device_step v c')) [
  | inl e ↦ cc (rw (device_after, e) at h)
  | inr (w, e) ↦
      rw (device_after, e) (device_after-snoc w calls c v' v'' (rw (device_after, e) at h) k)
]

-- The library is in `v` after the calls of the session.
abbrev pub IsIn : {S : Type 0} → Device → Session S → Type 0
IsIn v s = device_after off s.calls ≡ some v

-- A part of the client ends, and the library is in `v`.
abbrev pub Ends : {A S : Type 0} → (A → Session S) → Device → Run A → Type 0
Ends session v (ended a) = IsIn v (session a)
Ends session v fault = ⊥
Ends session v out_of_fuel = ⊥

pub Ends->>= :
    {A B S : Type 0} (f : A → Session S) (g : B → Session S) (v w : Device) (m : Run A)
    (k : A → Run B)
    → Ends f v m
    → ((a : A) → IsIn v (f a) → Ends g w (k a))
    → Ends g w (m >>= k)
Ends->>= f g v w (ended a) k h step = step a h
Ends->>= f g v w fault k h step = h
Ends->>= f g v w out_of_fuel k h step = h

pub if-Ends :
    {A S : Type 0} (f : A → Session S) (v : Device) (b : Bool) (x y : Run A)
    → Ends f v x
    → Ends f v y
    → Ends f v (if b then x else y)
if-Ends f v true x y h k = h
if-Ends f v false x y h k = k

abbrev pub session_of : {S : Type 0} → Retcode × Session S → Session S
session_of r = r.1

-- A profile whose frames can be saved.
abbrev pub IsFrame : Info → Type 0
IsFrame info = (info.pixel_format ≡ mjpeg) ⊎ ((info.pixel_format ≡ yuyv) × IsWhole info)
