-- ===== src/Uvc/Capture/Protocol.antt =====
-- The order in which the client calls the camera's library.
use kos_ce_extra.Prelude.{
  ℕ, zero, suc, ◌+◌, ◌*◌, length, ap, ◌⊎◌, Bool, true, false, not, some, none, List, [], ◌∷◌, ◌++◌,
  Bool-cases, Option-cases, if◌then◌else◌, ◌≡◌, refl, ◌∙◌, inl, inr,
}
use kos_ce_extra.Uvc.Jpeg.{Run}
use kos_ce_extra.Uvc.Profiles.{
  Retcode, is_ok, is_not_found, PixelFormat, yuyv, mjpeg, Info, best_from, configure_camera,
}
use kos_ce_extra.Uvc.Frames.{TimeSpec, u32}
use kos_ce_extra.Uvc.Frames.Files.{save_mjpeg_ends, save_yuyv_ends}
use kos_ce_extra.Uvc.Capture.{
  Call, init_call, open_call, select_call, enable_call, read_call, close_call, disable_call,
  fini_call, Driver, Session, tabulate, data_size, snapshot_count, is_supported, perform, notify,
  save_frame, take_snapshot, snapshots_loop, make_snapshots, try_format, with_camera, wait_camera,
  capture, camera_main,
}
use kos_ce_extra.Uvc.Capture.Device.{
  Device, off, ready, opened, streaming, device_step, device_after, device_after-snoc, IsIn, Ends,
  Ends->>=, if-Ends, session_of, IsFrame,
}

length-tabulate : (n i : ℕ) (f : ℕ → ℕ) → length (tabulate n i f) ≡ n
unfolding tabulate
length-tabulate zero i f = refl
length-tabulate (suc n) i f = ap suc (length-tabulate n (i + 1) f)

module _ {S : Type 0} (d : Driver S) where
  perform-IsIn :
      (v w : Device) (call : Bool → Call) (op : S → Retcode × S) (s : Session S)
      → IsIn v s
      → device_step v (call (is_ok (op s.peer).0)) ≡ some w
      → IsIn w (perform d call op s).1
  unfolding perform
  perform-IsIn v w call op s h k = device_after-snoc off s.calls _ v w h k

  -- A call with a code, and what follows it by the code.
  performed-Ends :
      {A : Type 0} (f : A → Session S) (v v1 v0 w : Device) (call : Bool → Call)
      (op : S → Retcode × S) (s : Session S) (x y : Run A)
      → IsIn v s
      → device_step v (call true) ≡ some v1
      → device_step v (call false) ≡ some v0
      → (IsIn v1 (perform d call op s).1 → Ends f w x)
      → (IsIn v0 (perform d call op s).1 → Ends f w y)
      → Ends f w (if is_ok (perform d call op s).0 then x else y)
  unfolding perform
  performed-Ends f v v1 v0 w call op s x y h k1 k0 ok bad =
      elim (Bool-cases (is_ok (op s.peer).0)) [
        | inl e ↦ rw e (ok (device_after-snoc off s.calls _ v v1 h (rw e k1)))
        | inr e ↦ rw e (bad (device_after-snoc off s.calls _ v v0 h (rw e k0)))
      ]

  notify-IsIn :
      (v w : Device) (call : Call) (op : S → S) (s : Session S)
      → IsIn v s
      → device_step v call ≡ some w
      → IsIn w (notify d call op s)
  unfolding notify
  notify-IsIn v w call op s h k = device_after-snoc off s.calls call v w h k

  save_frame-Ends :
      (v : Device) (info : Info) (frame : List ℕ) (ts : TimeSpec) (s : Session S)
      → IsFrame info
      → length frame ≡ data_size info
      → IsIn v s
      → Ends session_of v (save_frame d info frame ts s)
  unfolding save_frame
  save_frame-Ends v info frame ts s (inl format) size h =
      let (saved, e) = save_mjpeg_ends d.fs frame ts s.peer in rw (save_frame, format, e) h
  save_frame-Ends v info frame ts s (inr (format, whole)) size h =
      let (two, even, small) = whole in
      let bytes : data_size info ≡ u32 (info.res_x * info.res_y * 2) =
        unfold data_size in rw two refl in
      let (saved, e) = save_yuyv_ends d.fs d.channels frame info ts s.peer whole (size ∙ bytes) in
      rw (save_frame, format, e) h

  take_snapshot-Ends :
      (info : Info) (s : Session S)
      → IsFrame info
      → IsIn streaming s
      → Ends session_of streaming (take_snapshot d info s)
  unfolding take_snapshot
  take_snapshot-Ends info s frames h =
      let read = d.read_frame (data_size info) (d.sleep s.peer) in
      let s' : Session S = record s {
        peer = read.1;
        calls = s.calls ++ read_call (is_ok read.0.0) ∷ [];
      } in
      let h' : IsIn streaming s' =
        device_after-snoc off s.calls (read_call (is_ok read.0.0)) streaming streaming h
          (unfold device_step in refl) in
      if-Ends session_of streaming (is_ok read.0.0) _ _
        (save_frame-Ends streaming info _ read.0.2 s' frames
          (length-tabulate (data_size info) 0 read.0.1) h')
        h'

  snapshots_loop-Ends :
      (n : ℕ) (info : Info) (rc : Retcode) (s : Session S)
      → IsFrame info
      → IsIn streaming s
      → Ends session_of streaming (snapshots_loop d n info rc s)
  unfolding snapshots_loop
  snapshots_loop-Ends zero info rc s frames h = h
  snapshots_loop-Ends (suc n) info rc s frames h =
      Ends->>= session_of session_of streaming streaming (take_snapshot d info s) _
        (take_snapshot-Ends info s frames h)
        (λ (rc', s') h'. snapshots_loop-Ends n info rc' s' frames h')

  module _
      (frames : (p : S)
        → is_supported (d.get_info p).1.pixel_format ≡ true
        → IsFrame (d.get_info p).1) where
    make_snapshots-Ends :
        (s : Session S) → IsIn opened s → Ends session_of opened (make_snapshots d s)
    unfolding make_snapshots
    make_snapshots-Ends s h =
        let got = d.get_info s.peer in
        if-Ends session_of opened (not (is_ok got.0)) _ _ h
          (elim (Bool-cases (is_supported got.1.pixel_format)) [
            | inr e ↦ rw e h
            | inl e ↦ rw e (
                performed-Ends session_of opened streaming opened opened enable_call d.enable s _ _
                  h (unfold device_step in refl) (unfold device_step in refl)
                  (λ on.
                    Ends->>= session_of session_of streaming opened
                      (snapshots_loop d snapshot_count got.1 _ _) _
                      (snapshots_loop-Ends snapshot_count got.1 _ _ (frames s.peer e) on)
                      (λ (rc, s') h'.
                        notify-IsIn streaming opened disable_call d.disable s' h'
                          (unfold device_step in refl)))
                  (λ still. still))
          ])

    configure_camera-IsIn :
        (infos : List Info) (end : Retcode) (height : ℕ) (format : PixelFormat) (s : Session S)
        → IsIn opened s
        → IsIn opened
            (configure_camera
              (λ i. perform d select_call (d.select_profile i))
              infos
              end
              height
              format
              s).1
    unfolding configure_camera
    configure_camera-IsIn infos end height format s h = elim (Bool-cases (is_not_found end)) [
      | inr other ↦ rw (configure_camera, other) h
      | inl last ↦ elim (Option-cases (best_from height format 0 0 none infos)) [
        | inl e ↦ rw (configure_camera, last, e) h
        | inr (k, e) ↦
            rw (configure_camera, last, e)
              (perform-IsIn opened opened select_call (d.select_profile k) s h
                (unfold device_step in refl))
      ]
    ]

    try_format-Ends :
        (height : ℕ) (format : PixelFormat) (s : Session S)
        → IsIn opened s
        → Ends (λ s'. s') opened (try_format d height format s)
    unfolding try_format
    try_format-Ends height format s h =
        let (infos, end) = d.enum_profiles s.peer in
        let select = λ (i : ℕ). perform d select_call (d.select_profile i) in
        let h' = configure_camera-IsIn infos end height format s h in
        if-Ends (λ s'. s') opened (is_ok (configure_camera select infos end height format s).0) _ _
          (Ends->>= session_of (λ s'. s') opened opened (make_snapshots d _) _
            (make_snapshots-Ends _ h') (λ r k. k))
          h'

    with_camera-Ends : (s : Session S) → IsIn opened s → Ends session_of ready (with_camera d s)
    unfolding with_camera
    with_camera-Ends s h =
        Ends->>= (λ s'. s') session_of opened ready (try_format d 1080 mjpeg s) _
          (try_format-Ends 1080 mjpeg s h)
          (λ s' h'.
            Ends->>= (λ s''. s'') session_of opened ready (try_format d 240 yuyv s') _
              (try_format-Ends 240 yuyv s' h')
              (λ s'' h''.
                perform-IsIn opened ready close_call d.close_port s'' h''
                  (unfold device_step in refl)))

    -- The search for a camera gives another code than `rcResourceNotFound` within these rounds.
    abbrev pub Appears : ℕ → S → Type 0
    Appears zero p = ⊥
    Appears (suc rounds) p =
        (is_not_found (d.enum_ports p).0 ≡ false) ⊎ Appears rounds (d.sleep (d.enum_ports p).1)

    wait_camera-Ends :
        (rounds : ℕ) (s : Session S)
        → Appears rounds s.peer
        → IsIn ready s
        → Ends session_of ready (wait_camera d rounds s)
    unfolding wait_camera
    wait_camera-Ends zero s appears h = appears
    wait_camera-Ends (suc rounds) s (inl found) h = rw (wait_camera, found) h
    wait_camera-Ends (suc rounds) s (inr later) h =
        if-Ends session_of ready (is_not_found (d.enum_ports s.peer).0) _ _
          (wait_camera-Ends rounds _ later h) h

    capture-Ends :
        (rounds : ℕ) (s : Session S)
        → Appears rounds s.peer
        → IsIn ready s
        → Ends session_of ready (capture d rounds s)
    unfolding capture
    capture-Ends rounds s appears h =
        Ends->>= session_of session_of ready ready (wait_camera d rounds s) _
          (wait_camera-Ends rounds s appears h)
          (λ (rc, s') h'.
            if-Ends session_of ready (is_ok rc) _ _
              (performed-Ends session_of ready opened ready ready open_call d.open_port s' _ _ h'
                (unfold device_step in refl) (unfold device_step in refl) (with_camera-Ends _)
                (λ still. still))
              h')

    -- Where each supported profile that is selected is MJPEG or passes the assertions on uncompressed
    -- frames, and a search for a camera gives another code than `rcResourceNotFound` within the
    -- rounds, `main` ends, with no assertion that fails. The client has then called the camera's
    -- library only in the order that it allows, whatever the codes of the calls, and leaves nothing
    -- on: the camera is disabled if it was enabled, its port closed if it was opened, and the library
    -- is off.
    pub camera_main-off :
        (rounds : ℕ) (peer : S)
        → Appears rounds (d.camera_init peer).1
        → Ends (λ r. r.1) off (camera_main d rounds peer)
    unfolding camera_main device_after
    camera_main-off rounds peer appears =
        let s0 : Session S = record { peer = peer; calls = []; files = [] } in
        let s1 = (perform d init_call d.camera_init s0).1 in
        let appears' : Appears rounds s1.peer = unfold perform in appears in
        let session_after : Bool × Session S → Session S = λ r. r.1 in
        performed-Ends session_after off ready off off init_call d.camera_init s0 _ _ refl
          (unfold device_step in refl) (unfold device_step in refl)
          (λ on.
            Ends->>= session_of session_after ready off (capture d rounds s1) _
              (capture-Ends rounds s1 appears' on)
              (λ (rc, s') h'.
                notify-IsIn ready off fini_call d.camera_fini s' h' (unfold device_step in refl)))
          (λ still. still)
