-- ===== src/Uvc.antt =====
-- examples/uvc_camera_stills: a client that takes pictures with a camera and saves them.
pub mod Jpeg
pub mod Profiles
pub mod Frames
pub mod Capture
mod Tests
