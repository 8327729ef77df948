-- ===== src/ImageSource.antt =====
-- src/ImageSource/ImageSource.cpp: the first element of a scene's pipeline, which makes a new frame and has
-- its camera fill it.
pub mod Cycle
pub mod Attempts
use sec_mon.Prelude.{Option, none, some, ℕ, Bool, true, false, ◌⊎◌, inl, inr}
use sec_mon.Prelude.Text.{Bytes}
use sec_mon.Frame.{Frame, new_frame}
use sec_mon.Camera.{Capture, Camera, CameraError, new_camera, get_next_frame, restart}

-- What `process_next_frame` throws: the text for a camera that reads nothing after a restart, or, after
-- `throw e`, a bare `std::exception` in the place of the camera's own.
pub data Failure : Type 0 where
  failed_after_restart : Failure
  bare_exception : Failure

-- `camera_`, `width_` and `height_`.
pub record ImageSource (State : Type 0) : Type 0 where
  pub camera : Camera State
  pub width : ℕ
  pub height : ℕ

module _ {State Image : Type 0} (cv : Capture State Image) where
  abbrev pub with_camera : CameraError ⊎ Camera State → CameraError ⊎ ImageSource State
  with_camera (inl e) = inl e
  with_camera (inr c) = inr (record { camera = c; width = c.width; height = c.height })

  -- The constructor.
  unfoldable pub new_image_source : Bytes → State → CameraError ⊎ ImageSource State
  unfolding new_camera
  new_image_source url s = with_camera (new_camera cv url s)

  -- The second attempt, on the same frame.
  abbrev pub second_attempt :
      ImageSource State
      → Bool × Camera State × Frame Image
      → (Failure ⊎ Frame Image) × ImageSource State
  second_attempt s (true, c, f) = (inr f, record s { camera = c })
  second_attempt s (false, c, f) = (inl failed_after_restart, record s { camera = c })

  abbrev pub after_restart :
      Bytes
      → ImageSource State
      → Frame Image
      → Option CameraError × Camera State
      → (Failure ⊎ Frame Image) × ImageSource State
  after_restart now s f (some e, c) = (inl bare_exception, record s { camera = c })
  after_restart now s f (none, c) = second_attempt s (get_next_frame cv now c f)

  abbrev pub first_attempt :
      Bytes
      → ImageSource State
      → Bool × Camera State × Frame Image
      → (Failure ⊎ Frame Image) × ImageSource State
  first_attempt now s (true, c, f) = (inr f, record s { camera = c })
  first_attempt now s (false, c, f) = after_restart now (record s { camera = c }) f (restart cv c)

  -- `process_next_frame`, with the images of a new frame of the camera's size.
  unfoldable pub next_frame :
      Image
      → (ℕ → ℕ → Image)
      → Bytes
      → ImageSource State
      → (Failure ⊎ Frame Image) × ImageSource State
  unfolding get_next_frame restart
  next_frame no_image zeros now s =
      first_attempt now s
        (get_next_frame cv now s.camera (new_frame no_image (zeros s.width s.height)))
