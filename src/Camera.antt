-- ===== src/Camera.antt =====
-- src/ImageSource/Camera.cpp: a camera or a video file. `cv::VideoCapture` is a parameter, with its state.
use sec_mon.Prelude.{
  Option, none, some, ℕ, Bool, if◌then◌else◌, ◌||◌, not, ◌⊎◌, inl, inr, modify, take,
}
use sec_mon.Prelude.Text.{Bytes, codes, bytes_eq, decimal}
use sec_mon.Frame.{Frame, set_display_time}

-- `cv::VideoCapture`: opening a source and whether that worked, reading the next image, which also
-- writes the image it is given, the properties for the rate and the position, and `release`. And the
-- size of a `cv::Mat`.
pub record Capture (State Image : Type 0) : Type 0 where
  pub open_source : Bytes → State → State
  pub is_opened : State → Bool
  pub read : State → Bool × Image × State
  pub fps : State → ℕ
  pub pos_frames : State → ℕ
  pub release : State → State
  pub is_empty_image : Image → Bool
  pub cols : Image → ℕ
  pub rows : Image → ℕ

-- The `runtime_error`s, by their messages.
pub data CameraError : Type 0 where
  could_not_open : CameraError
  no_first_image : CameraError
  could_not_reopen : CameraError

pub record Camera (State : Type 0) : Type 0 where
  pub source : Bytes
  pub camera : State
  pub frames_per_second : ℕ
  pub width : ℕ
  pub height : ℕ
  pub real_camera : Bool

module _ {State Image : Type 0} (cv : Capture State Image) where
  open cv use {open_source, is_opened, read, fps, pos_frames, release, is_empty_image, cols, rows}

  abbrev pub connected : Bytes → Bool × Image × State → CameraError ⊎ Camera State
  connected source (ok, image, s) =
      if not ok || is_empty_image image
      then inl no_first_image
      else inr (record {
        source = source;
        camera = s;
        frames_per_second = fps s;
        width = cols image;
        height = rows image;
        real_camera = bytes_eq (take 4 source) (codes "http");
      })

  -- The constructor.
  unfoldable pub new_camera : Bytes → State → CameraError ⊎ Camera State
  new_camera source s =
      let opened = open_source source s in
      if is_opened opened then connected source (read opened) else inl could_not_open

  -- The text for a frame that has been read: the time, or the number of the frame.
  abbrev pub display_text : Bytes → Bool → State → Bytes
  display_text now real s = if real then now else decimal (pos_frames s)

  abbrev pub store :
      Bytes → Camera State → Frame Image → Bool × Image × State → Bool × Camera State × Frame Image
  store now c f (ok, image, s) =
      let g = record f { images = modify 0 (λ x. image) f.images } in
      (
        ok,
        record c { camera = s },
        if ok then set_display_time g (display_text now c.real_camera s) else g,
      )

  -- `get_next_frame`, at a time.
  unfoldable pub get_next_frame :
      Bytes → Camera State → Frame Image → Bool × Camera State × Frame Image
  get_next_frame now c f = store now c f (read c.camera)

  -- `restart`, with the exception it throws.
  unfoldable pub restart : Camera State → Option CameraError × Camera State
  restart c =
      let opened = open_source c.source (release c.camera) in
      (if is_opened opened then none else some could_not_reopen, record c { camera = opened })
