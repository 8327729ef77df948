-- ===== src/Image/Movement.antt =====
-- src/ImageProcessing/MovementDetectorBasic.cpp: what has changed from one frame to the next. What OpenCV
-- does with images is a parameter. The frame that is kept is its original image, which nothing writes to
-- once the camera has filled it.
pub mod Differences
use sec_mon.Prelude.{
  ℕ, ◌+◌, Bool, true, false, if◌then◌else◌, ltb, Option, none, some, List, [], ◌∷◌, get_elem?,
  modify,
}
use sec_mon.Prelude.Text.{codes}
use sec_mon.Frame.{cv_exception, ◌>>=◌, Frame, Error, Result, throws, returns, get_new_image}

-- `cvtColor` to gray and `absdiff`, with whether they take their arguments or throw, `threshold` at a
-- sensitivity, `findContours`, assigning a black scalar, whether `contourArea` is below a bound,
-- `drawContours` of one contour, and `morphologyEx` with a square of the given side.
pub record Vision (Image : Type 0) : Type 1 where
  pub Contour : Type 0
  pub takes_color : Image → Bool
  pub gray : Image → Image
  pub takes_both : Image → Image → Bool
  pub absdiff : Image → Image → Image
  pub threshold : ℕ → Image → Image
  pub find_contours : Image → List Contour
  pub black : Image → Image
  pub area_below : ℕ → Contour → Bool
  pub draw_contour : Contour → Image → Image
  pub close : ℕ → Image → Image

abbrev pub sensitivity_value : ℕ
sensitivity_value = 20

abbrev pub difference_interval : ℕ
difference_interval = 1

-- `previous_frame_` and `frames_since_last_diff_`.
pub record Detector (Image : Type 0) : Type 0 where
  pub previous_frame : Option Image
  pub frames_since_last_diff : ℕ

abbrev pub new_detector : {Image : Type 0} → Detector Image
new_detector = record { previous_frame = none; frames_since_last_diff = 0 }

module _ {Image : Type 0} (cv : Vision Image) where
  open cv use {
    Contour, takes_color, gray, takes_both, absdiff, threshold, find_contours, black, area_below,
    draw_contour, close,
  }

  -- The loop over the contours, which drops the smaller ones.
  unfoldable pub draw_blobs : List Contour → Image → Image
  draw_blobs [] image = image
  draw_blobs (c ∷ cs) image = draw_blobs cs (if area_below 5 c then image else draw_contour c image)

  -- The foreground of an image after another.
  unfoldable pub foreground : Image → Image → Image
  unfolding draw_blobs
  foreground current previous =
      let changed = threshold sensitivity_value (absdiff (gray current) (gray previous)) in
      close 25 (draw_blobs (find_contours changed) (black changed))

  -- A call of OpenCV that throws unless it takes its arguments.
  abbrev pub checked : {B : Type 0} → Bool → B → Result B
  checked ok x = if ok then returns x else throws cv_exception

  abbrev pub write_foreground :
      Image → Image → Result (Frame Image × ℕ) → Result (Detector Image × Frame Image)
  write_foreground current previous r = do
    (f, i) ← r
    difference ← checked (takes_both (gray current) (gray previous)) (foreground current previous)
    returns (
      record { previous_frame = some current; frames_since_last_diff = 0 },
      record f { images = modify i (λ x. difference) f.images },
    )

  abbrev pub compare_with :
      ℕ
      → Frame Image
      → Option Image
      → Option Image
      → Detector Image
      → Result (Detector Image × Frame Image)
  compare_with n f none previous d = returns (d, f)
  compare_with n f (some current) none d =
      returns (record { previous_frame = some current; frames_since_last_diff = n }, f)
  compare_with n f (some current) (some previous) d =
      if ltb n difference_interval then returns (record d { frames_since_last_diff = n }, f) else do
        converted ← checked (takes_color current) current
        converted ← checked (takes_color previous) previous
        write_foreground current previous (get_new_image f (codes "foreground"))

  -- `process_next_frame`, for a frame with its original image in the first slot.
  unfoldable pub detect_movement :
      Detector Image → Frame Image → Result (Detector Image × Frame Image)
  unfolding foreground get_new_image
  detect_movement d f =
      compare_with (d.frames_since_last_diff + 1) f (get_elem? f.images 0) d.previous_frame d
