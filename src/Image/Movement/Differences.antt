-- ===== src/Image/Movement/Differences.antt =====
-- The frames of a camera in turn, as src/ImageProcessing/MovementDetectorBasic.cpp sees them.
use sec_mon.Prelude.{
  map, ◌∙◌, ap, ltb, true, false, ℕ, ◌+◌, ◌≡◌, refl, Option, none, some, List, [], ◌∷◌, arith,
  modify,
}
use sec_mon.Prelude.Text.{codes, bytes_eq}
use sec_mon.Frame.{Frame, Result, throws, returns, new_frame, get_new_image, take_slot}
use sec_mon.Image.Movement.{
  Vision, Detector, new_detector, foreground, detect_movement, compare_with,
}

module _ {Image : Type 0} where
  -- A new frame with an image that the camera has read.
  unfoldable pub captured : Image → Image → Image → Frame Image
  captured no_image zeros image =
      let f = new_frame no_image zeros in record f { images = modify 0 (λ x. image) f.images }

  -- And with an image of the name "foreground".
  unfoldable pub with_foreground : Image → Image → Image → Image → Frame Image
  unfolding captured
  with_foreground no_image zeros image difference =
      let f = captured no_image zeros image in
      record f {
        images = modify 2 (λ x. difference) f.images;
        image_names =
            codes "original"
            ∷ codes "overlay"
            ∷ codes "foreground"
            ∷ []
            ∷ []
            ∷ []
            ∷ []
            ∷ []
            ∷ []
            ∷ []
            ∷ [];
      }

  -- The detector that keeps an image.
  abbrev pub kept : Image → ℕ → Detector Image
  kept image n = record { previous_frame = some image; frames_since_last_diff = n }

module _ {Image : Type 0} (cv : Vision Image) where
  -- OpenCV converts an image and the one before to gray, and compares them.
  abbrev pub Takes : Image → Image → Type 0
  Takes previous image =
      (cv.takes_color previous ≡ true)
      × (cv.takes_color image ≡ true)
      × (cv.takes_both (cv.gray image) (cv.gray previous) ≡ true)

  abbrev pub Fits : Option Image → List Image → Type 0
  Fits previous [] = Unit
  Fits none (image ∷ images) = Fits (some image) images
  Fits (some previous) (image ∷ images) = Takes previous image × Fits (some image) images

  abbrev prepend : Frame Image → Result (List (Frame Image)) → Result (List (Frame Image))
  prepend f (throws e) = throws e
  prepend f (returns fs) = returns (f ∷ fs)

  -- The detector on frames in turn.
  unfoldable pub detect_all : Detector Image → List (Frame Image) → Result (List (Frame Image))
  unfolding detect_movement
  detect_all d [] = returns []
  detect_all d (f ∷ fs) = elim (detect_movement cv d f) [
    | throws e ↦ throws e
    | returns (d', f') ↦ prepend f' (detect_all d' fs)
  ]

  detect_all-nil : (d : Detector Image) → detect_all d [] ≡ returns []
  unfolding detect_all
  detect_all-nil d = refl

  detect_all-cons :
      (d d' : Detector Image) (f f' : Frame Image) (fs : List (Frame Image))
      → detect_movement cv d f ≡ returns (d', f')
      → detect_all d (f ∷ fs) ≡ prepend f' (detect_all d' fs)
  unfolding detect_all
  detect_all-cons d d' f f' fs e = rw (e, detect_all) refl

  module _ (no_image zeros : Image) where
    -- Every image with what differs from the image before it.
    unfoldable pub differences : Option Image → List Image → List (Frame Image)
    unfolding captured with_foreground
    differences none [] = []
    differences (some previous) [] = []
    differences none (image ∷ images) =
        captured no_image zeros image ∷ differences (some image) images
    differences (some previous) (image ∷ images) =
        with_foreground no_image zeros image (foreground cv image previous)
        ∷ differences (some image) images

    -- A frame behind another one.
    pub detect_movement-next :
        (d : Detector Image) (previous image : Image)
        → d.previous_frame ≡ some previous
        → Takes previous image
        → detect_movement cv d (captured no_image zeros image)
          ≡ returns
              (kept image 0, with_foreground no_image zeros image (foreground cv image previous))
    unfolding detect_movement captured with_foreground get_new_image take_slot bytes_eq
    detect_movement-next d previous image e (b, c, a) =
        let due : ltb (d.frames_since_last_diff + 1) 1 ≡ false = ground arith in
        rw (e, due, c, b, a, compare_with) refl

    -- The first frame.
    pub detect_movement-first :
        (image : Image)
        → detect_movement cv new_detector (captured no_image zeros image)
          ≡ returns (kept image 1, captured no_image zeros image)
    unfolding detect_movement captured
    detect_movement-first image =
        ap (λ n. returns (kept image n, captured no_image zeros image)) (omega arith)

    detect_all-from :
        (d : Detector Image) (previous : Image) (images : List Image)
        → d.previous_frame ≡ some previous
        → Fits (some previous) images
        → detect_all d (map (captured no_image zeros) images)
          ≡ returns (differences (some previous) images)
    unfolding detect_all differences
    detect_all-from d previous [] e t = refl
    detect_all-from d previous (image ∷ images) e t =
        detect_all-cons d (kept image 0) (captured no_image zeros image) _
          (map (captured no_image zeros) images) (detect_movement-next d previous image e t.0)
        ∙ ap (prepend _) (detect_all-from (kept image 0) image images refl t.1)

    -- On new frames with images of which OpenCV converts each to gray and compares each with the one
    -- before, the detector throws nothing. It leaves the first frame as it is, and gives every later
    -- one, as its only further image, what differs from the frame just before it.
    pub detect_all-differences :
        (images : List Image)
        → Fits none images
        → detect_all new_detector (map (captured no_image zeros) images)
          ≡ returns (differences none images)
    unfolding differences
    detect_all-differences [] t = detect_all-nil new_detector
    detect_all-differences (image ∷ images) t =
        detect_all-cons new_detector (kept image 1) (captured no_image zeros image) _
          (map (captured no_image zeros) images) (detect_movement-first image)
        ∙ ap (prepend _) (detect_all-from (kept image 1) image images refl t)
