-- ===== src/Image/Processor.antt =====
-- src/ImageProcessing/ImageProcessor.cpp: the movement detector and the region detector, one after the
-- other, on the frames of a camera.
use sec_mon.Prelude.{
  ℕ, ◌≡◌, refl, ap, ◌∙◌, false, Option, none, some, List, [], ◌∷◌, map, modify, get_elem?,
}
use mathlib.Core.List.{Permᴰ}
use sec_mon.Prelude.Text.{codes, bytes_eq}
use sec_mon.Frame.{Frame, Result, not_registered, throws, returns, get_image, find_name}
use sec_mon.Image.{Rect, Covers}
use sec_mon.Image.Roi.{RectOps}
use sec_mon.Image.Roi.Overlap.{IsRectOps}
use sec_mon.Image.Regions.{
  Contours, find_regions, find_regions-missing, find_regions-IsCovered, draw_regions,
}
use sec_mon.Image.Movement.{Vision, Detector, new_detector, foreground, detect_movement}
use sec_mon.Image.Movement.Differences.{
  captured, with_foreground, kept, Takes, Fits, detect_movement-first, detect_movement-next,
}

module _ {Image : Type 0} (vision : Vision Image) (contours : Contours Image)
    (sort : List Rect → List Rect) (ops : RectOps) where
  abbrev pub then_find_regions :
      Result (Detector Image × Frame Image) → Option (Result (Detector Image × Frame Image))
  then_find_regions (throws e) = some (throws e)
  then_find_regions (returns (d, f)) = elim (find_regions contours sort ops f) [
    | none ↦ none
    | some f' ↦ some (returns (d, f'))
  ]

  -- `process_next_frame`. `none` is an access outside a vector.
  unfoldable pub process_frame :
      Detector Image → Frame Image → Option (Result (Detector Image × Frame Image))
  unfolding detect_movement find_regions
  process_frame d f = then_find_regions (detect_movement vision d f)

  abbrev prepend :
      Frame Image → Option (Result (List (Frame Image))) → Option (Result (List (Frame Image)))
  prepend f none = none
  prepend f (some (throws e)) = some (throws e)
  prepend f (some (returns fs)) = some (returns (f ∷ fs))

  -- Frames in turn.
  unfoldable pub process_all :
      Detector Image → List (Frame Image) → Option (Result (List (Frame Image)))
  unfolding process_frame
  process_all d [] = some (returns [])
  process_all d (f ∷ fs) = elim (process_frame d f) [
    | none ↦ none
    | some (throws e) ↦ some (throws e)
    | some (returns (d', f')) ↦ prepend f' (process_all d' fs)
  ]

  process_frame_lem :
      (d : Detector Image) (f g h : Frame Image) (d' : Detector Image)
      → detect_movement vision d f ≡ returns (d', g)
      → find_regions contours sort ops g ≡ some h
      → process_frame d f ≡ some (returns (d', h))
  unfolding process_frame
  process_frame_lem d f g h d' e k = rw e (rw (k, then_find_regions) refl)

  process_all-nil : (d : Detector Image) → process_all d [] ≡ some (returns [])
  unfolding process_all
  process_all-nil d = refl

  process_all-cons :
      (d d' : Detector Image) (f f' : Frame Image) (fs : List (Frame Image))
      → process_frame d f ≡ some (returns (d', f'))
      → process_all d (f ∷ fs) ≡ prepend f' (process_all d' fs)
  unfolding process_all
  process_all-cons d d' f f' fs e = rw (e, process_all) refl

  open contours use {Contour, find_contours, area_below, bounding_rect}

  -- The regions of the frame cover what differs from the image before.
  abbrev pub IsMarked : Image → Image → Frame Image → Type 0
  IsMarked previous image f =
      (k : ℕ) (c : Contour)
      → get_elem? (find_contours (foreground vision image previous)) k ≡ some c
      → area_below 8 c ≡ false
      → (j : ℕ) × (t : Rect) × (get_elem? f.regions_of_interest j ≡ some t)
        × Covers t (bounding_rect c)

  module _ (no_image zeros : Image) where
    -- The first frame is left as it is; every later one is marked, and has the image it was given.
    abbrev pub IsWatched : Option Image → List Image → List (Frame Image) → Type 0
    IsWatched previous [] [] = Unit
    IsWatched previous [] (f ∷ fs) = ⊥
    IsWatched previous (image ∷ images) [] = ⊥
    IsWatched none (image ∷ images) (f ∷ fs) =
        (f ≡ captured no_image zeros image) × IsWatched (some image) images fs
    IsWatched (some previous) (image ∷ images) (f ∷ fs) =
        (get_elem? f.images 0 ≡ some image)
        × IsMarked previous image f
        × IsWatched (some image) images fs

    no_foreground :
        (image : Image)
        → get_image (captured no_image zeros image) (codes "foreground") ≡ throws not_registered
    unfolding get_image captured find_name bytes_eq
    no_foreground image = refl

    foreground_slot :
        (image difference : Image)
        → get_image (with_foreground no_image zeros image difference) (codes "foreground")
          ≡ returns 2
    unfolding get_image with_foreground captured find_name bytes_eq
    foreground_slot image difference = refl

    slot_two :
        (image difference : Image)
        → get_elem? (with_foreground no_image zeros image difference).images 2 ≡ some difference
    unfolding with_foreground captured
    slot_two image difference = refl

    slot_zero :
        (image difference : Image) (draw : Image → Image)
        → get_elem? (modify 1 draw (with_foreground no_image zeros image difference).images) 0
          ≡ some image
    unfolding with_foreground captured
    slot_zero image difference draw = refl

    module _ (laws : IsRectOps ops) (permutes : (rs : List Rect) → Permᴰ rs (sort rs)) where
      process_frame-next :
          (d : Detector Image) (previous image : Image)
          → d.previous_frame ≡ some previous
          → Takes vision previous image
          → (f : Frame Image) × (process_frame d (captured no_image zeros image)
              ≡ some (returns (kept image 0, f)))
            × (get_elem? f.images 0 ≡ some image)
            × IsMarked previous image f
      process_frame-next d previous image e t =
          let difference = foreground vision image previous in
          let w = with_foreground no_image zeros image difference in
          let (f, found, old, marked, images, names) =
            find_regions-IsCovered contours sort ops laws permutes w 2 difference
              (foreground_slot image difference) (slot_two image difference) in
          (
            f,
            process_frame_lem d (captured no_image zeros image) w f (kept image 0)
                (detect_movement-next vision no_image zeros d previous image e t) found,
            ap (λ l. get_elem? l 0) images
                ∙ slot_zero image difference (draw_regions contours f.regions_of_interest),
            marked,
          )

      process_frame-first :
          (image : Image)
          → process_frame new_detector (captured no_image zeros image)
            ≡ some (returns (kept image 1, captured no_image zeros image))
      process_frame-first image =
          let f = captured no_image zeros image in
          process_frame_lem new_detector f f f (kept image 1)
            (detect_movement-first vision no_image zeros image)
            (find_regions-missing contours sort ops f not_registered (no_foreground image))

      process_all-from :
          (d : Detector Image) (previous : Image) (images : List Image)
          → d.previous_frame ≡ some previous
          → Fits vision (some previous) images
          → (fs : List (Frame Image)) × (process_all d (map (captured no_image zeros) images)
              ≡ some (returns fs))
            × IsWatched (some previous) images fs
      process_all-from d previous [] e t = ([], process_all-nil d, tt)
      process_all-from d previous (image ∷ images) e t =
          let (f, done, shown, marked) = process_frame-next d previous image e t.0 in
          let (fs, rest, watched) = process_all-from (kept image 0) image images refl t.1 in
          (
            f ∷ fs,
            process_all-cons d (kept image 0) (captured no_image zeros image) f _ done
                ∙ ap (prepend f) rest,
            (shown, marked, watched),
          )

      -- With the documented operations on rectangles and a sort that permutes: on new frames with images
      -- of which OpenCV converts each to gray and compares each with the one before, the two
      -- detectors throw nothing and read nothing outside a vector. They leave the first frame as it is,
      -- and in every later one they leave the camera's image and mark regions that cover every contour,
      -- not too small, of what differs from the image just before it.
      pub process_all-IsWatched :
          (images : List Image)
          → Fits vision none images
          → (fs : List (Frame Image)) × (process_all new_detector
                (map (captured no_image zeros) images)
              ≡ some (returns fs))
            × IsWatched none images fs
      process_all-IsWatched [] t = ([], process_all-nil new_detector, tt)
      process_all-IsWatched (image ∷ images) t =
          let (fs, rest, watched) = process_all-from (kept image 1) image images refl t in
          (
            captured no_image zeros image ∷ fs,
            process_all-cons new_detector (kept image 1) (captured no_image zeros image)
                  (captured no_image zeros image) _ (process_frame-first image)
                ∙ ap (prepend _) rest,
            (refl, watched),
          )
