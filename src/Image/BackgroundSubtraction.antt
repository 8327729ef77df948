-- ===== src/Image/BackgroundSubtraction.antt =====
-- src/ImageProcessing/MovementDetectorMOG2.cpp: what stands out against a background that OpenCV learns.
-- OpenCV is a parameter; the hierarchy that `findContours` gives is the index of the next contour of
-- the same level, if there is one.
use sec_mon.Prelude.{
  ℕ, zero, suc, ◌-◌, ◌≤◌, ◌<◌, ◌≡◌, refl, Option, none, some, List, [], ◌∷◌, length, get_elem?,
  get_elem?-lt, modify, arith, Option-cases, inl, inr,
}
use sec_mon.Prelude.Text.{codes}
use sec_mon.Frame.{Frame, Result, throws, returns, get_new_image, get_new_blank_image}

-- `apply` of the subtractor, with its state, `dilate` and `erode` a number of times, `findContours`, and
-- `drawContours` of one contour.
pub record Subtraction (Model Image : Type 0) : Type 1 where
  pub Contour : Type 0
  pub apply_model : Model → Image → Image × Model
  pub dilate : ℕ → Image → Image
  pub erode : ℕ → Image → Image
  pub find_contours : Image → List Contour × List (Option ℕ)
  pub draw_contour : List Contour → ℕ → Image → Image

module _ {Model Image : Type 0} (cv : Subtraction Model Image) where
  open cv use {Contour, apply_model, dilate, erode, find_contours, draw_contour}

  -- The loop over the contours of the top level, on fuel. `none` is an access outside the hierarchy.
  unfoldable pub draw_top_level : ℕ → ℕ → List Contour → List (Option ℕ) → Image → Option Image
  draw_top_level zero idx contours hierarchy image = none
  draw_top_level (suc fuel) idx contours hierarchy image = elim (get_elem? hierarchy idx) [
    | none ↦ none
    | some next ↦ elim next [
      | none ↦ some (draw_contour contours idx image)
      | some idx' ↦ draw_top_level fuel idx' contours hierarchy (draw_contour contours idx image)
    ]
  ]

  -- The test for contours and the loop.
  abbrev pub draw_found : List Contour → List (Option ℕ) → Image → Option Image
  draw_found [] hierarchy image = some image
  draw_found (c ∷ cs) hierarchy image = draw_top_level (length hierarchy) 0 (c ∷ cs) hierarchy image

  -- `refineSegments`, with the foreground image that it draws on.
  unfoldable pub refine_segments : Image → Image → Option Image
  unfolding draw_top_level
  refine_segments mask image =
      let (contours, hierarchy) = find_contours (dilate 3 (erode 6 (dilate 3 mask))) in
      draw_found contours hierarchy image

  abbrev pub write_segments :
      Frame Image
      → ℕ
      → ℕ
      → Image
      → Model
      → Option Image
      → Option Image
      → Option (Result (Frame Image × Model))
  write_segments f i j difference model none refined = none
  write_segments f i j difference model (some blank) none = none
  write_segments f i j difference model (some blank) (some segments) = some (
      returns (
        record f { images = modify j (λ x. segments) (modify i (λ x. difference) f.images) },
        model,
      ))

  -- `process_next_frame`, once both images have their slots. `none` is an access outside a vector.
  abbrev pub subtract_background :
      Model → ℕ → Result (Frame Image × ℕ) → Option (Result (Frame Image × Model))
  subtract_background model i (throws e) = some (throws e)
  subtract_background model i (returns (f, j)) = elim (get_elem? f.images 0) [
    | none ↦ none
    | some current ↦
        let (difference, model') = apply_model model current in
        elim (get_elem? f.images j) [
          | none ↦ none
          | some blank ↦
              write_segments f i j difference model' (some blank) (refine_segments difference blank)
        ]
  ]

  abbrev pub then_blank : Model → Result (Frame Image × ℕ) → Option (Result (Frame Image × Model))
  then_blank model (throws e) = some (throws e)
  then_blank model (returns (f, i)) =
      subtract_background model i (get_new_blank_image f (codes "foreground"))

  -- `process_next_frame`.
  unfoldable pub detect_foreground : Model → Frame Image → Option (Result (Frame Image × Model))
  unfolding refine_segments get_new_image get_new_blank_image
  detect_foreground model f = then_blank model (get_new_image f (codes "difference"))

  -- Every contour is followed by a later one, or by none.
  abbrev pub IsForward : List (Option ℕ) → Type 0
  IsForward hierarchy =
      (i j : ℕ) → get_elem? hierarchy i ≡ some (some j) → (i < j) × (j < length hierarchy)

  draw_top_level-returns :
      (fuel idx : ℕ) (contours : List Contour) (hierarchy : List (Option ℕ)) (image : Image)
      → IsForward hierarchy
      → idx < length hierarchy
      → length hierarchy - idx ≤ fuel
      → (image' : Image) × (draw_top_level fuel idx contours hierarchy image ≡ some image')
  unfolding draw_top_level
  draw_top_level-returns zero idx contours hierarchy image f h b = absurd (omega arith)
  draw_top_level-returns (suc fuel) idx contours hierarchy image f h b =
      let (next, e) = get_elem?-lt idx hierarchy h in
      elim (Option-cases next) [
        | inl n ↦ (draw_contour contours idx image, rw (e, n, draw_top_level) refl)
        | inr (j, n) ↦
            let (later, inside) = f idx j (rw (← n) e) in
            let (image', done) =
              draw_top_level-returns fuel j contours hierarchy (draw_contour contours idx image) f
                inside (omega (arith, later)) in
            (image', rw (e, n, draw_top_level) done)
      ]

  draw_found-returns :
      (contours : List Contour) (hierarchy : List (Option ℕ)) (image : Image)
      → length hierarchy ≡ length contours
      → IsForward hierarchy
      → (image' : Image) × (draw_found contours hierarchy image ≡ some image')
  draw_found-returns [] hierarchy image e f = (image, refl)
  draw_found-returns (c ∷ cs) hierarchy image e f =
      draw_top_level-returns (length hierarchy) 0 (c ∷ cs) hierarchy image f (omega (arith, e))
        (omega arith)

  -- If `findContours` gives a hierarchy that is as long as the contours and leads forward, the segments
  -- are drawn with no access outside it.
  pub refine_segments-returns :
      (mask image : Image)
      → (let (contours, hierarchy) = find_contours (dilate 3 (erode 6 (dilate 3 mask))) in
          (length hierarchy ≡ length contours) × IsForward hierarchy)
      → (image' : Image) × (refine_segments mask image ≡ some image')
  unfolding refine_segments
  refine_segments-returns mask image (e, f) =
      let (contours, hierarchy) = find_contours (dilate 3 (erode 6 (dilate 3 mask))) in
      draw_found-returns contours hierarchy image e f
