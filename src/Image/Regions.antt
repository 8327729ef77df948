-- ===== src/Image/Regions.antt =====
-- src/ImageProcessing/ROI_Detector.cpp: `process_next_frame`, which finds the regions of interest of a
-- frame. OpenCV and `std::sort`, whose order of equal elements is open, are parameters.
use sec_mon.Prelude.{
  zero, suc, ◌+◌, ◌∙◌, length, get_elem?-append, inl, inr, Bool-cases, ap, get_elem?-front, ℕ, ◌≡◌,
  refl, Bool, false, if◌then◌else◌, Option, none, some, List, [], ◌∷◌, ◌++◌, map, get_elem?, modify,
  subst, sym,
}
use mathlib.Core.List.{Permᴰ}
use mathlib.Core.Option.{some-injective}
use sec_mon.Prelude.Text.{codes}
use sec_mon.Image.{Rect, Covers, Covers-refl}
use sec_mon.Image.Roi.{RectOps, consolidate_rectangles}
use sec_mon.Image.Roi.Erasing.{IsCovered, IsCovered-trans}
use sec_mon.Image.Roi.Overlap.{IsRectOps}
use sec_mon.Image.Roi.Coverage.{consolidate_rectangles-IsCovered}
use sec_mon.Frame.{Frame, throws, returns, get_image, Error}

-- `cv::findContours` on a copy of the image, whether `cv::contourArea` of a contour is below a bound,
-- `cv::boundingRect` and `cv::rectangle`.
pub record Contours (Image : Type 0) : Type 1 where
  pub Contour : Type 0
  pub find_contours : Image → List Contour
  pub area_below : ℕ → Contour → Bool
  pub bounding_rect : Contour → Rect
  pub rectangle : Image → Rect → Image

IsCovered-perm : {rs ss : List Rect} → Permᴰ rs ss → IsCovered rs ss
IsCovered-perm Permᴰ.nil k r e = absurd cc
IsCovered-perm (Permᴰ.cons {b = b} p q) zero r e =
    (0, b, refl, subst (λ x. Covers b x) (sym p ∙ some-injective _ _ e) (Covers-refl b))
IsCovered-perm (Permᴰ.cons p q) (suc k) r e =
    let (j, t, g, c) = IsCovered-perm q k r e in (suc j, t, g, c)
IsCovered-perm (Permᴰ.swap {b' = b'} p q) zero r e =
    (1, b', refl, subst (λ x. Covers b' x) (sym p ∙ some-injective _ _ e) (Covers-refl b'))
IsCovered-perm (Permᴰ.swap {a' = a'} p q) (suc zero) r e =
    (0, a', refl, subst (λ x. Covers a' x) (sym q ∙ some-injective _ _ e) (Covers-refl a'))
IsCovered-perm (Permᴰ.swap p q) (suc (suc k)) r e = (suc (suc k), r, e, Covers-refl r)
IsCovered-perm (Permᴰ.trans p q) k r e =
    IsCovered-trans _ _ _ (IsCovered-perm p) (IsCovered-perm q) k r e

module _ {Image : Type 0} (cv : Contours Image) where
  open cv use {Contour, find_contours, area_below, bounding_rect, rectangle}

  -- `remove_if` with `is_too_small_`.
  unfoldable pub remove_too_small : List Contour → List Contour
  remove_too_small [] = []
  remove_too_small (c ∷ cs) =
      let rest = remove_too_small cs in if area_below 8 c then rest else c ∷ rest

  -- The loop that draws the regions.
  unfoldable pub draw_regions : List Rect → Image → Image
  draw_regions [] overlay = overlay
  draw_regions (r ∷ rs) overlay = draw_regions rs (rectangle overlay r)

  remove_too_small-keeps :
      (cs : List Contour) (k : ℕ) (c : Contour)
      → get_elem? cs k ≡ some c
      → area_below 8 c ≡ false
      → (j : ℕ) × (get_elem? (map bounding_rect (remove_too_small cs)) j ≡ some (bounding_rect c))
  unfolding remove_too_small
  remove_too_small-keeps [] k c e h = absurd cc
  remove_too_small-keeps (d ∷ cs) zero c e h =
      let large : area_below 8 d ≡ false =
        subst (λ x. area_below 8 x ≡ false) (sym (some-injective _ _ e)) h in
      rw large (0, ap (λ x. some (bounding_rect x)) (some-injective _ _ e))
  remove_too_small-keeps (d ∷ cs) (suc k) c e h =
      let (j, f) = remove_too_small-keeps cs k c e h in
      elim (Bool-cases (area_below 8 d)) [
        | inl small ↦ rw small (j, f)
        | inr large ↦ rw large (suc j, f)
      ]

  module _ (sort : List Rect → List Rect) (ops : RectOps) where
    -- The frame with its regions, and these drawn on its overlay.
    abbrev pub with_regions : Frame Image → Option (List Rect) → Option (Frame Image)
    with_regions f none = none
    with_regions f (some rs) =
        some (record f { regions_of_interest = rs; images = modify 1 (draw_regions rs) f.images })

    -- `process_next_frame`. An exception is caught; `none` is an access outside the vector.
    unfoldable pub find_regions : Frame Image → Option (Frame Image)
    unfolding get_image remove_too_small draw_regions consolidate_rectangles
    find_regions f = elim (get_image f (codes "foreground")) [
      | throws e ↦ some f
      | returns i ↦ elim (get_elem? f.images i) [
        | none ↦ none
        | some foreground ↦ with_regions f (
            consolidate_rectangles ops (
              sort (
                f.regions_of_interest
                ++ map bounding_rect (remove_too_small (find_contours foreground)))))
      ]
    ]

    -- Without an image named "foreground" the frame stays as it is.
    pub find_regions-missing :
        (f : Frame Image) (e : Error)
        → get_image f (codes "foreground") ≡ throws e
        → find_regions f ≡ some f
    unfolding find_regions
    find_regions-missing f e missing = rw (missing, find_regions) refl

    -- With the documented operations on rectangles and a sort that permutes: in a frame with
    -- an image named "foreground", the regions that are found cover every region that the frame had,
    -- and the bounding rectangle of every contour of that image that is not too small. They are drawn
    -- on the overlay; the other images and the names stay as they are.
    pub find_regions-IsCovered :
        IsRectOps ops
        → ((rs : List Rect) → Permᴰ rs (sort rs))
        → (f : Frame Image) (i : ℕ) (foreground : Image)
        → get_image f (codes "foreground") ≡ returns i
        → get_elem? f.images i ≡ some foreground
        → (f' : Frame Image) × (find_regions f ≡ some f')
          × IsCovered f.regions_of_interest f'.regions_of_interest
          × ((k : ℕ) (c : Contour)
              → get_elem? (find_contours foreground) k ≡ some c
              → area_below 8 c ≡ false
              → (j : ℕ) × (t : Rect) × (get_elem? f'.regions_of_interest j ≡ some t)
                × Covers t (bounding_rect c))
          × (f'.images ≡ modify 1 (draw_regions f'.regions_of_interest) f.images)
          × (f'.image_names ≡ f.image_names)
    unfolding find_regions
    find_regions-IsCovered laws permutes f i foreground named image =
        let found = map bounding_rect (remove_too_small (find_contours foreground)) in
        let (rs, e, c) =
          consolidate_rectangles-IsCovered ops laws (sort (f.regions_of_interest ++ found)) in
        let all : IsCovered (f.regions_of_interest ++ found) rs =
          IsCovered-trans _ _ _ (IsCovered-perm (permutes _)) c in
        (
          record f { regions_of_interest = rs; images = modify 1 (draw_regions rs) f.images },
          rw (named, image, e, find_regions) refl,
          λ k r g. all k r (get_elem?-front f.regions_of_interest found k r g),
          λ k c g large.
              let (j, h) = remove_too_small-keeps (find_contours foreground) k c g large in
              all (length f.regions_of_interest + j) (bounding_rect c)
                (get_elem?-append f.regions_of_interest found j ∙ h),
          refl,
          refl,
        )
