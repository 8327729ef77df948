-- ===== src/Image.antt =====
-- Image processing: rectangles, and below it the regions of interest (src/ImageProcessing) and the
-- objects of interest (src/ObjectProcessing). Coordinates are integers without a bound: those of an
-- image are far from the limits of `int`.
pub mod Roi
pub mod Ooi
pub mod Regions
pub mod Movement
pub mod Processor
pub mod BackgroundSubtraction
use sec_mon.Prelude.{ℕ, ◌≡◌}
use sec_mon.Prelude.Int.{ℤ, ◌+ℤ◌, ◌≤ℤ◌, int_laws}

-- `cv::Rect`.
pub record Rect : Type 0 where
  pub x : ℤ
  pub y : ℤ
  pub width : ℤ
  pub height : ℤ

-- The second rectangle lies inside the first.
pub record Covers (r s : Rect) : Type 0 where
  pub left : r.x ≤ℤ s.x
  pub top : r.y ≤ℤ s.y
  pub right : (s.x +ℤ s.width) ≤ℤ (r.x +ℤ r.width)
  pub bottom : (s.y +ℤ s.height) ≤ℤ (r.y +ℤ r.height)

pub Covers-refl : (r : Rect) → Covers r r
Covers-refl r = record {
  left = omega int_laws;
  top = omega int_laws;
  right = omega int_laws;
  bottom = omega int_laws;
}

pub Covers-trans : (r s t : Rect) → Covers r s → Covers s t → Covers r t
Covers-trans r s t h k = record {
  left = omega (int_laws, h.left, k.left);
  top = omega (int_laws, h.top, k.top);
  right = omega (int_laws, h.right, k.right);
  bottom = omega (int_laws, h.bottom, k.bottom);
}
