-- ===== src/Image/Roi/Overlap.antt =====
-- What the percentage of overlap of two rectangles (src/ImageProcessing/ROI_Detector.cpp) says, from what
-- OpenCV says of its rectangles.
use sec_mon.Prelude.{
  ℕ, ◌*◌, ◌≤◌, ◌<◌, ◌≡◌, refl, ap, subst, ◌⊎◌, inl, inr, arith, Bool-cases, ltb, ltb→lt,
}
use native.Mathlib.Nat.{
  mul-le-mul_left, mul-le-mul_right, mul-lt-mul_of_pos_left, mul-lt-mul_of_pos_right,
}
use sec_mon.Prelude.Int.{ℤ, pos, negsuc, ◌≤ℤ◌, ◌<ℤ◌, pos_part, neg_part, int_laws}
use sec_mon.Image.{Rect, Covers, Covers-trans}
use sec_mon.Image.Roi.{RectOps, overlap_percentage}

-- A rectangle with sides that lies inside two others.
pub record IsCommon (r s t : Rect) : Type 0 where
  pub wide : pos 0 <ℤ t.width
  pub high : pos 0 <ℤ t.height
  pub in_first : Covers r t
  pub in_second : Covers s t

-- The area is the product of the sides; the intersection lies inside both rectangles, or has no area;
-- the division gives 100 only for a second number that is positive and not larger than the first.
pub record IsRectOps (ops : RectOps) : Type 0 where
  pub area_sides :
      (r : Rect) (w h : ℕ) → r.width ≡ pos w → r.height ≡ pos h → ops.area r ≡ pos (w * h)
  pub intersection_common :
      (r s : Rect) → IsCommon r s (ops.intersection r s) ⊎ (ops.area (ops.intersection r s) ≡ pos 0)
  pub percentage_full : (a b : ℤ) → ops.percentage a b ≡ 100 → (pos 0 <ℤ b) × (b ≤ℤ a)

-- All of a rectangle overlaps with another only if that covers it.
abbrev pub IsOverlap : RectOps → Type 0
IsOverlap ops = (s l : Rect) → overlap_percentage ops s l ≡ 100 → Covers l s

positive : (z : ℤ) → pos 0 <ℤ z → (n : ℕ) × (z ≡ pos n) × (0 < n)
positive (pos n) h = (n, refl, omega (arith, h))
positive (negsuc n) h = absurd (omega (arith, h))

-- Sides that are no longer, of an area that is no smaller, are as long.
same_sides : (a b c d : ℕ) → a ≤ c → b ≤ d → 0 < a → 0 < b → c * d ≤ a * b → (c ≤ a) × (d ≤ b)
same_sides a b c d h k p q m = (
  elim (Bool-cases (ltb a c)) [
    | inl e ↦ absurd (
        turning (a * b) (a * d) (c * d) (mul-le-mul_left a k)
          (mul-lt-mul_of_pos_right (ltb→lt a c e) (omega arith)) m)
    | inr e ↦ ground arith
  ],
  elim (Bool-cases (ltb b d)) [
    | inl e ↦ absurd (
        turning' (a * b) (a * d) (c * d) (mul-lt-mul_of_pos_left (ltb→lt b d e) p)
          (mul-le-mul_right d h) m)
    | inr e ↦ ground arith
  ],
)
  where
    turning : (x y z : ℕ) → x ≤ y → y < z → z ≤ x → ⊥
    turning x y z h k m = omega arith

    turning' : (x y z : ℕ) → x < y → y ≤ z → z ≤ x → ⊥
    turning' x y z h k m = omega arith

-- A rectangle inside another, with an area that is no smaller, is the whole of it.
whole :
    (s o : Rect)
    → pos 0 <ℤ o.width
    → pos 0 <ℤ o.height
    → Covers s o
    → (ops : RectOps) → IsRectOps ops
    → ops.area s ≤ℤ ops.area o
    → Covers o s
whole s o wide high inside ops laws larger =
    let (a, e, p) = positive o.width wide in
    let (b, f, q) = positive o.height high in
    let (c, g, u) = positive s.width (omega (int_laws, inside.left, inside.right, wide)) in
    let (d, k, v) = positive s.height (omega (int_laws, inside.top, inside.bottom, high)) in
    let wider : a ≤ c = omega (
      int_laws,
      inside.left,
      inside.right,
      ap pos_part e,
      ap neg_part e,
      ap pos_part g,
      ap neg_part g,
    ) in
    let higher : b ≤ d = omega (
      int_laws,
      inside.top,
      inside.bottom,
      ap pos_part f,
      ap neg_part f,
      ap pos_part k,
      ap neg_part k,
    ) in
    let product : pos (c * d) ≤ℤ pos (a * b) =
      subst (λ x. x ≤ℤ pos (a * b)) (laws.area_sides s c d g k)
        (subst (λ x. ops.area s ≤ℤ x) (laws.area_sides o a b e f) larger) in
    let (narrow, low) = same_sides a b c d wider higher p q (smaller (c * d) (a * b) product) in
    record {
      left = omega (
        int_laws,
        inside.right,
        narrow,
        ap pos_part e,
        ap neg_part e,
        ap pos_part g,
        ap neg_part g,
      );
      top = omega (
        int_laws,
        inside.bottom,
        low,
        ap pos_part f,
        ap neg_part f,
        ap pos_part k,
        ap neg_part k,
      );
      right = omega (
        int_laws,
        inside.left,
        narrow,
        ap pos_part e,
        ap neg_part e,
        ap pos_part g,
        ap neg_part g,
      );
      bottom =
          omega
            (int_laws, inside.top, low, ap pos_part f, ap neg_part f, ap pos_part k, ap neg_part k);
    }
  where
    smaller : (x y : ℕ) → pos x ≤ℤ pos y → x ≤ y
    smaller x y h = omega (arith, h)

pub IsRectOps-IsOverlap : (ops : RectOps) → IsRectOps ops → IsOverlap ops
unfolding overlap_percentage
IsRectOps-IsOverlap ops laws s l h =
    let (some_area, full) = laws.percentage_full _ _ h in
    elim (laws.intersection_common s l) [
      | inl common ↦
          Covers-trans l (ops.intersection s l) s common.in_second
            (whole s (ops.intersection s l) common.wide common.high common.in_first ops laws full)
      | inr none_left ↦
          let below = subst (λ x. ops.area s ≤ℤ x) none_left full in
          absurd (omega (int_laws, some_area, below))
    ]
