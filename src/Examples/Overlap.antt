-- ===== src/Examples/Overlap.antt =====
-- Tests: operations on rectangles that do what src/ImageProcessing/ROI_Detector.cpp needs of OpenCV's, with
-- a division that is exact.
use sec_mon.Prelude.{
  ℕ, ◌≡◌, refl, true, false, if◌then◌else◌, arith, Bool-cases, zero, suc, ◌*◌, ◌≤◌, ◌&&◌, ◌⊎◌, inl,
  inr, leb,
}
use sec_mon.Prelude.Int.{
  ℤ, pos, ◌+ℤ◌, ◌-ℤ◌, ◌≤ℤ◌, ◌<ℤ◌, pos_part, ltb_ℤ, leb_ℤ, min_ℤ, max_ℤ, int_laws,
}
use sec_mon.Image.{Rect, Covers}
use sec_mon.Image.Roi.{RectOps}
use sec_mon.Image.Roi.Overlap.{IsRectOps, IsCommon}
use sec_mon.Image.Roi.Merge.{min_bounds, max_bounds}

abbrev pub rect : ℕ → ℕ → ℕ → ℕ → Rect
rect x y w h = record { x = pos x; y = pos y; width = pos w; height = pos h }

-- The length that two ranges share.
abbrev pub shared : ℤ → ℤ → ℤ → ℤ → ℤ
shared x w y v = min_ℤ (x +ℤ w) (y +ℤ v) -ℤ max_ℤ x y

abbrev pub common : Rect → Rect → Rect
common r s = record {
  x = max_ℤ r.x s.x;
  y = max_ℤ r.y s.y;
  width = shared r.x r.width s.x s.width;
  height = shared r.y r.height s.y s.height;
}

-- The intersection of two rectangles, if it has an area.
unfoldable pub intersection : Rect → Rect → Rect
unfolding ◌+ℤ◌ ◌-ℤ◌ min_ℤ max_ℤ
intersection r s =
    if ltb_ℤ (pos 0) (common r s).width && ltb_ℤ (pos 0) (common r s).height
    then common r s
    else rect 0 0 0 0

-- The greatest percentage up to a bound that is not above the share.
unfoldable pub percent_below : ℕ → ℕ → ℕ → ℕ
percent_below zero a b = 0
percent_below (suc k) a b = if leb (suc k * b) (100 * a) then suc k else percent_below k a b

unfoldable pub percentage : ℤ → ℤ → ℕ
unfolding percent_below
percentage a b =
    if leb_ℤ b a
    then if ltb_ℤ (pos 0) b then 100 else 0
    else percent_below 99 (pos_part a) (pos_part b)

abbrev pub exact : RectOps
exact = record {
  intersection = intersection;
  area = λ r. pos (pos_part r.width * pos_part r.height);
  percentage = percentage;
}

percent_below-le : (k a b : ℕ) → percent_below k a b ≤ k
unfolding percent_below
percent_below-le zero a b = omega arith
percent_below-le (suc k) a b = ground (arith, percent_below-le k a b)

common-in_first : (r s : Rect) → Covers r (common r s)
common-in_first r s =
    let (a, b, c) = min_bounds (r.x +ℤ r.width) (s.x +ℤ s.width) in
    let (d, e, f) = max_bounds r.x s.x in
    let (g, h, i) = min_bounds (r.y +ℤ r.height) (s.y +ℤ s.height) in
    let (j, k, l) = max_bounds r.y s.y in
    record { left = d; top = j; right = omega (int_laws, a); bottom = omega (int_laws, g) }

common-in_second : (r s : Rect) → Covers s (common r s)
common-in_second r s =
    let (a, b, c) = min_bounds (r.x +ℤ r.width) (s.x +ℤ s.width) in
    let (d, e, f) = max_bounds r.x s.x in
    let (g, h, i) = min_bounds (r.y +ℤ r.height) (s.y +ℤ s.height) in
    let (j, k, l) = max_bounds r.y s.y in
    record { left = e; top = k; right = omega (int_laws, b); bottom = omega (int_laws, h) }

both_positive :
    (w h : ℤ) → (ltb_ℤ (pos 0) w && ltb_ℤ (pos 0) h) ≡ true → (pos 0 <ℤ w) × (pos 0 <ℤ h)
both_positive w h e = ground arith

exact-IsCommon :
    (r s : Rect) → IsCommon r s (intersection r s) ⊎ (exact.area (intersection r s) ≡ pos 0)
unfolding intersection
exact-IsCommon r s =
    elim (Bool-cases (ltb_ℤ (pos 0) (common r s).width && ltb_ℤ (pos 0) (common r s).height)) [
      | inl e ↦ rw e (
          inl (record {
            wide = (both_positive (common r s).width (common r s).height e).0;
            high = (both_positive (common r s).width (common r s).height e).1;
            in_first = common-in_first r s;
            in_second = common-in_second r s;
          }))
      | inr e ↦ rw e (inr refl)
    ]

exact_full : (a b : ℤ) → percentage a b ≡ 100 → (pos 0 <ℤ b) × (b ≤ℤ a)
unfolding percentage
exact_full a b h = elim (Bool-cases (leb_ℤ b a)) [
  | inl e ↦ elim (Bool-cases (ltb_ℤ (pos 0) b)) [
    | inl f ↦ (ground arith, ground arith)
    | inr f ↦
        let none : percentage a b ≡ 0 = rw (e, f, percentage) refl in
        absurd (omega (arith, none, h))
  ]
  | inr e ↦
      let low = percent_below-le 99 (pos_part a) (pos_part b) in
      let full : percent_below 99 (pos_part a) (pos_part b) ≡ 100 = below e h in
      absurd (omega (arith, low, full))
]
  where
    below :
        leb_ℤ b a ≡ false → percentage a b ≡ 100 → percent_below 99 (pos_part a) (pos_part b) ≡ 100
    below e h = cc (rw (e, percentage) at h)

pub exact-IsRectOps : IsRectOps exact
exact-IsRectOps = record {
  area_sides = λ r w h e f. cc;
  intersection_common = exact-IsCommon;
  percentage_full = exact_full;
}
