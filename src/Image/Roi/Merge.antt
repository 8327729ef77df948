-- ===== src/Image/Roi/Merge.antt =====
-- The rectangle that two regions are merged into (src/ImageProcessing/ROI_Detector.cpp).
use sec_mon.Prelude.{◌≡◌, refl, ap, ◌⊎◌, inl, inr, arith, Bool-cases}
use sec_mon.Prelude.Int.{
  ℤ, pos, ◌+ℤ◌, ◌-ℤ◌, ◌≤ℤ◌, pos_part, neg_part, ltb_ℤ, min_ℤ, max_ℤ, int_laws,
}
use sec_mon.Image.{Rect, Covers}
use sec_mon.Image.Roi.{merge}

pub max_bounds :
    (a b : ℤ) → (a ≤ℤ max_ℤ a b) × (b ≤ℤ max_ℤ a b) × ((max_ℤ a b ≡ a) ⊎ (max_ℤ a b ≡ b))
unfolding max_ℤ
max_bounds a b = elim (Bool-cases (ltb_ℤ a b)) [
  | inl e ↦ rw e (ground arith, ground arith, inr refl)
  | inr e ↦ rw e (ground arith, ground arith, inl refl)
]

pub min_bounds :
    (a b : ℤ)
    → (min_ℤ a b ≤ℤ a)
      × (min_ℤ a b ≤ℤ b)
      × (((min_ℤ a b ≡ a) × (a ≤ℤ b)) ⊎ ((min_ℤ a b ≡ b) × (b ≤ℤ a)))
unfolding min_ℤ
min_bounds a b = elim (Bool-cases (ltb_ℤ b a)) [
  | inl e ↦ rw e (ground arith, ground arith, inr (refl, ground arith))
  | inr e ↦ rw e (ground arith, ground arith, inl (refl, ground arith))
]

-- One side of the merged rectangle.
pub side :
    (start size start' size' : ℤ)
    → (let a = min_ℤ start start' in
        let w = size +ℤ max_ℤ (pos 0) (start -ℤ start') in
        let b = w +ℤ max_ℤ (pos 0) ((start' +ℤ size') -ℤ (a +ℤ w)) in
        (a ≤ℤ start)
        × (a ≤ℤ start')
        × ((start +ℤ size) ≤ℤ (a +ℤ b))
        × ((start' +ℤ size') ≤ℤ (a +ℤ b)))
side start size start' size' =
    let (p, q, r) = min_bounds start start' in
    let (f, g, h) = max_bounds (pos 0) (start -ℤ start') in
    let w = size +ℤ max_ℤ (pos 0) (start -ℤ start') in
    let (k, l, m) = max_bounds (pos 0) ((start' +ℤ size') -ℤ (min_ℤ start start' +ℤ w)) in
    (p, q, ends start size start' size' r f g k, omega (int_laws, l))
  where
    ends :
        (start size start' size' : ℤ)
        → ((min_ℤ start start' ≡ start) × (start ≤ℤ start'))
          ⊎ ((min_ℤ start start' ≡ start') × (start' ≤ℤ start))
        → pos 0 ≤ℤ max_ℤ (pos 0) (start -ℤ start')
        → (start -ℤ start') ≤ℤ max_ℤ (pos 0) (start -ℤ start')
        → pos 0
          ≤ℤ max_ℤ (pos 0) (
              (start' +ℤ size')
              -ℤ (min_ℤ start start' +ℤ (size +ℤ max_ℤ (pos 0) (start -ℤ start'))))
        → (start +ℤ size) ≤ℤ (
            min_ℤ start start'
            +ℤ ((size +ℤ max_ℤ (pos 0) (start -ℤ start'))
                +ℤ max_ℤ (pos 0) (
                    (start' +ℤ size')
                    -ℤ (min_ℤ start start' +ℤ (size +ℤ max_ℤ (pos 0) (start -ℤ start'))))))
    ends start size start' size' (inl (e, o)) f g k =
        omega (int_laws, ap pos_part e, ap neg_part e, f, g, k)
    ends start size start' size' (inr (e, o)) f g k =
        omega (int_laws, ap pos_part e, ap neg_part e, f, g, k)

pub merge-Covers :
    (large small : Rect) → Covers (merge large small) large × Covers (merge large small) small
unfolding merge
merge-Covers large small =
    let (a, b, c, d) = side large.x large.width small.x small.width in
    let (e, f, g, h) = side large.y large.height small.y small.height in
    (
      record { left = a; top = e; right = c; bottom = g },
      record { left = b; top = f; right = d; bottom = h },
    )
