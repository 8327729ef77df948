-- ===== src/Image/Roi.antt =====
-- src/ImageProcessing/ROI_Detector.cpp: the rectangles around what moves, with the smaller ones first. An
-- iterator is an index; `none` is an access outside the vector.
use sec_mon.Prelude.{
  ℕ, zero, suc, ◌-◌, ◌≡◌, Bool, true, false, not, ◌||◌, ltb, ◌==◌, if◌then◌else◌, Option, none,
  some, List, [], ◌∷◌, length, get_elem?, modify,
}
use sec_mon.Prelude.Int.{ℤ, pos, ◌+ℤ◌, ◌-ℤ◌, ltb_ℤ, min_ℤ, max_ℤ}
use sec_mon.Image.{Rect}
pub mod Merge
pub mod Overlap
pub mod Erasing
pub mod Coverage
pub mod Nested

-- `is_inside_`.
unfoldable pub is_inside : Rect → Rect → Bool
is_inside small large = not (
    ltb_ℤ small.x large.x
    || (ltb_ℤ small.y large.y
        || (ltb_ℤ (large.x +ℤ large.width) (small.x +ℤ small.width)
            || ltb_ℤ (large.y +ℤ large.height) (small.y +ℤ small.height))))

-- `erase`.
unfoldable pub erase : ℕ → List Rect → List Rect
erase i [] = []
erase zero (r ∷ rs) = rs
erase (suc i) (r ∷ rs) = r ∷ erase i rs

-- The larger rectangle made larger by the small one.
unfoldable pub merge : Rect → Rect → Rect
merge large small =
    let w = large.width +ℤ max_ℤ (pos 0) (large.x -ℤ small.x) in
    let x = min_ℤ large.x small.x in
    let h = large.height +ℤ max_ℤ (pos 0) (large.y -ℤ small.y) in
    let y = min_ℤ large.y small.y in
    record {
      x = x;
      y = y;
      width = w +ℤ max_ℤ (pos 0) ((small.x +ℤ small.width) -ℤ (x +ℤ w));
      height = h +ℤ max_ℤ (pos 0) ((small.y +ℤ small.height) -ℤ (y +ℤ h));
    }

-- What the overlap in percent says of two rectangles.
pub data Verdict : Type 0 where
  nested : Verdict
  overlapping : Verdict
  separate : Verdict

unfoldable pub verdict : ℕ → Verdict
verdict overlap =
    if overlap == 100 then nested else if ltb 85 overlap then overlapping else separate

-- The inner loop, with the large rectangle at the last index: whether the small one is inside another.
unfoldable pub inside_larger : List Rect → ℕ → ℕ → Option Bool
inside_larger rs i zero = some false
inside_larger rs i (suc j) = elim (ltb i (suc j)) [
  | false ↦ some false
  | true ↦ elim (get_elem? rs i) [
    | none ↦ none
    | some small ↦ elim (get_elem? rs (suc j)) [
      | none ↦ none
      | some large ↦ elim (is_inside small large) [
        | true ↦ some true
        | false ↦ inside_larger rs i j
      ]
    ]
  ]
]

-- The outer loop, on fuel.
unfoldable pub remove_nested_from : ℕ → List Rect → ℕ → Option (List Rect)
unfolding inside_larger
remove_nested_from zero rs i = if i == length rs then some rs else none
remove_nested_from (suc fuel) rs i = elim (i == length rs) [
  | true ↦ some rs
  | false ↦ elim (inside_larger rs i (length rs - 1)) [
    | none ↦ none
    | some true ↦ remove_nested_from fuel (erase i rs) i
    | some false ↦ remove_nested_from fuel rs (suc i)
  ]
]

-- `remove_nested`. The percentage that it computes and drops is left out.
unfoldable pub remove_nested : List Rect → Option (List Rect)
unfolding remove_nested_from
remove_nested rs = remove_nested_from (length rs) rs 0

-- `operator&` and `area` of `cv::Rect`, and the first number divided by the second as a double, times
-- 100, as an `int`.
pub record RectOps : Type 0 where
  pub intersection : Rect → Rect → Rect
  pub area : Rect → ℤ
  pub percentage : ℤ → ℤ → ℕ

module _ (ops : RectOps) where
  -- `overlap_percentage_`.
  unfoldable pub overlap_percentage : Rect → Rect → ℕ
  overlap_percentage small large =
      ops.percentage (ops.area (ops.intersection small large)) (ops.area small)

  -- The inner loop, with the large rectangle at the second index, and the next value of `small_it`.
  unfoldable pub compare_with_larger : List Rect → ℕ → ℕ → Option (List Rect × ℕ)
  unfolding overlap_percentage
  compare_with_larger rs i zero = some (rs, suc i)
  compare_with_larger rs i (suc j) = elim (ltb i (suc j)) [
    | false ↦ some (rs, suc i)
    | true ↦ elim (get_elem? rs i) [
      | none ↦ none
      | some small ↦ elim (get_elem? rs (suc j)) [
        | none ↦ none
        | some large ↦ elim (verdict (overlap_percentage small large)) [
          | nested ↦ some (erase i rs, i)
          | overlapping ↦
              compare_with_larger (erase i (modify (suc j) (λ r. merge large small) rs)) i j
          | separate ↦ compare_with_larger rs i j
        ]
      ]
    ]
  ]

  -- The outer loop, on fuel.
  unfoldable pub consolidate_from : ℕ → List Rect → ℕ → Option (List Rect)
  unfolding compare_with_larger
  consolidate_from zero rs i = if i == length rs then some rs else none
  consolidate_from (suc fuel) rs i = elim (i == length rs) [
    | true ↦ some rs
    | false ↦ elim (compare_with_larger rs i (length rs - 1)) [
      | none ↦ none
      | some (rs', i') ↦ consolidate_from fuel rs' i'
    ]
  ]

  -- `consolidate_rectangles`.
  unfoldable pub consolidate_rectangles : List Rect → Option (List Rect)
  unfolding consolidate_from
  consolidate_rectangles rs = consolidate_from (length rs) rs 0
