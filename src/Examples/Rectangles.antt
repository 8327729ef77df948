-- ===== src/Examples/Rectangles.antt =====
-- Tests: three regions of interest (src/ImageProcessing/ROI_Detector.cpp) and an object
-- (src/ObjectProcessing/OOI.cpp).
use mathlib.Core.List.{Sublistᴰ}
use sec_mon.Prelude.{
  ℕ, ◌≡◌, refl, ◌<◌, Bool, true, false, if◌then◌else◌, Option, none, some, List, [], ◌∷◌, arith,
  Bool-cases, zero, suc, ◌*◌, ◌≤◌, ◌&&◌, ◌⊎◌, inl, inr, leb,
}
use sec_mon.Prelude.Int.{
  ℤ, pos, ◌+ℤ◌, ◌-ℤ◌, ◌≤ℤ◌, ◌<ℤ◌, pos_part, ltb_ℤ, leb_ℤ, min_ℤ, max_ℤ, int_laws,
}
use sec_mon.Image.{Rect, Covers}
use sec_mon.Image.Roi.{
  overlap_percentage, inside_larger, remove_nested, remove_nested_from, is_inside, erase, merge,
  verdict, consolidate_from, compare_with_larger, consolidate_rectangles,
}
use sec_mon.Image.Roi.Erasing.{IsCovered}
use sec_mon.Image.Roi.Coverage.{consolidate_rectangles-IsCovered}
use sec_mon.Image.Roi.Nested.{NoneNested, remove_nested-NoneNested}
use sec_mon.Image.Ooi.{Ooi, new_ooi, resize_rect, resize_rect-Covers}
use sec_mon.Examples.Overlap.{rect, exact, exact-IsRectOps, intersection, percentage, percent_below}

abbrev three : List Rect
three = rect 2 2 4 4 ∷ rect 1 0 10 10 ∷ rect 0 0 10 11 ∷ []

consolidate_rectangles-IsCovered_example :
    (rs : List Rect) × (consolidate_rectangles exact three ≡ some rs) × IsCovered three rs
consolidate_rectangles-IsCovered_example =
    consolidate_rectangles-IsCovered exact exact-IsRectOps three

all_merged : consolidate_rectangles exact three ≡ some (rect 0 0 11 11 ∷ [])
unfolding consolidate_rectangles consolidate_from compare_with_larger overlap_percentage
    intersection percentage percent_below verdict merge erase ◌+ℤ◌ ◌-ℤ◌ sec_mon.Prelude.Int.min_ℤ
    sec_mon.Prelude.Int.max_ℤ
all_merged = refl

remove_nested-NoneNested_example :
    (rs : List Rect) × (remove_nested three ≡ some rs)
    × Sublistᴰ rs three
    × NoneNested rs
    × IsCovered three rs
remove_nested-NoneNested_example = remove_nested-NoneNested three

first_removed : remove_nested three ≡ some (rect 1 0 10 10 ∷ rect 0 0 10 11 ∷ [])
unfolding remove_nested remove_nested_from inside_larger is_inside erase ◌+ℤ◌
first_removed = refl

abbrev pedestrian : Ooi
pedestrian = new_ooi (pos 1) (rect 5 20 10 30) (pos 7)

resize_rect-Covers_example :
    (let r = resize_rect pedestrian (pos 10) (pos 100) (pos 55) in
      let p = pedestrian.current_pos in
      Covers r p
      × Covers (rect 0 0 100 55) r
      × Covers
          (record {
            x = p.x -ℤ pos 10;
            y = p.y -ℤ pos 10;
            width = p.width +ℤ pos 10 +ℤ pos 10;
            height = p.height +ℤ pos 10 +ℤ pos 10;
          })
          r)
unfolding ◌+ℤ◌
resize_rect-Covers_example =
    resize_rect-Covers pedestrian (pos 10) (pos 100) (pos 55) (omega arith)
      (record { left = omega arith; top = omega arith; right = omega arith; bottom = omega arith })
