-- ===== src/Image/Roi/Coverage.antt =====
-- The area that the consolidation of rectangles (src/ImageProcessing/ROI_Detector.cpp) covers, and
-- the indices it reads.
use sec_mon.Prelude.{
  length-modify, modify-same, ℕ, zero, suc, ◌-◌, ◌≤◌, ◌<◌, ◌≡◌, refl, ◌∙◌, subst, inl, inr, true,
  ltb, ◌==◌, Option, some, List, length, get_elem?, get_elem?-lt, modify, arith, Bool-cases, ltb→lt,
}
use sec_mon.Image.{Rect, Covers-refl}
use sec_mon.Image.Roi.{
  RectOps, overlap_percentage, erase, merge, Verdict, nested, overlapping, separate, verdict,
  compare_with_larger, consolidate_from, consolidate_rectangles,
}
use sec_mon.Image.Roi.Overlap.{IsOverlap, IsRectOps, IsRectOps-IsOverlap}
use sec_mon.Image.Roi.Merge.{merge-Covers}
use sec_mon.Image.Roi.Erasing.{
  IsCovered, IsCovered-refl, IsCovered-trans, length-erase, erase-IsCovered,
}

module _ (ops : RectOps) where
  -- What a round leaves: fewer rectangles to look at, and all of them covered.
  abbrev IsRound : List Rect → ℕ → Option (List Rect × ℕ) → Type 0
  IsRound rs i o =
      (rs' : List Rect) × (i' : ℕ) × (o ≡ some (rs', i'))
      × (i' ≤ length rs')
      × (length rs' - i' < length rs - i)
      × IsCovered rs rs'

  nested_full : (n : ℕ) → verdict n ≡ nested → n ≡ 100
  unfolding verdict
  nested_full n h = ground arith

  -- A round of the inner loop, by what the overlap says.
  by_verdict :
      IsOverlap ops
      → (j i : ℕ) (rs : List Rect) → i < length rs
      → suc j < length rs
      → ((ss : List Rect)
          → i < length ss
          → j < length ss
          → IsRound ss i (compare_with_larger ops ss i j))
      → (s l : Rect) → ltb i (suc j) ≡ true
      → get_elem? rs i ≡ some s
      → get_elem? rs (suc j) ≡ some l
      → (v : Verdict) → verdict (overlap_percentage ops s l) ≡ v
      → IsRound rs i (compare_with_larger ops rs i (suc j))
  unfolding compare_with_larger
  by_verdict full j i rs h b ih s l e f g nested q =
      let whole = full s l (nested_full (overlap_percentage ops s l) q) in
      let less = length-erase i rs h in
      rw (e, f, g, q, compare_with_larger)
        (
          erase i rs,
          i,
          refl,
          omega (arith, less, ltb→lt i (suc j) e),
          omega (arith, less),
          subst (λ ss. IsCovered rs (erase i ss)) (modify-same (suc j) l rs g)
              (erase-IsCovered i (suc j) s l l rs (ltb→lt i (suc j) e) b f g whole (Covers-refl l)),
        )
  by_verdict full j i rs h b ih s l e f g separate q =
      rw (e, f, g, q, compare_with_larger) (ih rs h (omega arith))
  by_verdict full j i rs h b ih s l e f g overlapping q =
      let rs1 = erase i (modify (suc j) (λ r. merge l s) rs) in
      let less : suc (length rs1) ≡ length rs =
        length-erase i (modify (suc j) (λ r. merge l s) rs)
          (omega (arith, length-modify (λ r. merge l s) (suc j) rs))
        ∙ length-modify (λ r. merge l s) (suc j) rs in
      let (cl, cs) = merge-Covers l s in
      let (rs2, i2, eq, x, y, z) =
        ih rs1 (omega (arith, less, ltb→lt i (suc j) e)) (omega (arith, less)) in
      rw (e, f, g, q, compare_with_larger)
        (
          rs2,
          i2,
          eq,
          x,
          omega (arith, less, y),
          IsCovered-trans rs rs1 rs2
              (erase-IsCovered i (suc j) s l (merge l s) rs (ltb→lt i (suc j) e) b f g cs cl) z,
        )

  compare_with_larger-IsRound :
      IsOverlap ops
      → (j i : ℕ) (rs : List Rect) → i < length rs
      → j < length rs
      → IsRound rs i (compare_with_larger ops rs i j)
  unfolding compare_with_larger
  compare_with_larger-IsRound full zero i rs h b =
      (rs, suc i, refl, omega arith, omega arith, IsCovered-refl rs)
  compare_with_larger-IsRound full (suc j) i rs h b = elim (Bool-cases (ltb i (suc j))) [
    | inr e ↦
        rw (e, compare_with_larger) (rs, suc i, refl, omega arith, omega arith, IsCovered-refl rs)
    | inl e ↦
        let (s, f) = get_elem?-lt i rs h in
        let (l, g) = get_elem?-lt (suc j) rs b in
        by_verdict full j i rs h b (λ ss x y. compare_with_larger-IsRound full j i ss x y) s l e f g
          (verdict (overlap_percentage ops s l)) refl
  ]

  consolidate_from-IsCovered :
      IsOverlap ops
      → (fuel : ℕ) (rs : List Rect) (i : ℕ) → i ≤ length rs
      → length rs - i ≤ fuel
      → (rs' : List Rect) × (consolidate_from ops fuel rs i ≡ some rs') × IsCovered rs rs'
  unfolding consolidate_from
  consolidate_from-IsCovered full zero rs i h b =
      let last : i ≡ length rs = omega arith in (rs, ground arith, IsCovered-refl rs)
  consolidate_from-IsCovered full (suc fuel) rs i h b = elim (Bool-cases (i == length rs)) [
    | inl e ↦ (rs, rw (e, consolidate_from) refl, IsCovered-refl rs)
    | inr e ↦
        let (rs1, i1, eq, x, y, z) =
          compare_with_larger-IsRound full (length rs - 1) i rs (ground arith) (ground arith) in
        let (rs2, f, c) = consolidate_from-IsCovered full fuel rs1 i1 x (omega (arith, y)) in
        (rs2, rw (e, eq, consolidate_from) f, IsCovered-trans rs rs1 rs2 z c)
  ]

  -- With the documented operations on rectangles: consolidation never reads outside the vector, comes to
  -- an end, and every rectangle given is covered by one of the result.
  pub consolidate_rectangles-IsCovered :
      IsRectOps ops
      → (rs : List Rect)
      → (rs' : List Rect) × (consolidate_rectangles ops rs ≡ some rs') × IsCovered rs rs'
  unfolding consolidate_rectangles
  consolidate_rectangles-IsCovered laws rs =
      consolidate_from-IsCovered (IsRectOps-IsOverlap ops laws) (length rs) rs 0 (omega arith)
        (omega arith)
