-- ===== src/Image/Roi/Erasing.antt =====
-- Erasing and replacing rectangles of a vector (src/ImageProcessing/ROI_Detector.cpp), and what is covered
-- afterwards.
use sec_mon.Prelude.{
  ℕ, zero, suc, ◌-◌, ◌<◌, ◌≡◌, refl, ap, ◌∙◌, subst, inl, inr, ltb, ◌==◌, if◌then◌else◌, some, List,
  [], ◌∷◌, length, get_elem?, modify, arith, Bool-cases, ==_iff,
}
use sec_mon.Image.{Rect, Covers, Covers-refl, Covers-trans}
use sec_mon.Image.Roi.{erase}

-- Every rectangle of the first list is covered by one of the second.
abbrev pub IsCovered : List Rect → List Rect → Type 0
IsCovered rs rs' =
    (k : ℕ) (r : Rect)
    → get_elem? rs k ≡ some r
    → (j : ℕ) × (t : Rect) × (get_elem? rs' j ≡ some t) × Covers t r

pub IsCovered-refl : (rs : List Rect) → IsCovered rs rs
IsCovered-refl rs k r e = (k, r, e, Covers-refl r)

pub IsCovered-trans : (rs ss ts : List Rect) → IsCovered rs ss → IsCovered ss ts → IsCovered rs ts
IsCovered-trans rs ss ts f g k r e =
    let (j, t, h, c) = f k r e in let (i, u, l, d) = g j t h in (i, u, l, Covers-trans u t r d c)

pub get-erase :
    (i k : ℕ) (rs : List Rect)
    → get_elem? (erase i rs) k ≡ (if ltb k i then get_elem? rs k else get_elem? rs (suc k))
unfolding erase
get-erase i k [] = ground arith
get-erase zero k (r ∷ rs) = ground arith
get-erase (suc i) zero (r ∷ rs) = ground arith
get-erase (suc i) (suc k) (r ∷ rs) = ground (arith, get-erase i k rs)

pub length-erase : (i : ℕ) (rs : List Rect) → i < length rs → suc (length (erase i rs)) ≡ length rs
unfolding erase
length-erase i [] h = absurd (omega arith)
length-erase zero (r ∷ rs) h = refl
length-erase (suc i) (r ∷ rs) h = omega (arith, length-erase i rs (omega arith))

pub get-modify :
    (j k : ℕ) (m : Rect) (rs : List Rect)
    → j < length rs
    → get_elem? (modify j (λ r. m) rs) k ≡ (if k == j then some m else get_elem? rs k)
get-modify j k m [] h = absurd (omega arith)
get-modify zero zero m (r ∷ rs) h = refl
get-modify zero (suc k) m (r ∷ rs) h = ground arith
get-modify (suc j) zero m (r ∷ rs) h = ground arith
get-modify (suc j) (suc k) m (r ∷ rs) h = ground (arith, get-modify j k m rs (omega arith))

-- Where the rectangles behind the erased one are afterwards.
pub get-behind :
    (i j k : ℕ) (m : Rect) (rs : List Rect)
    → i < k
    → j < length rs
    → get_elem? (erase i (modify j (λ r. m) rs)) (k - 1)
      ≡ (if k == j then some m else get_elem? rs k)
get-behind i j zero m rs h b = absurd (omega arith)
get-behind i j (suc k) m rs h b =
    let back : suc k - 1 ≡ k = omega arith in
    ap (get_elem? (erase i (modify j (λ r. m) rs))) back
    ∙ get-erase i k (modify j (λ r. m) rs)
    ∙ ground (arith, get-modify j (suc k) m rs b)

-- A rectangle that replaces the large one and covers both, after which the small one is erased.
pub erase-IsCovered :
    (i j : ℕ) (s l m : Rect) (rs : List Rect)
    → i < j
    → j < length rs
    → get_elem? rs i ≡ some s
    → get_elem? rs j ≡ some l
    → Covers m s
    → Covers m l
    → IsCovered rs (erase i (modify j (λ r. m) rs))
erase-IsCovered i j s l m rs h b e f cs cl k r g = elim (Bool-cases (ltb k i)) [
  | inl p ↦ (
    k,
    r,
    get-erase i k (modify j (λ x. m) rs) ∙ ground (arith, get-modify j k m rs b),
    Covers-refl r,
  )
  | inr p ↦ elim (Bool-cases (k == i)) [
    | inl q ↦ (
      j - 1,
      m,
      get-behind i j j m rs h b ∙ ground arith,
      (let at : k ≡ i = (==_iff k i).0 q in let same : s ≡ r = cc in subst (Covers m) same cs),
    )
    | inr q ↦ elim (Bool-cases (k == j)) [
      | inl u ↦ (
        j - 1,
        m,
        get-behind i j j m rs h b ∙ ground arith,
        (let at : k ≡ j = (==_iff k j).0 u in let same : l ≡ r = cc in subst (Covers m) same cl),
      )
      | inr u ↦
          (k - 1, r, get-behind i j k m rs (ground arith) b ∙ ground (arith, g), Covers-refl r)
    ]
  ]
]
