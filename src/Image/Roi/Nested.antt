-- ===== src/Image/Roi/Nested.antt =====
-- Which rectangles stay when the nested ones are removed (src/ImageProcessing/ROI_Detector.cpp), with a
-- description of them that follows the list.
use sec_mon.Prelude.{
  ℕ, zero, suc, ◌+◌, ◌-◌, ◌≤◌, ◌≡◌, refl, sym, ap, ◌∙◌, inl, inr, Bool, true, false, ◌||◌, ltb,
  ◌==◌, some, List, [], ◌∷◌, ◌++◌, append_assoc, length, length-append, get_elem?, get_elem?-append,
  get_elem?-lt, take, subst, arith, All, ◌↔◌, Bool-cases, if◌then◌else◌,
}
use mathlib.Core.List.{Sublistᴰ}
use mathlib.Core.Option.{some-injective}
use sec_mon.Image.{Rect, Covers, Covers-refl, Covers-trans}
use sec_mon.Image.Roi.{is_inside, erase, inside_larger, remove_nested_from, remove_nested}
use sec_mon.Image.Roi.Erasing.{IsCovered}

-- Whether the rectangle is inside one of the list, and the list without those inside a later one.
is_nested : Rect → List Rect → Bool
is_nested r [] = false
is_nested r (l ∷ ls) = is_inside r l || is_nested r ls

unnested : List Rect → List Rect
unnested [] = []
unnested (r ∷ rs) = let rest = unnested rs in if is_nested r rs then rest else r ∷ rest

erase-append :
    (xs : List Rect) (y : Rect) (ys : List Rect) → erase (length xs) (xs ++ y ∷ ys) ≡ xs ++ ys
unfolding erase
erase-append [] y ys = refl
erase-append (x ∷ xs) y ys = ap (λ l. x ∷ l) (erase-append xs y ys)

is_nested-take :
    (r l : Rect) (k : ℕ) (rs : List Rect)
    → get_elem? rs k ≡ some l
    → is_nested r (take (suc k) rs) ≡ (is_inside r l || is_nested r (take k rs))
unfolding is_nested
is_nested-take r l k [] h = absurd cc
is_nested-take r l zero (x ∷ rs) h = ground arith
is_nested-take r l (suc k) (x ∷ rs) h = ground (arith, is_nested-take r l k rs h)

-- The inner loop on the rectangles up to a distance behind the small one.
inside_larger_lem :
    (xs : List Rect) (r : Rect) (rs : List Rect) (k j : ℕ)
    → k ≤ length rs
    → j ≡ length xs + k
    → inside_larger (xs ++ r ∷ rs) (length xs) j ≡ some (is_nested r (take k rs))
unfolding inside_larger is_nested
inside_larger_lem xs r rs zero zero h e = refl
inside_larger_lem xs r rs zero (suc j) h e =
    let last : ltb (length xs) (suc j) ≡ false = ground arith in rw (last, inside_larger) refl
inside_larger_lem xs r rs (suc k) zero h e = absurd (omega arith)
inside_larger_lem xs r rs (suc k) (suc j) h e =
    let (l, f) = get_elem?-lt k rs h in
    let before : ltb (length xs) (suc j) ≡ true = ground arith in
    let small : get_elem? (xs ++ r ∷ rs) (length xs) ≡ some r =
      subst (λ n. get_elem? (xs ++ r ∷ rs) n ≡ some r) (omega arith)
        (get_elem?-append xs (r ∷ rs) 0) in
    let large : get_elem? (xs ++ r ∷ rs) (suc j) ≡ some l =
      subst (λ n. get_elem? (xs ++ r ∷ rs) n ≡ some l) (omega arith)
        (get_elem?-append xs (r ∷ rs) (suc k) ∙ f) in
    elim (Bool-cases (is_inside r l)) [
      | inl inside ↦
          rw (is_nested-take r l k rs f, before, small, large, inside, inside_larger) refl
      | inr outside ↦
          rw (is_nested-take r l k rs f, before, small, large, outside, inside_larger)
            (inside_larger_lem xs r rs k j (omega arith) (omega arith))
    ]

take_all : (rs : List Rect) → take (length rs) rs ≡ rs
take_all [] = refl
take_all (r ∷ rs) = ap (λ l. r ∷ l) (take_all rs)

-- The outer loop with the rectangles before it done.
remove_nested_from-unnested :
    (fuel i : ℕ) (xs rs : List Rect)
    → length rs ≤ fuel
    → i ≡ length xs
    → remove_nested_from fuel (xs ++ rs) i ≡ some (xs ++ unnested rs)
unfolding remove_nested_from unnested
remove_nested_from-unnested zero i xs [] h k = ground (arith, length-append xs [])
remove_nested_from-unnested zero i xs (r ∷ rs) h k = absurd (omega arith)
remove_nested_from-unnested (suc fuel) i xs [] h k =
    let e : (i == length (xs ++ [])) ≡ true = ground (arith, length-append xs []) in
    rw (e, remove_nested_from) refl
remove_nested_from-unnested (suc fuel) i xs (r ∷ rs) h k =
    let e : (i == length (xs ++ r ∷ rs)) ≡ false = ground (arith, length-append xs (r ∷ rs)) in
    let inner : inside_larger (xs ++ r ∷ rs) i (length (xs ++ r ∷ rs) - 1) ≡ some (is_nested r rs) =
      rw k (
        inside_larger_lem xs r rs (length rs) (length (xs ++ r ∷ rs) - 1) (omega arith)
          (omega (arith, length-append xs (r ∷ rs)))
        ∙ ap (λ l. some (is_nested r l)) (take_all rs)) in
    let erased : erase i (xs ++ r ∷ rs) ≡ xs ++ rs = rw k (erase-append xs r rs) in
    elim (Bool-cases (is_nested r rs)) [
      | inl n ↦
          rw (e, inner, n, erased, remove_nested_from)
            (remove_nested_from-unnested fuel i xs rs (omega arith) k)
      | inr n ↦
          rw (e, inner, n, remove_nested_from)
            (rw (append_assoc xs (r ∷ []) rs, append_assoc xs (r ∷ []) (unnested rs)) at
              (remove_nested_from-unnested fuel (suc i) (xs ++ r ∷ []) rs (omega arith)
                (omega (arith, length-append xs (r ∷ [])))))
    ]

is_inside_iff : (s l : Rect) → (is_inside s l ≡ true) ↔ Covers l s
unfolding is_inside
is_inside_iff s l = (
  λ h. record {
    left = ground arith;
    top = ground arith;
    right = ground arith;
    bottom = ground arith;
  },
  λ c. ground (arith, c.left, c.top, c.right, c.bottom),
)

is_nested-Covers :
    (r : Rect) (rs : List Rect)
    → is_nested r rs ≡ true
    → (k : ℕ) × (l : Rect) × (get_elem? rs k ≡ some l) × Covers l r
unfolding is_nested
is_nested-Covers r [] h = absurd cc
is_nested-Covers r (l ∷ ls) h = elim (Bool-cases (is_inside r l)) [
  | inl e ↦ (0, l, refl, (is_inside_iff r l).0 e)
  | inr e ↦ let (k, m, f, c) = is_nested-Covers r ls (ground arith) in (suc k, m, f, c)
]

not_nested-All : (r : Rect) (rs : List Rect) → is_nested r rs ≡ false → All (λ l. ¬ Covers l r) rs
unfolding is_nested
not_nested-All r [] h = tt
not_nested-All r (l ∷ ls) h = (
  λ c. let e = (is_inside_iff r l).1 c in absurd (ground arith),
  not_nested-All r ls (ground arith),
)

All-sublist {ℓ κ} :
    {A : Type ℓ} (P : A → Type κ) {xs ys : List A} → Sublistᴰ xs ys → All P ys → All P xs
All-sublist P Sublistᴰ.slnil h = tt
All-sublist P (Sublistᴰ.cons s) h = All-sublist P s h.1
All-sublist P (Sublistᴰ.cons-cons e s) h = (subst P (sym e) h.0, All-sublist P s h.1)

-- No rectangle lies inside a later one.
abbrev pub NoneNested : List Rect → Type 0
NoneNested [] = Unit
NoneNested (r ∷ rs) = All (λ l. ¬ Covers l r) rs × NoneNested rs

unnested-sublist : (rs : List Rect) → Sublistᴰ (unnested rs) rs
unfolding unnested
unnested-sublist [] = Sublistᴰ.slnil
unnested-sublist (r ∷ rs) = elim (Bool-cases (is_nested r rs)) [
  | inl e ↦ rw e (Sublistᴰ.cons (unnested-sublist rs))
  | inr e ↦ rw e (Sublistᴰ.cons-cons refl (unnested-sublist rs))
]

unnested-NoneNested : (rs : List Rect) → NoneNested (unnested rs)
unfolding unnested
unnested-NoneNested [] = tt
unnested-NoneNested (r ∷ rs) = elim (Bool-cases (is_nested r rs)) [
  | inl e ↦ rw e (unnested-NoneNested rs)
  | inr e ↦
      rw e (All-sublist _ (unnested-sublist rs) (not_nested-All r rs e), unnested-NoneNested rs)
]

IsCovered-cons :
    (r : Rect) (rs ss : List Rect)
    → (j : ℕ) × (t : Rect) × (get_elem? ss j ≡ some t) × Covers t r
    → IsCovered rs ss
    → IsCovered (r ∷ rs) ss
IsCovered-cons r rs ss w f zero s e =
    let (j, t, g, c) = w in (j, t, g, subst (λ x. Covers t x) (some-injective _ _ e) c)
IsCovered-cons r rs ss w f (suc k) s e = f k s e

IsCovered-behind : (r : Rect) (rs ss : List Rect) → IsCovered rs ss → IsCovered rs (r ∷ ss)
IsCovered-behind r rs ss f k s e = let (j, t, g, c) = f k s e in (suc j, t, g, c)

unnested-IsCovered : (rs : List Rect) → IsCovered rs (unnested rs)
unfolding unnested
unnested-IsCovered [] = λ k r e. absurd cc
unnested-IsCovered (r ∷ rs) = elim (Bool-cases (is_nested r rs)) [
  | inl e ↦
      let (k, l, f, c) = is_nested-Covers r rs e in
      let (j, t, g, d) = unnested-IsCovered rs k l f in
      rw e (
        IsCovered-cons r rs (unnested rs) (j, t, g, Covers-trans t l r d c) (unnested-IsCovered rs))
  | inr e ↦ rw e (
      IsCovered-cons r rs (r ∷ unnested rs) (0, r, refl, Covers-refl r)
        (IsCovered-behind r rs (unnested rs) (unnested-IsCovered rs)))
]

-- Removing nested rectangles never reads outside the vector and comes to an end; what is left stands in
-- the order of before, none of it lies inside a later one, and every rectangle given is covered by one
-- that is left.
pub remove_nested-NoneNested :
    (rs : List Rect)
    → (rs' : List Rect) × (remove_nested rs ≡ some rs')
      × Sublistᴰ rs' rs
      × NoneNested rs'
      × IsCovered rs rs'
unfolding remove_nested
remove_nested-NoneNested rs = (
  unnested rs,
  remove_nested_from-unnested (length rs) 0 [] rs (omega arith) refl,
  unnested-sublist rs,
  unnested-NoneNested rs,
  unnested-IsCovered rs,
)
