-- ===== src/Prelude/Modify.antt =====
-- A list with one of its elements changed.
use Prim.Native.Nat.{ℕ, zero, suc, ◌≤◌}
use mathlib.Core.Path.{◌≡◌, refl, ap}
use mathlib.Core.List.{List, [], ◌∷◌}
use mathlib.Core.Option.{some}
use native.Mathlib.Omega.{arith}
use sec_mon.Prelude.Lists.{length, get_elem?, modify}

module _ {ℓ} {A : Type ℓ} where
  pub length-modify : (F : A → A) (i : ℕ) (xs : List A) → length (modify i F xs) ≡ length xs
  length-modify F i [] = refl
  length-modify F zero (x ∷ xs) = refl
  length-modify F (suc i) (x ∷ xs) = ap suc (length-modify F i xs)

  pub modify_beyond : (F : A → A) (i : ℕ) (xs : List A) → length xs ≤ i → modify i F xs ≡ xs
  modify_beyond F i [] h = refl
  modify_beyond F zero (x ∷ xs) h = absurd (omega arith)
  modify_beyond F (suc i) (x ∷ xs) h = ap (◌∷◌ x) (modify_beyond F i xs (omega arith))

  pub modify-modify :
      (F G : A → A) (i : ℕ) (xs : List A) → modify i F (modify i G xs) ≡ modify i (λ x. F (G x)) xs
  modify-modify F G i [] = refl
  modify-modify F G zero (x ∷ xs) = refl
  modify-modify F G (suc i) (x ∷ xs) = ap (◌∷◌ x) (modify-modify F G i xs)

  pub get_elem-modify :
      (F : A → A) (i : ℕ) (xs : List A) (x : A)
      → get_elem? xs i ≡ some x
      → get_elem? (modify i F xs) i ≡ some (F x)
  get_elem-modify F i [] x h = absurd cc
  get_elem-modify F zero (y ∷ xs) x h = let same : y ≡ x = cc in ap (λ z. some (F z)) same
  get_elem-modify F (suc i) (y ∷ xs) x h = get_elem-modify F i xs x h

  -- Putting an element where it is already.
  pub modify-same :
      (i : ℕ) (x : A) (xs : List A) → get_elem? xs i ≡ some x → modify i (λ y. x) xs ≡ xs
  modify-same i x [] e = refl
  modify-same zero x (y ∷ xs) e = let same : x ≡ y = cc in ap (λ z. z ∷ xs) same
  modify-same (suc i) x (y ∷ xs) e = ap (◌∷◌ y) (modify-same i x xs e)
