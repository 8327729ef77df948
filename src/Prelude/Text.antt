-- ===== src/Prelude/Text.antt =====
-- Byte strings: literals, equality, and the decimal numerals of `std::to_string` and
-- `boost::lexical_cast<std::string>`.
use Prim.Native.Char.{code}
use Prim.Native.String.{String}
use Prim.Native.Nat.{ℕ, zero, suc, ◌+◌, ◌*◌, ◌-◌, ◌/◌, ◌%◌, ◌<◌, ◌≤◌}
use mathlib.Core.Path.{◌≡◌, refl, ap, sym, ◌∙◌}
use mathlib.Core.Logic.{◌↔◌, ◌≢◌, inl, inr}
use mathlib.Core.Bool.{Bool, true, false, ◌&&◌}
use mathlib.Core.List.{List, [], ◌∷◌, ◌++◌}
use mathlib.Core.Option.{Option, none, some}
use native.Mathlib.Omega.{arith}
use sec_mon.Prelude.Tests.{ltb, ◌==◌, if◌then◌else◌, Bool-cases}
use sec_mon.Prelude.Lists.{All, length}

-- A C++ string as the list of its bytes.
abbrev pub Bytes : Type 0
Bytes = List ℕ

-- The bytes of a literal, which is ASCII throughout.
abbrev pub codes : String → Bytes
codes String.[] = []
codes (String.◌∷◌ c s) = code c ∷ codes s

abbrev pub crlf : Bytes
crlf = 13 ∷ 10 ∷ []

-- `==` on strings.
unfoldable pub bytes_eq : Bytes → Bytes → Bool
bytes_eq [] [] = true
bytes_eq (x ∷ xs) (y ∷ ys) = x == y && bytes_eq xs ys
bytes_eq _ _ = false

pub bytes_eq_iff : (a b : Bytes) → (bytes_eq a b ≡ true) ↔ (a ≡ b)
unfolding bytes_eq
bytes_eq_iff (x ∷ a) (y ∷ b) = ground (arith, bytes_eq_iff a b)
bytes_eq_iff _ _ = ground arith

pub bytes_eq_refl : (a : Bytes) → bytes_eq a a ≡ true
bytes_eq_refl a = (bytes_eq_iff a a).1 refl

-- The digits of `n` in front of `acc`; more fuel than `n` is enough.
decimal_onto : ℕ → ℕ → Bytes → Bytes
decimal_onto zero n acc = acc
decimal_onto (suc fuel) n acc =
    let rest = decimal_onto fuel (n / 10) ((48 + n % 10) ∷ acc) in
    if ltb n 10 then (48 + n) ∷ acc else rest

unfoldable pub decimal : ℕ → Bytes
unfolding decimal_onto
decimal n = decimal_onto (suc n) n []

abbrev pub IsDigit : ℕ → Type 0
IsDigit c = (48 ≤ c) × (c ≤ 57)

-- The number that a digit string stands for, after the number `v` of the digits before it.
unfoldable pub value_onto : ℕ → Bytes → ℕ
value_onto v [] = v
value_onto v (c ∷ cs) = value_onto (v * 10 + (c - 48)) cs

value_onto-decimal_onto :
    (fuel n : ℕ) (acc : Bytes)
    → n < fuel
    → value_onto 0 (decimal_onto fuel n acc) ≡ value_onto n acc
unfolding decimal_onto value_onto
value_onto-decimal_onto zero n acc h = absurd (omega arith)
value_onto-decimal_onto (suc fuel) n acc h = elim (Bool-cases (ltb n 10)) [
  | inl small ↦
      let e : 0 * 10 + (48 + n - 48) ≡ n = omega arith in
      rw (small, decimal_onto) (ap (λ k. value_onto k acc) e)
  | inr large ↦
      let e : n / 10 * 10 + (48 + n % 10 - 48) ≡ n = omega arith in
      rw (large, decimal_onto)
        (value_onto-decimal_onto fuel (n / 10) ((48 + n % 10) ∷ acc) (ground arith)
          ∙ ap (λ k. value_onto k acc) e)
]

-- The decimal numeral reads back as the number.
pub value_onto-decimal : (n : ℕ) → value_onto 0 (decimal n) ≡ n
unfolding decimal value_onto
value_onto-decimal n = value_onto-decimal_onto (suc n) n [] (omega arith)

decimal_onto-IsDigit :
    (fuel n : ℕ) (acc : Bytes) → All IsDigit acc → All IsDigit (decimal_onto fuel n acc)
unfolding decimal_onto
decimal_onto-IsDigit zero n acc h = h
decimal_onto-IsDigit (suc fuel) n acc h = elim (Bool-cases (ltb n 10)) [
  | inl small ↦ rw (small, decimal_onto) ((ground arith, ground arith), h)
  | inr large ↦
      rw (large, decimal_onto)
        (decimal_onto-IsDigit fuel (n / 10) ((48 + n % 10) ∷ acc) ((omega arith, omega arith), h))
]

-- It consists of digits.
pub decimal-IsDigit : (n : ℕ) → All IsDigit (decimal n)
unfolding decimal
decimal-IsDigit n = decimal_onto-IsDigit (suc n) n [] tt

decimal_onto-cons :
    (fuel n : ℕ) (acc : Bytes)
    → n < fuel
    → (d : ℕ) × (ds : Bytes) × (decimal_onto fuel n acc ≡ d ∷ ds)
unfolding decimal_onto
decimal_onto-cons zero n acc h = absurd (omega arith)
decimal_onto-cons (suc fuel) n acc h = elim (Bool-cases (ltb n 10)) [
  | inl small ↦ rw (small, decimal_onto) (48 + n, acc, refl)
  | inr large ↦
      rw (large, decimal_onto)
        (decimal_onto-cons fuel (n / 10) ((48 + n % 10) ∷ acc) (ground arith))
]

-- It is not empty.
pub decimal-cons : (n : ℕ) → (d : ℕ) × (ds : Bytes) × (decimal n ≡ d ∷ ds)
unfolding decimal
decimal-cons n = decimal_onto-cons (suc n) n [] (omega arith)

-- `find_last_of` with one character.
unfoldable pub find_last_of : ℕ → Bytes → Option ℕ
find_last_of c [] = none
find_last_of c (x ∷ xs) = elim (find_last_of c xs) [
  | some i ↦ some (suc i)
  | none ↦ if x == c then some 0 else none
]

pub find_last_of-absent : (c : ℕ) (bs : Bytes) → All (λ b. b ≢ c) bs → find_last_of c bs ≡ none
unfolding find_last_of
find_last_of-absent c [] h = refl
find_last_of-absent c (b ∷ bs) h = ground (arith, find_last_of-absent c bs h.1)

-- The last occurrence, if none stands behind it.
pub find_last_of-append :
    (c : ℕ) (bs cs : Bytes) → All (λ b. b ≢ c) cs → find_last_of c (bs ++ c ∷ cs) ≡ some (length bs)
unfolding find_last_of
find_last_of-append c [] cs h = ground (arith, find_last_of-absent c cs h)
find_last_of-append c (b ∷ bs) cs h = ground (arith, find_last_of-append c bs cs h)

-- The bytes of a sequence of buffers, or of the pieces in which an input arrives.
unfoldable pub concat : List Bytes → Bytes
concat [] = []
concat (p ∷ ps) = p ++ concat ps

-- Comparisons with texts that are known to differ.
pub apart :
    (n name m : Bytes) → bytes_eq n name ≡ false → bytes_eq n m ≡ true → bytes_eq name m ≡ false
apart n name m e a = elim (Bool-cases (bytes_eq name m)) [
  | inl b ↦
      let same : n ≡ name = (bytes_eq_iff n m).0 a ∙ sym ((bytes_eq_iff name m).0 b) in
      absurd (cc (sym e ∙ (bytes_eq_iff n name).1 same))
  | inr b ↦ b
]
