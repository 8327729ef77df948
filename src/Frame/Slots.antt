-- ===== src/Frame/Slots.antt =====
-- The slots for the names of a frame's images (src/Frame.cpp), and what taking one does.
use sec_mon.Prelude.{
  ℕ, suc, ◌≤◌, ◌≡◌, ◌≢◌, refl, sym, ap, ◌∙◌, subst, ◌⊎◌, inl, inr, false, if◌then◌else◌, none, some,
  List, [], ◌∷◌, All, arith, length, Bool-cases,
}
use sec_mon.Prelude.Text.{Bytes, bytes_eq, bytes_eq_iff, apart}
use sec_mon.Frame.{
  already_registered, no_available_images, Result, throws, returns, find_name, Slot, take_slot,
  behind,
}

-- The used slots come first.
abbrev pub IsPacked : List Bytes → Type 0
IsPacked [] = Unit
IsPacked (n ∷ ns) = ((n ≢ []) × IsPacked ns) ⊎ All (λ m. m ≡ []) (n ∷ ns)

-- No slot from the given index on has the name.
pub find_name_free :
    (i : ℕ) (name : Bytes) (ns : List Bytes)
    → name ≢ []
    → All (λ m. m ≡ []) ns
    → find_name i name ns ≡ none
unfolding find_name
find_name_free i name [] h f = refl
find_name_free i name (n ∷ ns) h f = elim (Bool-cases (bytes_eq n name)) [
  | inl e ↦ absurd (h (sym ((bytes_eq_iff n name).0 e) ∙ f.0))
  | inr e ↦ rw e (find_name_free (suc i) name ns h f.1)
]

-- What taking a slot for a name does.
pub data Taken (i : ℕ) (name : Bytes) (ns : List Bytes) : Result Slot → Type 0 where
  already : (j : ℕ) → find_name i name ns ≡ some j → Taken i name ns (throws already_registered)
  full :
      find_name i name ns ≡ none
      → All (λ m. m ≢ []) ns
      → Taken i name ns (throws no_available_images)
  taken :
      (s : Slot)
      → find_name i name ns ≡ none
      → i ≤ s.index
      → IsPacked s.names
      → length s.names ≡ length ns
      → ((m : Bytes)
          → m ≢ []
          → find_name i m s.names ≡ (if bytes_eq name m then some s.index else find_name i m ns))
      → ((m : Bytes) → m ≢ [] → find_name i m ns ≢ some s.index)
      → Taken i name ns (returns s)

pub find_name_bound :
    (i : ℕ) (name : Bytes) (ns : List Bytes) (j : ℕ) → find_name i name ns ≡ some j → i ≤ j
unfolding find_name
find_name_bound i name [] j h = absurd cc
find_name_bound i name (n ∷ ns) j h = ground (arith, find_name_bound (suc i) name ns j)

pub IsPacked-free : (ns : List Bytes) → All (λ m. m ≡ []) ns → IsPacked ns
IsPacked-free [] f = tt
IsPacked-free (n ∷ ns) f = inr f

pub IsPacked-tail : (n : Bytes) (ns : List Bytes) → n ≢ [] → IsPacked (n ∷ ns) → IsPacked ns
IsPacked-tail n ns h (inl p) = p.1
IsPacked-tail n ns h (inr f) = absurd (h f.0)

pub unnamed : (m : Bytes) → m ≢ [] → bytes_eq [] m ≡ false
unnamed m h = elim (Bool-cases (bytes_eq [] m)) [
  | inl b ↦ absurd (h (sym ((bytes_eq_iff [] m).0 b)))
  | inr b ↦ b
]

pub All-free : (n : Bytes) (ns : List Bytes) → n ≡ [] → IsPacked (n ∷ ns) → All (λ m. m ≡ []) ns
All-free n ns e (inl p) = absurd (p.0 e)
All-free n ns e (inr f) = f.1

-- The slot is behind one that is used.
pub behind-Taken :
    (i : ℕ) (name n : Bytes) (ns : List Bytes) (r : Result Slot)
    → bytes_eq n name ≡ false
    → n ≢ []
    → Taken (suc i) name ns r
    → Taken i name (n ∷ ns) (behind n r)
unfolding find_name
behind-Taken i name n ns _ e u (already j f) = already j (rw (e, f) refl)
behind-Taken i name n ns _ e u (full f a) = full (rw (e, f) refl) (u, a)
behind-Taken i name n ns _ e u (taken s f b p l k v) =
    taken (record s { names = n ∷ s.names }) (rw (e, f) refl) (omega arith) (inl (u, p)) (ap suc l)
      (λ m h. ground (arith, k m h, apart n name m e))
      (λ m h. let elsewhere = v m h in λ g. ground arith)

pub first_free :
    (i : ℕ) (name : Bytes) (ns : List Bytes)
    → name ≢ []
    → All (λ m. m ≡ []) ns
    → Taken i name ([] ∷ ns) (returns (record { index = i; names = name ∷ ns }))
unfolding find_name
first_free i name ns h a =
    taken (record { index = i; names = name ∷ ns }) (find_name_free i name ([] ∷ ns) h (refl, a))
      (omega arith) (inl (h, IsPacked-free ns a)) refl
      (λ m k. let other = unnamed m k in ground arith)
      (λ m k.
        let other = unnamed m k in
        let nowhere = find_name_free (suc i) m ns k a in λ g. ground arith)

pub find_name_distinct :
    (k : ℕ) (m n : Bytes) (ns : List Bytes) (i : ℕ)
    → find_name k m ns ≡ some i
    → find_name k n ns ≡ some i
    → m ≡ n
unfolding find_name
find_name_distinct k m n [] i a b = absurd cc
find_name_distinct k m n (x ∷ ns) i a b = elim (Bool-cases (bytes_eq x m)) [
  | inl e ↦ elim (Bool-cases (bytes_eq x n)) [
    | inl g ↦ sym ((bytes_eq_iff x m).0 e) ∙ (bytes_eq_iff x n).0 g
    | inr g ↦ absurd (ground (arith, find_name_bound (suc k) n ns i))
  ]
  | inr e ↦ elim (Bool-cases (bytes_eq x n)) [
    | inl g ↦ absurd (ground (arith, find_name_bound (suc k) m ns i))
    | inr g ↦ find_name_distinct (suc k) m n ns i (ground arith) (ground arith)
  ]
]

pub take_slot-Taken :
    (i : ℕ) (name : Bytes) (ns : List Bytes)
    → name ≢ []
    → IsPacked ns
    → Taken i name ns (take_slot i name ns)
unfolding take_slot find_name
take_slot-Taken i name [] h p = full refl tt
take_slot-Taken i name (n ∷ ns) h p = elim (Bool-cases (bytes_eq n name)) [
  | inl e ↦ rw e (already i (rw e refl))
  | inr e ↦ elim (Bool-cases (bytes_eq n [])) [
    | inl f ↦
        let empty = (bytes_eq_iff n []).0 f in
        rw (e, f)
          (subst (λ x. Taken i name (x ∷ ns) (returns (record { index = i; names = name ∷ ns })))
            (sym empty) (first_free i name ns h (All-free n ns empty p)))
    | inr f ↦
        let used : n ≢ [] = λ g. cc (sym f ∙ (bytes_eq_iff n []).1 g) in
        rw (e, f)
          (behind-Taken i name n ns (take_slot (suc i) name ns) e used
            (take_slot-Taken (suc i) name ns h (IsPacked-tail n ns used p)))
  ]
]
