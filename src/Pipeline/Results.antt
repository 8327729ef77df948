-- ===== src/Pipeline/Results.antt =====
-- What the work of each element of a pipeline has made of its data, and how
-- src/Pipeline/WorkWrapper.h hands it to the next element.
use sec_mon.Prelude.{
  ℕ, zero, suc, ◌≡◌, refl, sym, ap, ◌∙◌, subst, false, Option, none, some, List, [], ◌∷◌, ◌++◌,
  append_assoc, append-nil, get_elem?, modify, drop, All,
}
use sec_mon.Pipeline.WorkWrapper.{Element, Timer, schedule_work}

module _ {A : Type 0} where
  -- What work that was called with the data of the first list makes of the data of the second.
  abbrev pub results_from :
      (List (Option A) → Option A → Option A) → List (Option A) → List (Option A) → List (Option A)
  results_from w before [] = []
  results_from w before (x ∷ xs) = w before x ∷ results_from w (before ++ x ∷ []) xs

  -- What an element's work has made of the data it has seen.
  abbrev pub results : Element A → List (Option A)
  results e = results_from e.work.leaves [] e.seen

  pub results_from-append :
      (w : List (Option A) → Option A → Option A) (before xs : List (Option A)) (x : Option A)
      → results_from w before (xs ++ x ∷ []) ≡ results_from w before xs ++ w (before ++ xs) x ∷ []
  results_from-append w before [] x = rw (append-nil before) refl
  results_from-append w before (y ∷ xs) x = ap (◌∷◌ (w before y)) (
      results_from-append w (before ++ y ∷ []) xs x
      ∙ ap (λ b. results_from w (before ++ y ∷ []) xs ++ w b x ∷ [])
          (append_assoc before (y ∷ []) xs))

  -- The results of every element are what the next one has seen and what is posted for it.
  abbrev pub Carried : List (Element A) → Type 0
  Carried [] = Unit
  Carried (e ∷ []) = Unit
  Carried (e ∷ f ∷ es) = (results e ≡ f.seen ++ f.posted) × Carried (f ∷ es)

  -- `next_` is the element after, from the index of the first on, and the last has none.
  abbrev pub Wired : ℕ → List (Element A) → Type 0
  Wired k [] = Unit
  Wired k (e ∷ []) = e.next ≡ none
  Wired k (e ∷ f ∷ es) = (e.next ≡ some (suc k)) × Wired (suc k) (f ∷ es)

  abbrev pub IsPlain : Element A → Type 0
  IsPlain e = e.timer ≡ none

  -- Only the first element has a timer.
  abbrev pub Headed : List (Element A) → Type 0
  Headed [] = Unit
  Headed (e ∷ es) = ((t : Timer) × (e.timer ≡ some t)) × All IsPlain es

  abbrev pub IsFresh : Element A → Type 0
  IsFresh e =
      (e.seen ≡ [])
      × (e.posted ≡ [])
      × (e.next ≡ none)
      × ((t : Timer) → e.timer ≡ some t → (t.handlers ≡ []) × (t.waiting ≡ false))

  -- Scheduling work on a plain element.
  pub schedule_work_plain :
      (now : ℕ) (d : Option A) (e : Element A)
      → e.timer ≡ none
      → schedule_work now d e ≡ record e { posted = e.posted ++ d ∷ [] }
  unfolding schedule_work
  schedule_work_plain now d e h = rw h refl

  pub Carried-head :
      (e f : Element A) (es : List (Element A))
      → results f ≡ results e
      → Carried (e ∷ es)
      → Carried (f ∷ es)
  Carried-head e f [] h c = tt
  Carried-head e f (g ∷ es) h c = (h ∙ c.0, c.1)

  -- An element has done its work on a datum and has scheduled the next with the result.
  pub hand_on_first :
      (F : Element A → Element A) (now : ℕ) (d : Option A) (e : Element A) (es : List (Element A))
      → results (F e) ≡ results e ++ d ∷ []
      → All IsPlain es
      → Carried (e ∷ es)
      → Carried (F e ∷ modify 0 (schedule_work now d) es)
  hand_on_first F now d e [] r p c = tt
  hand_on_first F now d e (f ∷ es) r p c =
      subst (λ x. Carried (F e ∷ x ∷ es)) (sym (schedule_work_plain now d f p.0))
        (
          r ∙ ap (λ l. l ++ d ∷ []) c.0 ∙ append_assoc f.seen f.posted (d ∷ []),
          Carried-head f (record f { posted = f.posted ++ d ∷ [] }) es refl c.1,
        )

  pub hand_on :
      (F : Element A → Element A) (now : ℕ) (d : Option A) (e : Element A) (i : ℕ)
      (es : List (Element A))
      → get_elem? es i ≡ some e
      → (F e).seen ++ (F e).posted ≡ e.seen ++ e.posted
      → results (F e) ≡ results e ++ d ∷ []
      → All IsPlain (drop 1 es)
      → Carried es
      → Carried (modify (suc i) (schedule_work now d) (modify i F es))
  hand_on F now d e i [] g q r p c = tt
  hand_on F now d e zero (f ∷ es) g q r p c =
      let same : e ≡ f = cc in
      hand_on_first F now d f es (subst (λ x. results (F x) ≡ results x ++ d ∷ []) same r) p c
  hand_on F now d e (suc i) (f ∷ []) g q r p c = absurd cc
  hand_on F now d e (suc zero) (f ∷ h ∷ es) g q r p c =
      let same : e ≡ h = cc in
      (
        c.0 ∙ sym (subst (λ x. (F x).seen ++ (F x).posted ≡ x.seen ++ x.posted) same q),
        hand_on_first F now d h es (subst (λ x. results (F x) ≡ results x ++ d ∷ []) same r) p.1
            c.1,
      )
  hand_on F now d e (suc (suc i)) (f ∷ h ∷ es) g q r p c =
      (c.0, hand_on F now d e (suc i) (h ∷ es) g q r p.1 c.1)
