-- ===== src/Pipeline/Wiring.antt =====
-- How the elements of a pipeline hold together: what each has handed to the next, in
-- src/Pipeline/WorkWrapper.h, and how src/Pipeline/Pipeline.h joins them.
use sec_mon.Prelude.{
  modify_beyond, ℕ, zero, suc, ◌+◌, ◌≤◌, ◌≡◌, refl, sym, ap, ◌∙◌, subst, ◌⊎◌, inl, inr, Option,
  none, some, List, [], ◌∷◌, ◌++◌, arith, length, get_elem?, modify, All, All-modify,
}
use sec_mon.Pipeline.WorkWrapper.{Element, Timer, schedule_work}
use sec_mon.Pipeline.{set_nexts, call_next}
use sec_mon.Pipeline.Results.{results_from, Carried, Wired, IsPlain, Headed, IsFresh}

module _ {A : Type 0} where
  pub Wired-head :
      (k : ℕ) (e f : Element A) (es : List (Element A))
      → f.next ≡ e.next
      → Wired k (e ∷ es)
      → Wired k (f ∷ es)
  Wired-head k e f [] h w = h ∙ w
  Wired-head k e f (g ∷ es) h w = (h ∙ w.0, w.1)

  pub Wired-modify :
      (k : ℕ) (F : Element A → Element A)
      → ((e : Element A) → (F e).next ≡ e.next)
      → (i : ℕ) (es : List (Element A)) → Wired k es
      → Wired k (modify i F es)
  Wired-modify k F h i [] w = tt
  Wired-modify k F h zero (e ∷ es) w = Wired-head k e (F e) es (h e) w
  Wired-modify k F h (suc i) (e ∷ []) w = w
  Wired-modify k F h (suc zero) (e ∷ f ∷ es) w = (w.0, Wired-head (suc k) f (F f) es (h f) w.1)
  Wired-modify k F h (suc (suc i)) (e ∷ f ∷ es) w =
      (w.0, Wired-modify (suc k) F h (suc i) (f ∷ es) w.1)

  pub Headed-modify :
      (F : Element A → Element A)
      → ((e : Element A) → IsPlain e → IsPlain (F e))
      → ((e : Element A) (t : Timer) → e.timer ≡ some t → (u : Timer) × ((F e).timer ≡ some u))
      → (i : ℕ) (es : List (Element A)) → Headed es
      → Headed (modify i F es)
  Headed-modify F h k i [] p = tt
  Headed-modify F h k zero (e ∷ es) ((t, q), p) = (k e t q, p)
  Headed-modify F h k (suc i) (e ∷ es) (q, p) = (q, All-modify IsPlain F h i es p)

  Wired-next :
      (k i : ℕ) (es : List (Element A)) (e : Element A)
      → Wired k es
      → get_elem? es i ≡ some e
      → (e.next ≡ some (k + suc i)) ⊎ ((e.next ≡ none) × (length es ≡ suc i))
  Wired-next k i [] e w h = absurd cc
  Wired-next k zero (f ∷ []) e w h =
      let same : f ≡ e = cc in inr (subst (λ x. x.next ≡ none) same w, refl)
  Wired-next k (suc i) (f ∷ []) e w h = absurd cc
  Wired-next k zero (f ∷ g ∷ es) e w h =
      let same : f ≡ e = cc in
      let at : k + 1 ≡ suc k = omega arith in
      inl (subst (λ x. x.next ≡ some (suc k)) same w.0 ∙ ap some (sym at))
  Wired-next k (suc i) (f ∷ g ∷ es) e w h = elim (Wired-next (suc k) i (g ∷ es) e w.1 h) [
    | inl n ↦ let at : suc k + suc i ≡ k + suc (suc i) = omega arith in inl (n ∙ ap some at)
    | inr (n, l) ↦ inr (n, ap suc l)
  ]

  -- `next_` called by an element of a compiled pipeline schedules work on the element after it.
  pub call_next-Wired :
      (now i : ℕ) (d : Option A) (es : List (Element A)) (e : Element A)
      → Wired 0 es
      → get_elem? es i ≡ some e
      → call_next now e.next d es ≡ modify (suc i) (schedule_work now d) es
  call_next-Wired now i d es e w h = elim (Wired-next 0 i es e w h) [
    | inl n ↦
        let at : 0 + suc i ≡ suc i = omega arith in
        rw n (ap (λ j. modify j (schedule_work now d) es) at)
    | inr (n, l) ↦
        let at : length es ≤ suc i = omega arith in
        rw n (sym (modify_beyond (schedule_work now d) (suc i) es at))
  ]

  -- The last element has no `next_`.
  abbrev pub Ended : List (Element A) → Type 0
  Ended [] = Unit
  Ended (e ∷ []) = e.next ≡ none
  Ended (e ∷ f ∷ es) = Ended (f ∷ es)

  pub Wired-Ended : (k : ℕ) (es : List (Element A)) → Wired k es → Ended es
  Wired-Ended k [] w = tt
  Wired-Ended k (e ∷ []) w = w
  Wired-Ended k (e ∷ f ∷ es) w = Wired-Ended (suc k) (f ∷ es) w.1

  pub IsFresh-Ended : (es : List (Element A)) → All IsFresh es → Ended es
  IsFresh-Ended [] f = tt
  IsFresh-Ended (e ∷ []) ((a, b, c, d), r) = c
  IsFresh-Ended (e ∷ f ∷ es) (h, r) = IsFresh-Ended (f ∷ es) r

  pub IsFresh-Carried : (es : List (Element A)) → All IsFresh es → Carried es
  IsFresh-Carried [] f = tt
  IsFresh-Carried (e ∷ []) f = tt
  IsFresh-Carried (e ∷ f ∷ es) ((a, b, c, d), ((h, i, j, k), r)) = (
    ap (results_from e.work.leaves []) a ∙ sym (ap (λ l. l ++ f.posted) h ∙ i),
    IsFresh-Carried (f ∷ es) ((h, i, j, k), r),
  )

  -- The loop of `compile` joins the elements and changes nothing else.
  pub set_nexts-Wired : (k : ℕ) (es : List (Element A)) → Ended es → Wired k (set_nexts k es)
  unfolding set_nexts
  set_nexts-Wired k [] e = tt
  set_nexts-Wired k (e ∷ []) n = n
  set_nexts-Wired k (e ∷ f ∷ []) n = (refl, n)
  set_nexts-Wired k (e ∷ f ∷ g ∷ es) n = (refl, set_nexts-Wired (suc k) (f ∷ g ∷ es) n)

  pub set_nexts-Carried : (k : ℕ) (es : List (Element A)) → Carried es → Carried (set_nexts k es)
  unfolding set_nexts
  set_nexts-Carried k [] c = tt
  set_nexts-Carried k (e ∷ []) c = tt
  set_nexts-Carried k (e ∷ f ∷ []) c = c
  set_nexts-Carried k (e ∷ f ∷ g ∷ es) c = (c.0, set_nexts-Carried (suc k) (f ∷ g ∷ es) c.1)

  set_nexts-IsPlain :
      (k : ℕ) (es : List (Element A)) → All IsPlain es → All IsPlain (set_nexts k es)
  unfolding set_nexts
  set_nexts-IsPlain k [] p = tt
  set_nexts-IsPlain k (e ∷ []) p = p
  set_nexts-IsPlain k (e ∷ f ∷ es) p = (p.0, set_nexts-IsPlain (suc k) (f ∷ es) p.1)

  pub set_nexts-Headed : (k : ℕ) (es : List (Element A)) → Headed es → Headed (set_nexts k es)
  unfolding set_nexts
  set_nexts-Headed k [] h = tt
  set_nexts-Headed k (e ∷ []) h = h
  set_nexts-Headed k (e ∷ f ∷ es) (t, p) = (t, set_nexts-IsPlain (suc k) (f ∷ es) p)
