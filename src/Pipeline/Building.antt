-- ===== src/Pipeline/Building.antt =====
-- Putting a pipeline of src/Pipeline/Pipeline.h together, and the operations on its timer: what they
-- make of the elements.
use sec_mon.Prelude.{
  ℕ, ◌≡◌, refl, sym, ap, ◌∙◌, subst, true, false, Option, none, some, List, [], ◌∷◌, ◌++◌, arith,
  All, All-append,
}
use sec_mon.Prelude.Text.{Bytes}
use sec_mon.Pipeline.WorkWrapper.{
  Work, Element, Timer, schedule_work, pause_timer, start_timer, new_work_wrapper,
  new_timed_work_wrapper,
}
use sec_mon.Pipeline.{
  Pipeline, returns, add_timed_element, add_timed_element_named, add_element, new_queue,
  add_element_named, compile, pause, start, change_timer, on_timer,
}
use sec_mon.Pipeline.Results.{Carried, Wired, Headed, IsPlain, IsFresh, Carried-head}
use sec_mon.Pipeline.Wiring.{
  Ended, Wired-head, Wired-Ended, IsFresh-Ended, IsFresh-Carried, set_nexts-Wired,
  set_nexts-Carried, set_nexts-Headed,
}

module _ {A : Type 0} where
  -- A pipeline that is being put together, and one that is compiled.
  pub data Inv (p : Pipeline A) : Type 0 where
    building : p.compiled ≡ false → All IsFresh p.elements → Headed p.elements → Inv p
    built : p.compiled ≡ true → Headed p.elements → Carried p.elements → Wired 0 p.elements → Inv p

  pub Ended-Inv : {p : Pipeline A} → Inv p → Ended p.elements
  Ended-Inv {p} (building c f h) = IsFresh-Ended p.elements f
  Ended-Inv {p} (built c h r w) = Wired-Ended 0 p.elements w

  pub Carried-Inv : {p : Pipeline A} → Inv p → Carried p.elements
  Carried-Inv {p} (building c f h) = IsFresh-Carried p.elements f
  Carried-Inv {p} (built c h r w) = r

  pub Headed-Inv : {p : Pipeline A} → Inv p → Headed p.elements
  Headed-Inv (building c f h) = h
  Headed-Inv (built c h r w) = h

  pub compile-Inv : (p : Pipeline A) → Inv p → Inv (compile p)
  unfolding compile
  compile-Inv p i =
      built refl (set_nexts-Headed 0 p.elements (Headed-Inv i))
        (set_nexts-Carried 0 p.elements (Carried-Inv i))
        (set_nexts-Wired 0 p.elements (Ended-Inv i))

  -- A change of the first element that concerns its timer only.
  pub front-Inv :
      (p q : Pipeline A) (e : Element A) (es : List (Element A)) (t : Timer)
      → p.compiled ≡ true
      → q.compiled ≡ true
      → p.elements ≡ e ∷ es
      → q.elements ≡ record e { timer = some t } ∷ es
      → Inv p
      → Inv q
  front-Inv p q e es t c d a b (building n g h) = absurd cc
  front-Inv p q e es t c d a b (built n h r w) =
      let v = subst Wired0 a w in
      built d (subst Headed (sym b) ((t, refl), (subst Headed a h).1))
        (subst Carried (sym b)
          (Carried-head e (record e { timer = some t }) es refl (subst Carried a r)))
        (subst Wired0 (sym b) (Wired-head 0 e (record e { timer = some t }) es refl v))
    where
      Wired0 : List (Element A) → Type 0
      Wired0 = Wired 0

  pub IsFresh-plain :
      (work : Work A) (q : Option (List (ℕ × ℕ))) → IsFresh (new_work_wrapper work q)
  IsFresh-plain work q = (refl, refl, refl, λ t h. absurd cc)

  pub IsFresh-timed :
      (work : Work A) (n : ℕ) (q : Option (List (ℕ × ℕ)))
      → IsFresh (new_timed_work_wrapper work n q)
  IsFresh-timed work n q = (refl, refl, refl, λ t h. ground arith)

  pub add_timed_element_form :
      (interval : ℕ) (work : Work A) (p q : Pipeline A)
      → add_timed_element interval work p ≡ returns q
      → (q.compiled ≡ false)
        × (q.elements ≡ new_timed_work_wrapper work interval (new_queue p.stats_interval) ∷ [])
  unfolding add_timed_element
  add_timed_element_form interval work p q h = ground arith

  pub add_element_form :
      (work : Work A) (p q : Pipeline A)
      → add_element work p ≡ returns q
      → (p.compiled ≡ false)
        × (q.compiled ≡ false)
        × (e : Element A) × (es : List (Element A)) × (p.elements ≡ e ∷ es)
        × (q.elements ≡ p.elements ++ new_work_wrapper work (new_queue p.stats_interval) ∷ [])
  unfolding add_element
  add_element_form work p q h = ground arith

  pub add_timed_element_named_form :
      (interval : ℕ) (work : Work A) (name : Bytes) (p q : Pipeline A)
      → add_timed_element_named interval work name p ≡ returns q
      → (q.compiled ≡ false)
        × (q.elements ≡ new_timed_work_wrapper work interval (new_queue p.stats_interval) ∷ [])
  unfolding add_timed_element_named add_timed_element
  add_timed_element_named_form interval work name p q h = ground arith

  pub add_element_named_form :
      (work : Work A) (name : Bytes) (p q : Pipeline A)
      → add_element_named work name p ≡ returns q
      → (p.compiled ≡ false)
        × (q.compiled ≡ false)
        × (e : Element A) × (es : List (Element A)) × (p.elements ≡ e ∷ es)
        × (q.elements ≡ p.elements ++ new_work_wrapper work (new_queue p.stats_interval) ∷ [])
  unfolding add_element_named add_element
  add_element_named_form work name p q h = ground arith

  pub timed-Inv :
      (work : Work A) (n : ℕ) (s : Option (List (ℕ × ℕ))) (q : Pipeline A)
      → (q.compiled ≡ false) × (q.elements ≡ new_timed_work_wrapper work n s ∷ [])
      → Inv q
  timed-Inv work n s q (c, e) =
      building c (subst (All IsFresh) (sym e) (IsFresh-timed work n s, tt))
        (subst Headed (sym e) ((_, refl), tt))

  pub plain-Inv :
      (work : Work A) (s : Option (List (ℕ × ℕ))) (p q : Pipeline A)
      → (p.compiled ≡ false)
        × (q.compiled ≡ false)
        × (e : Element A) × (es : List (Element A)) × (p.elements ≡ e ∷ es)
        × (q.elements ≡ p.elements ++ new_work_wrapper work s ∷ [])
      → Inv p
      → Inv q
  plain-Inv work s p q (c, d, e, es, a, b) (built n h r w) = absurd cc
  plain-Inv work s p q (c, d, e, es, a, b) (building n f h) =
      building d
        (subst (All IsFresh) (sym b) (
          All-append IsFresh p.elements (new_work_wrapper work s ∷ []) f
            (IsFresh-plain work s, tt)))
        (subst Headed (sym (b ∙ ap (λ l. l ++ new_work_wrapper work s ∷ []) a)) (
          (subst Headed a h).0,
          All-append IsPlain es (new_work_wrapper work s ∷ []) (subst Headed a h).1 (refl, tt),
        ))

  -- The operations that reach the timer of the first element.
  pub start_form :
      (now : ℕ) (p q : Pipeline A)
      → start now p ≡ returns q
      → (p.compiled ≡ true)
        × (q.compiled ≡ true)
        × (e : Element A) × (es : List (Element A)) × (p.elements ≡ e ∷ es)
        × (q.elements ≡ schedule_work now none e ∷ es)
  unfolding start
  start_form now p q h = ground arith

  pub pause_form :
      (now : ℕ) (p q : Pipeline A)
      → pause now p ≡ returns q
      → (p.compiled ≡ true)
        × (q.compiled ≡ true)
        × (e : Element A) × (es : List (Element A)) × (p.elements ≡ e ∷ es)
        × (q.elements ≡ on_timer (pause_timer now) e ∷ es)
  unfolding pause
  pause_form now p q h = ground arith

  pub change_timer_form :
      (ms : ℕ) (p q : Pipeline A)
      → change_timer ms p ≡ returns q
      → (p.compiled ≡ true)
        × (q.compiled ≡ true)
        × (e : Element A) × (es : List (Element A)) × (p.elements ≡ e ∷ es)
        × (q.elements ≡ on_timer (λ t. record t { milliseconds = ms }) e ∷ es)
  unfolding change_timer
  change_timer_form ms p q h = ground arith

  pub timer-Inv :
      (F : Element A → Element A) (p q : Pipeline A)
      → ((e : Element A) (t : Timer)
          → e.timer ≡ some t
          → (u : Timer) × (F e ≡ record e { timer = some u }))
      → (p.compiled ≡ true)
        × (q.compiled ≡ true)
        × (e : Element A) × (es : List (Element A)) × (p.elements ≡ e ∷ es)
        × (q.elements ≡ F e ∷ es)
      → Inv p
      → Inv q
  timer-Inv F p q h (c, d, e, es, a, b) i =
      let (t, k) = (subst Headed a (Headed-Inv i)).0 in
      let (u, m) = h e t k in front-Inv p q e es u c d a (b ∙ ap (λ f. f ∷ es) m) i

  pub schedule_work_timed :
      (now : ℕ) (e : Element A) (t : Timer)
      → e.timer ≡ some t
      → (u : Timer) × (schedule_work now none e ≡ record e { timer = some u })
  unfolding schedule_work
  schedule_work_timed now e t h = (start_timer now t, rw h refl)

  pub on_timer_timed :
      (f : Timer → Timer) (e : Element A) (t : Timer)
      → e.timer ≡ some t
      → (u : Timer) × (on_timer f e ≡ record e { timer = some u })
  on_timer_timed f e t h = (f t, rw h refl)
