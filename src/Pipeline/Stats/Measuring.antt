-- ===== src/Pipeline/Stats/Measuring.antt =====
-- The rounds of the statistics timer in the runs of a pipeline (src/Pipeline/Pipeline.h,
-- src/Pipeline/WorkWrapper.h).
use sec_mon.Prelude.{
  get_elem-modify, ℕ, ◌<◌, ◌≡◌, refl, sym, ap, ◌∙◌, subst, true, false, none, some, List, [], ◌∷◌,
  ◌++◌, length, modify, arith, All, All-append, All-modify, lt→ltb,
}
use sec_mon.Pipeline.WorkWrapper.{
  Work, Element, Timer, schedule_work, pause_timer, expire, new_work_wrapper,
  new_timed_work_wrapper,
}
use sec_mon.Pipeline.{
  Pipeline, new_pipeline, new_queue, add_timed_element, add_timed_element_named, add_element,
  add_element_named, compile, pause, start, change_timer, on_timer,
}
use sec_mon.Pipeline.Runs.{
  Step, adds_timed, adds_timed_named, adds, adds_named, compiles, starts, pauses, changes_timer,
  expires, runs_timer, runs_posted,
}
use sec_mon.Pipeline.Results.{Headed, IsFresh}
use sec_mon.Pipeline.Building.{
  Inv, building, built, add_timed_element_form, add_timed_element_named_form, add_element_form,
  add_element_named_form, start_form, pause_form, change_timer_form, schedule_work_timed,
  on_timer_timed, Headed-Inv,
}
use sec_mon.Pipeline.Working.{do_work_at_lem}
use sec_mon.Pipeline.Stats.Counts.{
  Measures, did_work_at-Measures, timed_do_work-Measures, set_nexts-Measures,
}

positive_queue : (n : ℕ) → 0 < n → new_queue n ≡ some []
positive_queue n h = rw (lt→ltb 0 n h) refl

module _ {A : Type 0} where
  -- The elements of a pipeline with statistics, from each of whose queues equally many times have been
  -- taken.
  pub record Counted (n : ℕ) (p : Pipeline A) : Type 0 where
    pub interval : p.stats_interval ≡ n
    pub taken : ℕ
    pub measured : All (Measures taken) p.elements

  timed-Counted :
      (n m : ℕ) (work : Work A) (p q : Pipeline A)
      → 0 < n
      → Counted n p
      → q.stats_interval ≡ p.stats_interval
      → q.elements ≡ new_timed_work_wrapper work m (new_queue p.stats_interval) ∷ []
      → Counted n q
  timed-Counted n m work p q up c i e = record {
    interval = i ∙ c.interval;
    taken = 0;
    measured =
        subst (All (Measures 0)) (sym e)
          (([], ap new_queue c.interval ∙ positive_queue n up, refl), tt);
  }

  plain-Counted :
      (n : ℕ) (work : Work A) (p q : Pipeline A) (e : Element A) (es : List (Element A))
      → 0 < n
      → p.compiled ≡ false
      → Inv p
      → Counted n p
      → p.elements ≡ e ∷ es
      → q.stats_interval ≡ p.stats_interval
      → q.elements ≡ p.elements ++ new_work_wrapper work (new_queue p.stats_interval) ∷ []
      → Counted n q
  plain-Counted n work p q e es up d (built x h r w) c a i b = absurd cc
  plain-Counted n work p q e es up d (building x f h) c a i b =
      let (k, l, m) = (subst (All (Measures c.taken)) a c.measured).0 in
      let unseen = (subst (All IsFresh) a f).0.0 in
      let none_taken : c.taken ≡ 0 = omega (arith, m, ap length unseen) in
      record {
        interval = i ∙ c.interval;
        taken = c.taken;
        measured = subst (All (Measures c.taken)) (sym b) (
            All-append (Measures c.taken) p.elements
              (new_work_wrapper work (new_queue p.stats_interval) ∷ []) c.measured
              (([], ap new_queue c.interval ∙ positive_queue n up, omega (arith, none_taken)), tt));
      }

  -- A change of the first element that concerns its timer only.
  timer-Counted :
      (n : ℕ) (F : Element A → Element A) (p q : Pipeline A)
      → ((e : Element A) (t : Timer)
          → e.timer ≡ some t
          → (u : Timer) × (F e ≡ record e { timer = some u }))
      → q.stats_interval ≡ p.stats_interval
      → (p.compiled ≡ true)
        × (q.compiled ≡ true)
        × (e : Element A) × (es : List (Element A)) × (p.elements ≡ e ∷ es)
        × (q.elements ≡ F e ∷ es)
      → Inv p
      → Counted n p
      → Counted n q
  timer-Counted n F p q h i (x, y, e, es, a, b) inv c =
      let (t, k) = (subst Headed a (Headed-Inv inv)).0 in
      let (u, m) = h e t k in
      record {
        interval = i ∙ c.interval;
        taken = c.taken;
        measured =
            subst (All (Measures c.taken)) (sym (b ∙ ap (λ f. f ∷ es) m))
              (subst (All (Measures c.taken)) a c.measured);
      }

  pub begins-Counted : (n : ℕ) → Counted n (new_pipeline {A = A} n)
  begins-Counted n = record { interval = refl; taken = 0; measured = tt }

  -- The elements change and the interval does not.
  same-Counted :
      (n : ℕ) (p : Pipeline A) (es : List (Element A))
      → ((k : ℕ) → All (Measures k) p.elements → All (Measures k) es)
      → Counted n p
      → Counted n (record p { elements = es })
  same-Counted n p es h c = record {
    interval = c.interval;
    taken = c.taken;
    measured = h c.taken c.measured;
  }

  pub Step-Counted :
      {n : ℕ} {p q : Pipeline A} → 0 < n → Step p q → Inv p → Counted n p → Counted n q
  unfolding add_timed_element add_timed_element_named add_element add_element_named start pause
      change_timer compile
  Step-Counted {n} {p} up (adds_timed m work q h) i c =
      timed-Counted n m work p q up c (ground arith) (add_timed_element_form m work p q h).1
  Step-Counted {n} {p} up (adds_timed_named m work name q h) i c =
      timed-Counted n m work p q up c (ground arith)
        (add_timed_element_named_form m work name p q h).1
  Step-Counted {n} {p} up (adds work q h) i c =
      let (d, x, e, es, a, b) = add_element_form work p q h in
      plain-Counted n work p q e es up d i c a (ground arith) b
  Step-Counted {n} {p} up (adds_named work name q h) i c =
      let (d, x, e, es, a, b) = add_element_named_form work name p q h in
      plain-Counted n work p q e es up d i c a (ground arith) b
  Step-Counted {n} {p} up compiles i c = record {
    interval = c.interval;
    taken = c.taken;
    measured = set_nexts-Measures c.taken 0 p.elements c.measured;
  }
  Step-Counted {n} {p} up (starts now q h) i c =
      timer-Counted n (schedule_work now none) p q (schedule_work_timed now) (ground arith)
        (start_form now p q h) i c
  Step-Counted {n} {p} up (pauses now q h) i c =
      timer-Counted n (on_timer (pause_timer now)) p q (on_timer_timed (pause_timer now))
        (ground arith) (pause_form now p q h) i c
  Step-Counted {n} {p} up (changes_timer ms q h) i c =
      timer-Counted n (on_timer (λ t. record t { milliseconds = ms })) p q
        (on_timer_timed (λ t. record t { milliseconds = ms })) (ground arith)
        (change_timer_form ms p q h) i c
  Step-Counted {n} {p} up (expires e es t a k w) i c =
      same-Counted n p (record e { timer = some (expire t) } ∷ es)
        (λ j h. subst (All (Measures j)) a h) c
  Step-Counted {n} {p} up (runs_timer from to e es t o cs fs a k h r) i c =
      same-Counted n p fs
        (λ j m.
          timed_do_work-Measures j from to o
            (record e { timer = some (record t { handlers = cs }) }) es fs r
            (subst (All (Measures j)) a m))
        c
  Step-Counted {n} {p} up (runs_posted from to j e d ds fs g k r) i c =
      same-Counted n p fs
        (λ m h. subst (All (Measures m)) (sym (do_work_at_lem from to j d _ fs r)) (
          did_work_at-Measures m from to j d (modify j (λ f. record f { posted = ds }) p.elements)
            (record e { posted = ds })
            (get_elem-modify (λ f. record f { posted = ds }) j p.elements e g)
            (All-modify (Measures m) (λ f. record f { posted = ds }) (λ f x. x) j p.elements h)))
        c
