-- ===== src/Pipeline/Order.antt =====
-- The data between the elements of a pipeline, in the runs of src/Pipeline/Pipeline.h,
-- src/Pipeline/WorkWrapper.h and src/Pipeline/TimedWorkWrapper.h.
use sec_mon.Prelude.{
  get_elem-modify, ℕ, zero, suc, ◌≡◌, refl, sym, ap, ◌∙◌, subst, true, Option, none, some, List, [],
  ◌∷◌, ◌++◌, append-nil, get_elem?, modify, All,
}
use sec_mon.Pipeline.WorkWrapper.{
  Element, ErrorCode, Timer, success, operation_aborted, other_error, schedule_work, restart_timer,
  pause_timer, expire,
}
use sec_mon.Pipeline.{Pipeline, returns, new_queue, did_work_at, timed_do_work, on_timer}
use sec_mon.Pipeline.Runs.{
  Step, adds_timed, adds_timed_named, adds, adds_named, compiles, starts, pauses, changes_timer,
  expires, runs_timer, runs_posted, Reach, here, next,
}
use sec_mon.Pipeline.Results.{results, results_from, Carried, Wired, Headed, IsFresh, Carried-head}
use sec_mon.Pipeline.Wiring.{Wired-head, Wired-modify, Headed-modify}
use sec_mon.Pipeline.Building.{
  Inv, building, built, Carried-Inv, compile-Inv, front-Inv, timed-Inv, plain-Inv, timer-Inv,
  add_timed_element_form, add_timed_element_named_form, add_element_form, add_element_named_form,
  start_form, pause_form, change_timer_form, schedule_work_timed, on_timer_timed,
}
use sec_mon.Pipeline.Working.{
  do_work_at_lem, timed_do_work_lem, did_work_at-Headed, pump-Carried, posted-Carried,
}

module _ {A : Type 0} where
  expire-Inv :
      (p : Pipeline A) (e : Element A) (es : List (Element A)) (t : Timer)
      → p.elements ≡ e ∷ es
      → e.timer ≡ some t
      → t.waiting ≡ true
      → Inv p
      → Inv (record p { elements = record e { timer = some (expire t) } ∷ es })
  expire-Inv p e es t a k up (building c f h) =
      let idle = ((subst (All IsFresh) a f).0.3 t k).1 in absurd cc
  expire-Inv p e es t a k up (built c h r w) =
      front-Inv p (record p { elements = record e { timer = some (expire t) } ∷ es }) e es
        (expire t) c c a refl (built c h r w)

  -- A call on the timer of the first element leaves the elements joined.
  on_timer-built :
      (f : Timer → Timer) (es : List (Element A))
      → Headed es
      → Carried es
      → Wired 0 es
      → Headed (modify 0 (on_timer f) es)
        × Carried (modify 0 (on_timer f) es)
        × Wired 0 (modify 0 (on_timer f) es)
  on_timer-built f [] h c w = (tt, tt, tt)
  on_timer-built f (e ∷ es) ((t, k), p) c w =
      let (u, m) = on_timer_timed f e t k in
      subst (λ x. Headed (x ∷ es) × Carried (x ∷ es) × Wired 0 (x ∷ es)) (sym m)
        (
          ((u, refl), p),
          Carried-head e (record e { timer = some u }) es refl c,
          Wired-head 0 e (record e { timer = some u }) es refl w,
        )

  -- The first element's handler, in a compiled pipeline.
  timed_do_work-built :
      (from to : ℕ) (c : ErrorCode) (e : Element A) (es fs : List (Element A))
      → timed_do_work from to c (e ∷ es) ≡ returns fs
      → Headed (e ∷ es)
      → Carried (e ∷ es)
      → Wired 0 (e ∷ es)
      → Headed fs × Carried fs × Wired 0 fs
  unfolding timed_do_work
  timed_do_work-built from to success e es fs q h c w =
      let same = sym (timed_do_work_lem from to (e ∷ es) fs q) in
      let (i, j) = did_work_at-Headed from to 0 none (e ∷ es) e refl h w in
      subst (λ x. Headed x × Carried x × Wired 0 x) same
        (on_timer-built restart_timer (did_work_at from to 0 none (e ∷ es)) i
          (pump-Carried from to none e es h c w) j)
  timed_do_work-built from to operation_aborted e es fs q h c w =
      let same : e ∷ es ≡ fs = cc in subst (λ x. Headed x × Carried x × Wired 0 x) same (h, c, w)
  timed_do_work-built from to other_error e es fs q h c w = absurd cc

  runs_timer-Inv :
      (p : Pipeline A) (from to : ℕ) (e : Element A) (es : List (Element A)) (t : Timer)
      (c : ErrorCode) (cs : List ErrorCode) (fs : List (Element A))
      → p.elements ≡ e ∷ es
      → e.timer ≡ some t
      → t.handlers ≡ c ∷ cs
      → timed_do_work from to c (record e { timer = some (record t { handlers = cs }) } ∷ es)
        ≡ returns fs
      → Inv p
      → Inv (record p { elements = fs })
  runs_timer-Inv p from to e es t c cs fs a k q r (building n f h) =
      let idle = ((subst (All IsFresh) a f).0.3 t k).0 in absurd cc
  runs_timer-Inv p from to e es t c cs fs a k q r (built n h d w) =
      let (x, y, z) =
        timed_do_work-built from to c (record e { timer = some (record t { handlers = cs }) }) es fs
          r ((record t { handlers = cs }, refl), (subst Headed a h).1)
          (Carried-head e (record e { timer = some (record t { handlers = cs }) }) es refl
            (subst Carried a d))
          (Wired-head 0 e (record e { timer = some (record t { handlers = cs }) }) es refl
            (subst (λ v. Wired 0 v) a w)) in
      built n x y z

  pub IsFresh-get :
      (i : ℕ) (es : List (Element A)) (e : Element A)
      → get_elem? es i ≡ some e
      → All IsFresh es
      → e.posted ≡ []
  IsFresh-get i [] e g f = absurd cc
  IsFresh-get zero (x ∷ es) e g f = let same : x ≡ e = cc in subst (λ y. y.posted ≡ []) same f.0.1
  IsFresh-get (suc i) (x ∷ es) e g f = IsFresh-get i es e g f.1

  runs_posted-Inv :
      (p : Pipeline A) (from to i : ℕ) (e : Element A) (d : Option A) (ds : List (Option A))
      → get_elem? p.elements i ≡ some e
      → e.posted ≡ d ∷ ds
      → Inv p
      → Inv (record p {
        elements = did_work_at from to i d (modify i (λ g. record g { posted = ds }) p.elements);
      })
  runs_posted-Inv p from to i e d ds g q (building n f h) =
      let idle = IsFresh-get i p.elements e g f in absurd cc
  runs_posted-Inv p from to i e d ds g q (built n h c w) =
      let (x, y) =
        did_work_at-Headed from to i d (modify i (λ g. record g { posted = ds }) p.elements)
          (record e { posted = ds })
          (get_elem-modify (λ g. record g { posted = ds }) i p.elements e g)
          (Headed-modify (λ g. record g { posted = ds }) (λ f q. q) (λ f t q. (t, q)) i p.elements
            h)
          (Wired-modify 0 (λ g. record g { posted = ds }) (λ g. refl) i p.elements w) in
      built n x (posted-Carried from to i d ds p.elements e g q h c w) y

  pub Step-Inv : {p q : Pipeline A} → Step p q → Inv p → Inv q
  Step-Inv {p} (adds_timed n work q h) i =
      timed-Inv work n (new_queue p.stats_interval) q (add_timed_element_form n work p q h)
  Step-Inv {p} (adds_timed_named n work name q h) i =
      timed-Inv work n (new_queue p.stats_interval) q
        (add_timed_element_named_form n work name p q h)
  Step-Inv {p} (adds work q h) i =
      plain-Inv work (new_queue p.stats_interval) p q (add_element_form work p q h) i
  Step-Inv {p} (adds_named work name q h) i =
      plain-Inv work (new_queue p.stats_interval) p q (add_element_named_form work name p q h) i
  Step-Inv {p} compiles i = compile-Inv p i
  Step-Inv {p} (starts now q h) i =
      timer-Inv (schedule_work now none) p q (schedule_work_timed now) (start_form now p q h) i
  Step-Inv {p} (pauses now q h) i =
      timer-Inv (on_timer (pause_timer now)) p q (on_timer_timed (pause_timer now))
        (pause_form now p q h) i
  Step-Inv {p} (changes_timer ms q h) i =
      timer-Inv (on_timer (λ t. record t { milliseconds = ms })) p q
        (on_timer_timed (λ t. record t { milliseconds = ms })) (change_timer_form ms p q h) i
  Step-Inv {p} (expires e es t a k up) i = expire-Inv p e es t a k up i
  Step-Inv {p} (runs_timer from to e es t c cs fs a k h r) i =
      runs_timer-Inv p from to e es t c cs fs a k h r i
  Step-Inv {p} (runs_posted from to j e d ds fs g k h) i =
      subst (λ es. Inv (record p { elements = es })) (sym (do_work_at_lem from to j d _ fs h))
        (runs_posted-Inv p from to j e d ds g k i)

  pub Reach-Inv : {n : ℕ} {p : Pipeline A} → Reach n p → Inv p
  Reach-Inv here = building refl tt tt
  Reach-Inv (next r s) = Step-Inv s (Reach-Inv r)

  Carried-get :
      (i : ℕ) (es : List (Element A)) (e f : Element A)
      → get_elem? es i ≡ some e
      → get_elem? es (suc i) ≡ some f
      → Carried es
      → results e ≡ f.seen ++ f.posted
  Carried-get i [] e f g h c = absurd cc
  Carried-get i (x ∷ []) e f g h c = absurd cc
  Carried-get zero (x ∷ y ∷ es) e f g h c =
      let same : x ≡ e = cc in
      let this : y ≡ f = cc in
      subst (λ v. results v ≡ f.seen ++ f.posted) same
        (subst (λ v. results x ≡ v.seen ++ v.posted) this c.0)
  Carried-get (suc i) (x ∷ y ∷ es) e f g h c = Carried-get i (y ∷ es) e f g h c.1

  -- In every run, what an element's work has made of its data is, in order, what the next element has
  -- seen followed by what is posted for it: no datum is lost, repeated or overtaken between them.
  pub Reach-Carried :
      {n : ℕ} {p : Pipeline A}
      → Reach n p
      → (i : ℕ) (e f : Element A) → get_elem? p.elements i ≡ some e
      → get_elem? p.elements (suc i) ≡ some f
      → results e ≡ f.seen ++ f.posted
  Reach-Carried {n} {p} r i e f g h = Carried-get i p.elements e f g h (Carried-Inv (Reach-Inv r))

  -- The works of the elements one after the other, each on all that the one before has made.
  abbrev pub sequential : List (Element A) → List (Option A) → List (Option A)
  sequential [] xs = xs
  sequential (e ∷ es) xs = sequential es (results_from e.work.leaves [] xs)

  abbrev pub last_results : Element A → List (Element A) → List (Option A)
  last_results e [] = results e
  last_results e (f ∷ es) = last_results f es

  abbrev pub IsIdle : Element A → Type 0
  IsIdle e = e.posted ≡ []

  Carried-sequential :
      (e : Element A) (es : List (Element A))
      → All IsIdle es
      → Carried (e ∷ es)
      → last_results e es ≡ sequential (e ∷ es) e.seen
  Carried-sequential e [] i c = refl
  Carried-sequential e (f ∷ es) (h, i) c =
      Carried-sequential f es i c.1
      ∙ ap (sequential (f ∷ es)) (sym (c.0 ∙ ap (◌++◌ f.seen) h ∙ append-nil f.seen))

  -- In every run, once nothing is posted for any element, the last element has made what the works,
  -- applied one after the other to all that the first was called with, make.
  pub Reach-sequential :
      {n : ℕ} {p : Pipeline A}
      → Reach n p
      → (e : Element A) (es : List (Element A)) → p.elements ≡ e ∷ es
      → All IsIdle es
      → last_results e es ≡ sequential (e ∷ es) e.seen
  Reach-sequential r e es a i =
      Carried-sequential e es i (subst Carried a (Carried-Inv (Reach-Inv r)))
