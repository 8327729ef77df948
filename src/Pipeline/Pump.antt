-- ===== src/Pipeline/Pump.antt =====
-- The pump at the head of a pipeline: the timer of src/Pipeline/TimedWorkWrapper.h under the
-- operations of src/Pipeline/Pipeline.h.
use sec_mon.Prelude.{
  sym, get_elem-modify, modify-modify, ℕ, zero, suc, ◌≡◌, refl, ap, ◌∙◌, subst, inl, inr, true,
  false, Option, none, some, List, ◌∷◌, arith, get_elem?, modify, All,
}
use sec_mon.Pipeline.WorkWrapper.{
  Element, Timer, ErrorCode, success, operation_aborted, other_error, schedule_work, did_work,
  restart_timer, expire,
}
use sec_mon.Pipeline.{Pipeline, returns, did_work_at, timed_do_work, on_timer}
use sec_mon.Pipeline.Results.{Wired, IsFresh}
use sec_mon.Pipeline.Wiring.{Wired-head, Wired-modify}
use sec_mon.Pipeline.Building.{Inv, building, built}
use sec_mon.Pipeline.Working.{do_work_at_lem, timed_do_work_lem, did_work_at_form}
use sec_mon.Pipeline.Order.{IsFresh-get, Reach-Inv}
use sec_mon.Pipeline.Runs.{
  Step, adds_timed, adds_timed_named, adds, adds_named, compiles, starts, pauses, changes_timer,
  expires, runs_timer, runs_posted, Reach, here, next,
}
use sec_mon.Pipeline.Live.{
  IsLive, Any-append-last, drop_aborted, Pump, no_pump, pumping, add_element-Pump,
  add_element_named-Pump, add_timed_element-Pump, add_timed_element_named-Pump, compile-Pump,
  start-Pump, pause-Pump, change_timer-Pump,
}

module _ {A : Type 0} where
  -- A wait has ended, or a handler is queued: the pipeline is compiled, so its elements are joined.
  busy-Wired :
      (p : Pipeline A) (e : Element A) (es : List (Element A)) (t : Timer) (c : ErrorCode)
      (cs : List ErrorCode)
      → p.elements ≡ e ∷ es
      → e.timer ≡ some t
      → t.handlers ≡ c ∷ cs
      → Inv p
      → Wired 0 (e ∷ es)
  busy-Wired p e es t c cs a k q (building n f h) =
      let idle = ((subst (All IsFresh) a f).0.3 t k).0 in absurd cc
  busy-Wired p e es t c cs a k q (built n h d w) = subst (λ v. Wired 0 v) a w

  expire-Pump :
      (p : Pipeline A) (e : Element A) (es : List (Element A)) (t : Timer)
      → p.elements ≡ e ∷ es
      → e.timer ≡ some t
      → Pump p
      → Pump (record p { elements = record e { timer = some (expire t) } ∷ es })
  unfolding expire
  expire-Pump p e es t a k (no_pump b s u) = absurd cc
  expire-Pump p e es t a k (pumping f fs v b l u m) =
      pumping (record e { timer = some (expire t) }) es (expire t) refl refl (ground arith)
        (λ x y. inr (Any-append-last t.handlers))

  -- The first element works: it is left as the only one whose timer changes.
  timed_do_work-front :
      (from to : ℕ) (e : Element A) (es fs : List (Element A)) (t : Timer)
      → e.timer ≡ some t
      → Wired 0 (e ∷ es)
      → timed_do_work from to success (e ∷ es) ≡ returns fs
      → (f : Element A) × (gs : List (Element A)) × (fs ≡ f ∷ gs)
        × (f.timer ≡ some (restart_timer t))
  unfolding timed_do_work
  timed_do_work-front from to e es fs t k w q =
      let form = did_work_at_form from to 0 none (e ∷ es) e refl w in
      let same = timed_do_work_lem from to (e ∷ es) fs q in
      (
        on_timer restart_timer (did_work from to none e).1,
        modify 0 (schedule_work to (e.work.leaves e.seen none)) es,
        same ∙ ap (modify 0 (on_timer restart_timer)) form,
        ground arith,
      )

  runs_timer-Pump :
      (p : Pipeline A) (from to : ℕ) (e : Element A) (es : List (Element A)) (t : Timer)
      (c : ErrorCode) (cs : List ErrorCode) (fs : List (Element A))
      → p.elements ≡ e ∷ es
      → e.timer ≡ some t
      → t.handlers ≡ c ∷ cs
      → timed_do_work from to c (record e { timer = some (record t { handlers = cs }) } ∷ es)
        ≡ returns fs
      → Wired 0 (e ∷ es)
      → Pump p
      → Pump (record p { elements = fs })
  unfolding timed_do_work restart_timer
  runs_timer-Pump p from to e es t c cs fs a k q r w (no_pump b s u) = absurd cc
  runs_timer-Pump p from to e es t success cs fs a k q r w (pumping g gs v b l u m) =
      let (f, hs, x, y) =
        timed_do_work-front from to (record e { timer = some (record t { handlers = cs }) }) es fs
          (record t { handlers = cs }) refl
          (Wired-head 0 e (record e { timer = some (record t { handlers = cs }) }) es refl w) r in
      pumping f hs (restart_timer (record t { handlers = cs })) x y (ground arith) (λ i j. inl refl)
  runs_timer-Pump p from to e es t operation_aborted cs fs a k q r w (pumping g gs v b l u m) =
      pumping (record e { timer = some (record t { handlers = cs }) }) es
        (record t { handlers = cs }) (ground arith) refl (ground arith)
        (λ i j. let same : v ≡ t = ground arith in drop_aborted t cs q (subst IsLive same (m i j)))
  runs_timer-Pump p from to e es t other_error cs fs a k q r w (pumping g gs v b l u m) = absurd cc

  -- Changes of other elements and of the first one's queues leave its timer.
  front_timer :
      (F S : Element A → Element A) (i : ℕ) (e : Element A) (es : List (Element A))
      → (F e).timer ≡ e.timer
      → (f : Element A) × (fs : List (Element A)) × (modify (suc i) S (modify i F (e ∷ es))
          ≡ f ∷ fs)
        × (f.timer ≡ e.timer)
  front_timer F S zero e es h = (F e, modify 0 S es, refl, h)
  front_timer F S (suc i) e es h = (e, modify (suc i) S (modify i F es), refl, refl)

  runs_posted-Pump :
      (p : Pipeline A) (from to i : ℕ) (e : Element A) (d : Option A) (ds : List (Option A))
      → get_elem? p.elements i ≡ some e
      → Wired 0 p.elements
      → Pump p
      → Pump (record p {
        elements = did_work_at from to i d (modify i (λ g. record g { posted = ds }) p.elements);
      })
  runs_posted-Pump p from to i e d ds g w (no_pump a s u) =
      let none_there : get_elem? p.elements i ≡ none = ap (λ l. get_elem? l i) a in absurd cc
  runs_posted-Pump p from to i e d ds g w (pumping f fs t a k u l) =
      let form =
        did_work_at_form from to i d (modify i (λ g. record g { posted = ds }) p.elements)
          (record e { posted = ds })
          (get_elem-modify (λ g. record g { posted = ds }) i p.elements e g)
          (Wired-modify 0 (λ g. record g { posted = ds }) (λ g. refl) i p.elements w) in
      let (h, hs, x, y) =
        front_timer (λ g. (did_work from to d (record g { posted = ds })).1)
          (schedule_work to (e.work.leaves e.seen d)) i f fs refl in
      pumping h hs t
        (form
          ∙ ap (modify (suc i) (schedule_work to (e.work.leaves e.seen d))) (
              modify-modify (λ g. (did_work from to d g).1) (λ g. record g { posted = ds }) i
                p.elements)
          ∙ ap
              (λ v.
                modify (suc i) (schedule_work to (e.work.leaves e.seen d))
                  (modify i (λ g. (did_work from to d (record g { posted = ds })).1) v))
              a
          ∙ x)
        (y ∙ k) u l

  pub posted-Wired :
      (p : Pipeline A) (i : ℕ) (e : Element A) (d : Option A) (ds : List (Option A))
      → get_elem? p.elements i ≡ some e
      → e.posted ≡ d ∷ ds
      → Inv p
      → Wired 0 p.elements
  posted-Wired p i e d ds g q (building n f h) =
      let idle = IsFresh-get i p.elements e g f in absurd cc
  posted-Wired p i e d ds g q (built n h c w) = w

  Step-Pump : {p q : Pipeline A} → Step p q → Inv p → Pump p → Pump q
  Step-Pump {p} (adds_timed n work q h) i m = add_timed_element-Pump n work p q h m
  Step-Pump {p} (adds_timed_named n work name q h) i m =
      add_timed_element_named-Pump n work name p q h m
  Step-Pump {p} (adds work q h) i m = add_element-Pump work p q h m
  Step-Pump {p} (adds_named work name q h) i m = add_element_named-Pump work name p q h m
  Step-Pump {p} compiles i m = compile-Pump p m
  Step-Pump {p} (starts now q h) i m = start-Pump now p q h m
  Step-Pump {p} (pauses now q h) i m = pause-Pump now p q h m
  Step-Pump {p} (changes_timer ms q h) i m = change_timer-Pump ms p q h m
  Step-Pump {p} (expires e es t a k up) i m = expire-Pump p e es t a k m
  Step-Pump {p} (runs_timer from to e es t c cs fs a k h r) i m =
      runs_timer-Pump p from to e es t c cs fs a k h r (busy-Wired p e es t c cs a k h i) m
  Step-Pump {p} (runs_posted from to j e d ds fs g k h) i m =
      subst (λ es. Pump (record p { elements = es })) (sym (do_work_at_lem from to j d _ fs h))
        (runs_posted-Pump p from to j e d ds g (posted-Wired p j e d ds g k i) m)

  Reach-Pump : {n : ℕ} {p : Pipeline A} → Reach n p → Pump p
  Reach-Pump here = no_pump refl refl refl
  Reach-Pump (next r s) = Step-Pump s (Reach-Inv r) (Reach-Pump r)

  -- In every run, a pipeline that is started and not paused has a first element with a timer that is
  -- live: a wait is under way, or the handler of a wait that ended without an error is queued. An
  -- exception that `work_` throws, or that a timer's error throws, leaves the handler and ends the run;
  -- nothing else stops the pump, whatever the order of pauses, expiries and handlers.
  pub Reach-IsLive :
      {n : ℕ} {p : Pipeline A}
      → Reach n p
      → p.started ≡ true
      → p.paused ≡ false
      → (e : Element A) × (es : List (Element A)) × (t : Timer) × (p.elements ≡ e ∷ es)
        × (e.timer ≡ some t)
        × IsLive t
  Reach-IsLive {n} {p} r s u = elim (Reach-Pump r) [
    | no_pump a b c ↦ absurd cc
    | pumping e es t a k m l ↦ (e, es, t, a, k, l s u)
  ]
