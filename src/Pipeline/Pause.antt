-- ===== src/Pipeline/Pause.antt =====
-- What a pause guarantees (src/Pipeline/Pipeline.h, src/Pipeline/TimedWorkWrapper.h).
use sec_mon.Prelude.{
  get_elem-modify, ℕ, zero, suc, ◌≡◌, refl, sym, ap, ◌∙◌, subst, true, false, Option, some, List,
  [], ◌∷◌, arith, get_elem?, modify, All,
}
use sec_mon.Prelude.Text.{Bytes}
use sec_mon.Pipeline.WorkWrapper.{
  Work, Element, Timer, ErrorCode, operation_aborted, schedule_work, did_work,
}
use sec_mon.Pipeline.{
  Pipeline, returns, add_timed_element, add_timed_element_named, add_element, add_element_named,
  compile, pause, start, change_timer, did_work_at, timed_do_work, set_nexts,
}
use sec_mon.Pipeline.Runs.{
  Step, adds_timed, adds_timed_named, adds, adds_named, compiles, starts, pauses, changes_timer,
  expires, runs_timer, runs_posted, Reach,
}
use sec_mon.Pipeline.Results.{Wired}
use sec_mon.Pipeline.Wiring.{Wired-modify}
use sec_mon.Pipeline.Working.{do_work_at_lem, did_work_at_form}
use sec_mon.Pipeline.Order.{Reach-Inv}
use sec_mon.Pipeline.Pump.{posted-Wired}

abbrev IsAborted : ErrorCode → Type 0
IsAborted c = c ≡ operation_aborted

module _ {A : Type 0} where
  -- A paused pipeline whose first element has worked on the given data, with no wait of its timer under
  -- way and no handler queued but of waits that were aborted.
  pub data IsSilent (seen : List (Option A)) (p : Pipeline A) : Type 0 where
    silent :
        (e : Element A) (es : List (Element A)) (t : Timer)
        → p.compiled ≡ true
        → p.started ≡ true
        → p.paused ≡ true
        → p.elements ≡ e ∷ es
        → e.timer ≡ some t
        → t.waiting ≡ false
        → All (λ c. c ≡ operation_aborted) t.handlers
        → e.posted ≡ []
        → e.seen ≡ seen
        → IsSilent seen p

  compile-IsSilent :
      (seen : List (Option A)) (p : Pipeline A) → IsSilent seen p → IsSilent seen (compile p)
  unfolding compile set_nexts
  compile-IsSilent seen p (silent e [] t c s u a k w h o g) =
      silent e [] t refl s u (ap (set_nexts 0) a) k w h o g
  compile-IsSilent seen p (silent e (f ∷ es) t c s u a k w h o g) =
      silent (record e { next = some 1 }) (set_nexts 1 (f ∷ es)) t refl s u (ap (set_nexts 0) a) k w
        h o g

  pause-IsSilent :
      (seen : List (Option A)) (now : ℕ) (p q : Pipeline A)
      → pause now p ≡ returns q
      → IsSilent seen p
      → q.paused ≡ false
  unfolding pause
  pause-IsSilent seen now p q h (silent e es t c s u a k w l o g) = ground arith

  change_timer-IsSilent :
      (seen : List (Option A)) (ms : ℕ) (p q : Pipeline A)
      → change_timer ms p ≡ returns q
      → IsSilent seen p
      → IsSilent seen q
  unfolding change_timer
  change_timer-IsSilent seen ms p q h (silent e es t c s u a k w l o g) =
      silent (record e { timer = some (record t { milliseconds = ms }) }) es
        (record t { milliseconds = ms }) (ground arith) (ground arith) (ground arith) (ground arith)
        refl w l o g

  runs_timer-IsSilent :
      (seen : List (Option A)) (p : Pipeline A) (from to : ℕ) (e : Element A)
      (es : List (Element A)) (t : Timer) (c : ErrorCode) (cs : List ErrorCode)
      (fs : List (Element A))
      → p.elements ≡ e ∷ es
      → e.timer ≡ some t
      → t.handlers ≡ c ∷ cs
      → timed_do_work from to c (record e { timer = some (record t { handlers = cs }) } ∷ es)
        ≡ returns fs
      → IsSilent seen p
      → IsSilent seen (record p { elements = fs })
  unfolding timed_do_work
  runs_timer-IsSilent seen p from to e es t c cs fs a k q r (silent f gs v n s u b l w h o g) =
      let this : f ≡ e = ground arith in
      let timer : v ≡ t = ground arith in
      let aborted : All IsAborted (c ∷ cs) =
        subst (All IsAborted) (ap (λ x. x.handlers) timer ∙ q) h in
      let left =
        subst
          (λ x.
            timed_do_work from to x (record e { timer = some (record t { handlers = cs }) } ∷ es)
            ≡ returns fs)
          aborted.0 r in
      let unchanged : fs ≡ record e { timer = some (record t { handlers = cs }) } ∷ es = cc in
      silent (record e { timer = some (record t { handlers = cs }) }) es
        (record t { handlers = cs }) n s u unchanged refl (subst (λ x. x.waiting ≡ false) timer w)
        aborted.1 (subst (λ x. x.posted ≡ []) this o) (subst (λ x. x.seen ≡ seen) this g)

  runs_posted-IsSilent :
      (seen : List (Option A)) (p : Pipeline A) (from to i : ℕ) (e : Element A) (d : Option A)
      (ds : List (Option A))
      → get_elem? p.elements i ≡ some e
      → e.posted ≡ d ∷ ds
      → Wired 0 p.elements
      → IsSilent seen p
      → IsSilent seen (record p {
        elements = did_work_at from to i d (modify i (λ g. record g { posted = ds }) p.elements);
      })
  runs_posted-IsSilent seen p from to zero e d ds a k x (silent f gs v n s u b l w h o g) =
      let at : get_elem? p.elements 0 ≡ some f = ap (λ y. get_elem? y 0) b in
      let this : f ≡ e = cc in absurd cc
  runs_posted-IsSilent seen p from to (suc i) e d ds a k x (silent f gs v n s u b l w h o g) =
      let pop : Element A → Element A = λ y. record y { posted = ds } in
      let form =
        did_work_at_form from to (suc i) d (modify (suc i) pop p.elements) (pop e)
          (get_elem-modify pop (suc i) p.elements e a)
          (Wired-modify 0 pop (λ y. refl) (suc i) p.elements x) in
      let next_one : Element A → Element A = schedule_work to (e.work.leaves e.seen d) in
      silent f
        (modify (suc i) next_one (modify i (λ y. (did_work from to d y).1) (modify i pop gs))) v n s
        u
        (form
          ∙ ap
              (λ y.
                modify (suc (suc i)) next_one
                  (modify (suc i) (λ z. (did_work from to d z).1) (modify (suc i) pop y)))
              b)
        l w h o g

  -- The steps that a silent pipeline does not take.
  add_timed_element-silent :
      (seen : List (Option A)) (n : ℕ) (work : Work A) (p q : Pipeline A)
      → add_timed_element n work p ≡ returns q
      → IsSilent seen p
      → ⊥
  unfolding add_timed_element
  add_timed_element-silent seen n work p q h (silent e es t c s u a k w l o g) = ground arith

  add_timed_element_named-silent :
      (seen : List (Option A)) (n : ℕ) (work : Work A) (name : Bytes) (p q : Pipeline A)
      → add_timed_element_named n work name p ≡ returns q
      → IsSilent seen p
      → ⊥
  unfolding add_timed_element_named
  add_timed_element_named-silent seen n work name p q h (silent e es t c s u a k w l o g) =
      ground arith

  add_element-silent :
      (seen : List (Option A)) (work : Work A) (p q : Pipeline A)
      → add_element work p ≡ returns q
      → IsSilent seen p
      → ⊥
  unfolding add_element
  add_element-silent seen work p q h (silent e es t c s u a k w l o g) = ground arith

  add_element_named-silent :
      (seen : List (Option A)) (work : Work A) (name : Bytes) (p q : Pipeline A)
      → add_element_named work name p ≡ returns q
      → IsSilent seen p
      → ⊥
  unfolding add_element_named
  add_element_named-silent seen work name p q h (silent e es t c s u a k w l o g) = ground arith

  start-silent :
      (seen : List (Option A)) (now : ℕ) (p q : Pipeline A)
      → start now p ≡ returns q
      → IsSilent seen p
      → ⊥
  unfolding start
  start-silent seen now p q h (silent e es t c s u a k w l o g) = ground arith

  expire-silent :
      (seen : List (Option A)) (p : Pipeline A) (e : Element A) (es : List (Element A)) (t : Timer)
      → p.elements ≡ e ∷ es
      → e.timer ≡ some t
      → t.waiting ≡ true
      → IsSilent seen p
      → ⊥
  expire-silent seen p e es t a k w (silent f fs v n s u b l x h o g) =
      let timer : v ≡ t = ground arith in
      let idle = subst (λ y. y.waiting ≡ false) timer x in cc (sym w ∙ idle)

  -- From a silent pipeline on, no step but a pause, which resumes it, gives the first element anything to
  -- work on: the pipeline stays silent, and what the first element has seen stays the same.
  pub Step-IsSilent :
      {n : ℕ} {p q : Pipeline A}
      → Reach n p
      → Step p q
      → (seen : List (Option A)) → IsSilent seen p
      → q.paused ≡ true
      → IsSilent seen q
  Step-IsSilent {n} {p} r (adds_timed k work q h) seen m u =
      absurd (add_timed_element-silent seen k work p q h m)
  Step-IsSilent {n} {p} r (adds_timed_named k work name q h) seen m u =
      absurd (add_timed_element_named-silent seen k work name p q h m)
  Step-IsSilent {n} {p} r (adds work q h) seen m u = absurd (add_element-silent seen work p q h m)
  Step-IsSilent {n} {p} r (adds_named work name q h) seen m u =
      absurd (add_element_named-silent seen work name p q h m)
  Step-IsSilent {n} {p} r compiles seen m u = compile-IsSilent seen p m
  Step-IsSilent {n} {p} r (starts now q h) seen m u = absurd (start-silent seen now p q h m)
  Step-IsSilent {n} {p} r (pauses now q h) seen m u =
      let resumed = pause-IsSilent seen now p q h m in absurd cc
  Step-IsSilent {n} {p} r (changes_timer ms q h) seen m u = change_timer-IsSilent seen ms p q h m
  Step-IsSilent {n} {p} r (expires e es t a k w) seen m u =
      absurd (expire-silent seen p e es t a k w m)
  Step-IsSilent {n} {p} r (runs_timer from to e es t c cs fs a k h x) seen m u =
      runs_timer-IsSilent seen p from to e es t c cs fs a k h x m
  Step-IsSilent {n} {p} r (runs_posted from to j e d ds fs g k h) seen m u =
      subst (λ es. IsSilent seen (record p { elements = es }))
        (sym (do_work_at_lem from to j d _ fs h))
        (runs_posted-IsSilent seen p from to j e d ds g k
          (posted-Wired p j e d ds g k (Reach-Inv r)) m)
