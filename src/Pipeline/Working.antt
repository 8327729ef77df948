-- ===== src/Pipeline/Working.antt =====
-- The work of the elements of a compiled pipeline: `did_work` of src/Pipeline/WorkWrapper.h and of
-- src/Pipeline/TimedWorkWrapper.h.
use sec_mon.Prelude.{
  none, ◌⊎◌, inl, inr, Option-cases, modify-modify, get_elem-modify, drop, ℕ, suc, ◌≡◌, refl, sym,
  ap, ◌∙◌, Option, some, List, [], ◌∷◌, ◌++◌, append_assoc, arith, get_elem?, modify, All,
}
use sec_mon.Pipeline.WorkWrapper.{
  ErrorCode, success, operation_aborted, other_error, restart_timer, do_work, Element, Timer,
  schedule_work, did_work, start_timer,
}
use sec_mon.Prelude.Throwing.{Result-cases}
use sec_mon.Pipeline.Runs.{Crash, timer_crashes, posted_crashes}
use sec_mon.Pipeline.{
  Pipeline, Error, work_throws, timer_error, throws, returns, on_timer, do_work_at, did_work_at,
  timed_do_work,
}
use sec_mon.Pipeline.Results.{
  results_from-append, Carried, Wired, Headed, IsPlain, hand_on, hand_on_first,
}
use sec_mon.Pipeline.Wiring.{call_next-Wired, Wired-modify, Headed-modify}

module _ {A : Type 0} where
  -- A call that returns was one in which `work_` threw nothing.
  pub do_work_at_lem :
      (from to i : ℕ) (d : Option A) (es fs : List (Element A))
      → do_work_at from to i d es ≡ returns fs
      → fs ≡ did_work_at from to i d es
  unfolding do_work_at did_work_at
  do_work_at_lem from to i d es fs h = ground arith

  pub timed_do_work_lem :
      (from to : ℕ) (es fs : List (Element A))
      → timed_do_work from to success es ≡ returns fs
      → fs ≡ modify 0 (on_timer restart_timer) (did_work_at from to 0 none es)
  unfolding timed_do_work
  timed_do_work_lem from to es fs h = elim (Result-cases (do_work_at from to 0 none es)) [
    | inl (e, f) ↦ absurd cc
    | inr (gs, f) ↦
        let same : fs ≡ modify 0 (on_timer restart_timer) gs = cc in
        same ∙ ap (modify 0 (on_timer restart_timer)) (do_work_at_lem from to 0 none es gs f)
  ]

  do_work_at-throws :
      (from to i : ℕ) (d : Option A) (es : List (Element A)) (x : Error)
      → do_work_at from to i d es ≡ throws x
      → x ≡ work_throws
  unfolding do_work_at
  do_work_at-throws from to i d es x h = elim (Option-cases (get_elem? es i)) [
    | inl f ↦ absurd (ground arith)
    | inr (e, f) ↦ elim (Option-cases (do_work from to d e)) [
      | inl g ↦ ground arith
      | inr (r, g) ↦ absurd (ground arith)
    ]
  ]

  timed_do_work-throws :
      (from to : ℕ) (c : ErrorCode) (es : List (Element A)) (x : Error)
      → timed_do_work from to c es ≡ throws x
      → (x ≡ work_throws) ⊎ (x ≡ timer_error)
  unfolding timed_do_work
  timed_do_work-throws from to success es x r = elim (Result-cases (do_work_at from to 0 none es)) [
    | inl (y, f) ↦ let same : x ≡ y = cc in inl (same ∙ do_work_at-throws from to 0 none es y f)
    | inr (gs, f) ↦ absurd cc
  ]
  timed_do_work-throws from to operation_aborted es x r = absurd cc
  timed_do_work-throws from to other_error es x r = inr cc

  -- The exceptions that leave a handler are the ones of a `work_` and of a timer that failed.
  pub Crash-cases : {p : Pipeline A} {x : Error} → Crash p x → (x ≡ work_throws) ⊎ (x ≡ timer_error)
  Crash-cases {p} {x} (timer_crashes from to e es t c cs a k h r) =
      timed_do_work-throws from to c _ x r
  Crash-cases {p} {x} (posted_crashes from to i e d ds g k h) =
      inl (do_work_at-throws from to i d _ x h)

  -- A call of `did_work` in a compiled pipeline: the element works and the next has its result posted.
  pub did_work_at_form :
      (from to i : ℕ) (d : Option A) (es : List (Element A)) (e : Element A)
      → get_elem? es i ≡ some e
      → Wired 0 es
      → did_work_at from to i d es
        ≡ modify
            (suc i)
            (schedule_work to (e.work.leaves e.seen d))
            (modify i (λ g. (did_work from to d g).1) es)
  unfolding did_work_at
  did_work_at_form from to i d es e h w =
      rw (h, did_work_at)
        (call_next-Wired to i (e.work.leaves e.seen d) (modify i (λ g. (did_work from to d g).1) es)
          (did_work from to d e).1
          (Wired-modify 0 (λ g. (did_work from to d g).1) (λ g. refl) i es w)
          (get_elem-modify (λ g. (did_work from to d g).1) i es e h))

  pub schedule_work-next :
      (now : ℕ) (d : Option A) (e : Element A) → (schedule_work now d e).next ≡ e.next
  unfolding schedule_work
  schedule_work-next now d e = ground arith

  pub schedule_work-IsPlain :
      (now : ℕ) (d : Option A) (e : Element A) → IsPlain e → IsPlain (schedule_work now d e)
  unfolding schedule_work
  schedule_work-IsPlain now d e p = ground arith

  pub schedule_work-timer :
      (now : ℕ) (d : Option A) (e : Element A) (t : Timer)
      → e.timer ≡ some t
      → (u : Timer) × ((schedule_work now d e).timer ≡ some u)
  unfolding schedule_work
  schedule_work-timer now d e t h = (start_timer now t, ground arith)

  pub did_work_at-Headed :
      (from to i : ℕ) (d : Option A) (es : List (Element A)) (e : Element A)
      → get_elem? es i ≡ some e
      → Headed es
      → Wired 0 es
      → Headed (did_work_at from to i d es) × Wired 0 (did_work_at from to i d es)
  did_work_at-Headed from to i d es e g h w = rw (did_work_at_form from to i d es e g w) (
    Headed-modify (schedule_work to (e.work.leaves e.seen d))
        (schedule_work-IsPlain to (e.work.leaves e.seen d))
        (schedule_work-timer to (e.work.leaves e.seen d)) (suc i)
        (modify i (λ g. (did_work from to d g).1) es)
        (Headed-modify (λ g. (did_work from to d g).1) (λ f q. q) (λ f t q. (t, q)) i es h),
    Wired-modify 0 (schedule_work to (e.work.leaves e.seen d))
        (schedule_work-next to (e.work.leaves e.seen d)) (suc i)
        (modify i (λ g. (did_work from to d g).1) es)
        (Wired-modify 0 (λ g. (did_work from to d g).1) (λ g. refl) i es w),
  )

  pub Headed-tail : (es : List (Element A)) → Headed es → All IsPlain (drop 1 es)
  Headed-tail [] h = tt
  Headed-tail (e ∷ es) h = h.1

  -- The first element works on a null pointer.
  pub pump-Carried :
      (from to : ℕ) (d : Option A) (e : Element A) (es : List (Element A))
      → Headed (e ∷ es)
      → Carried (e ∷ es)
      → Wired 0 (e ∷ es)
      → Carried (did_work_at from to 0 d (e ∷ es))
  pump-Carried from to d e es h c w = rw (did_work_at_form from to 0 d (e ∷ es) e refl w) (
      hand_on_first (λ g. (did_work from to d g).1) to (e.work.leaves e.seen d) e es
        (results_from-append e.work.leaves [] e.seen d) h.1 c)

  -- Another element works on the datum that was posted first.
  pub posted-Carried :
      (from to i : ℕ) (d : Option A) (ds : List (Option A)) (es : List (Element A)) (e : Element A)
      → get_elem? es i ≡ some e
      → e.posted ≡ d ∷ ds
      → Headed es
      → Carried es
      → Wired 0 es
      → Carried (did_work_at from to i d (modify i (λ g. record g { posted = ds }) es))
  posted-Carried from to i d ds es e g q h c w =
      rw
        (
          did_work_at_form from to i d (modify i (λ g. record g { posted = ds }) es)
              (record e { posted = ds }) (get_elem-modify (λ g. record g { posted = ds }) i es e g)
              (Wired-modify 0 (λ g. record g { posted = ds }) (λ g. refl) i es w),
          modify-modify (λ g. (did_work from to d g).1) (λ g. record g { posted = ds }) i es,
        )
        (hand_on (λ g. (did_work from to d (record g { posted = ds })).1) to
          (e.work.leaves e.seen d) e i es g
          (append_assoc e.seen (d ∷ []) ds ∙ ap (◌++◌ e.seen) (sym q))
          (results_from-append e.work.leaves [] e.seen d) (Headed-tail es h) c)
