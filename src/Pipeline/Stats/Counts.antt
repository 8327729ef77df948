-- ===== src/Pipeline/Stats/Counts.antt =====
-- The number of times in the queues of a pipeline's elements (src/Pipeline/WorkWrapper.h), and what
-- the steps of src/Pipeline/Pipeline.h do to it.
use sec_mon.Prelude.{
  ℕ, suc, ◌+◌, ◌≤◌, ◌≡◌, refl, sym, ap, ◌∙◌, subst, Option, none, some, List, [], ◌∷◌, ◌++◌, map,
  length, length-append, length-drop, drop, get_elem?, modify, arith, All, All-modify,
}
use sec_mon.Pipeline.WorkWrapper.{
  Element, Timer, ErrorCode, success, operation_aborted, other_error, schedule_work, did_work,
  restart_timer,
}
use sec_mon.Pipeline.{returns, set_nexts, call_next, on_timer, did_work_at, timed_do_work}
use sec_mon.Pipeline.Working.{timed_do_work_lem}
use sec_mon.Pipeline.Results.{results_from, Carried}
use sec_mon.Pipeline.Stats.{TimeStatsQueue, size_of_back}
use sec_mon.Pipeline.Stats.Draining.{IsDeep}
use sec_mon.Pipeline.Stats.Runs.{with_queue, queues_of, put_queues}

module _ {A : Type 0} where
  -- An element has a queue, with a time for each call of its work but the first ones, whose times have
  -- been taken.
  abbrev pub Measures : ℕ → Element A → Type 0
  Measures taken e =
      (q : TimeStatsQueue) × (e.time_stats ≡ some q) × (taken + length q ≡ length e.seen)

  schedule_work-Measures :
      (k now : ℕ) (d : Option A) (e : Element A) → Measures k e → Measures k (schedule_work now d e)
  unfolding schedule_work
  schedule_work-Measures k now d e (q, h, l) = (q, ground arith, ground arith)

  on_timer-Measures :
      (k : ℕ) (f : Timer → Timer) (e : Element A) → Measures k e → Measures k (on_timer f e)
  on_timer-Measures k f e (q, h, l) = (q, ground arith, ground arith)

  did_work-Measures :
      (k from to : ℕ) (d : Option A) (e : Element A)
      → Measures k e
      → Measures k (did_work from to d e).1
  did_work-Measures k from to d e (q, h, l) = (
    q ++ (from, to) ∷ [],
    rw h refl,
    omega (arith, l, length-append q ((from, to) ∷ []), length-append e.seen (d ∷ [])),
  )

  call_next-Measures :
      (k now : ℕ) (j : Option ℕ) (d : Option A) (es : List (Element A))
      → All (Measures k) es
      → All (Measures k) (call_next now j d es)
  call_next-Measures k now none d es h = h
  call_next-Measures k now (some j) d es h =
      All-modify (Measures k) (schedule_work now d) (schedule_work-Measures k now d) j es h

  pub did_work_at-Measures :
      (k from to i : ℕ) (d : Option A) (es : List (Element A)) (e : Element A)
      → get_elem? es i ≡ some e
      → All (Measures k) es
      → All (Measures k) (did_work_at from to i d es)
  unfolding did_work_at
  did_work_at-Measures k from to i d es e g h =
      rw (g, did_work_at)
        (call_next-Measures k to e.next (e.work.leaves e.seen d)
          (modify i (λ f. (did_work from to d f).1) es)
          (All-modify (Measures k) (λ f. (did_work from to d f).1) (did_work-Measures k from to d) i
            es h))

  pub timed_do_work-Measures :
      (k from to : ℕ) (c : ErrorCode) (e : Element A) (es fs : List (Element A))
      → timed_do_work from to c (e ∷ es) ≡ returns fs
      → All (Measures k) (e ∷ es)
      → All (Measures k) fs
  unfolding timed_do_work
  timed_do_work-Measures k from to success e es fs r h =
      let same = sym (timed_do_work_lem from to (e ∷ es) fs r) in
      subst (All (Measures k)) same (
        All-modify (Measures k) (on_timer restart_timer) (on_timer-Measures k restart_timer) 0
          (did_work_at from to 0 none (e ∷ es))
          (did_work_at-Measures k from to 0 none (e ∷ es) e refl h))
  timed_do_work-Measures k from to operation_aborted e es fs r h =
      let same : e ∷ es ≡ fs = cc in subst (All (Measures k)) same h
  timed_do_work-Measures k from to other_error e es fs r h = absurd cc

  pub set_nexts-Measures :
      (k i : ℕ) (es : List (Element A)) → All (Measures k) es → All (Measures k) (set_nexts i es)
  unfolding set_nexts
  set_nexts-Measures k i [] h = tt
  set_nexts-Measures k i (e ∷ []) h = h
  set_nexts-Measures k i (e ∷ f ∷ es) h = (h.0, set_nexts-Measures k (suc i) (f ∷ es) h.1)

  queues_of-cons :
      (e : Element A) (es : List (Element A)) (q : TimeStatsQueue)
      → e.time_stats ≡ some q
      → queues_of (e ∷ es) ≡ q ∷ queues_of es
  queues_of-cons e es q t = ap (λ o. with_queue o (queues_of es)) t

  -- Taking times from the queues.
  pub put_queues-Measures :
      (k r : ℕ) (es : List (Element A))
      → All (Measures k) es
      → IsDeep r (queues_of es)
      → All (Measures (k + r)) (put_queues (map (drop r) (queues_of es)) es)
  put_queues-Measures k r [] h d = tt
  put_queues-Measures k r (e ∷ es) ((q, t, l), hs) d = rw t (
    (drop r q, refl, omega (arith, l, length-drop r q, deep.0)),
    put_queues-Measures k r es hs deep.1,
  )
    where
      deep : IsDeep r (q ∷ queues_of es)
      deep = subst (IsDeep r) (queues_of-cons e es q t) d

  length-results_from :
      (w : List (Option A) → Option A → Option A) (before xs : List (Option A))
      → length (results_from w before xs) ≡ length xs
  length-results_from w before [] = refl
  length-results_from w before (x ∷ xs) = ap suc (length-results_from w (before ++ x ∷ []) xs)

  pub length-queues_of :
      (k : ℕ) (es : List (Element A)) → All (Measures k) es → length (queues_of es) ≡ length es
  length-queues_of k [] h = refl
  length-queues_of k (e ∷ es) ((q, t, l), hs) = rw t (ap suc (length-queues_of k es hs))

  -- An element has been called as often as the next one, or more often.
  pub Carried-IsDeep :
      (k : ℕ) (es : List (Element A))
      → All (Measures k) es
      → Carried es
      → IsDeep (size_of_back (queues_of es)) (queues_of es)
  Carried-IsDeep k [] h c = tt
  Carried-IsDeep k (e ∷ []) ((q, t, l), hs) c = rw t (omega arith, tt)
  Carried-IsDeep k (e ∷ f ∷ es) ((q, t, l), ((r, u, m), hs)) c =
      let rest : IsDeep (size_of_back (r ∷ queues_of es)) (r ∷ queues_of es) =
        subst (λ qs. IsDeep (size_of_back qs) qs) (queues_of-cons f es r u)
          (Carried-IsDeep k (f ∷ es) ((r, u, m), hs) c.1) in
      let whole : queues_of (e ∷ f ∷ es) ≡ q ∷ r ∷ queues_of es =
        queues_of-cons e (f ∷ es) q t ∙ ap (◌∷◌ q) (queues_of-cons f es r u) in
      let longer : length r ≤ length q = omega (
        arith,
        l,
        m,
        ap length c.0,
        length-append f.seen f.posted,
        length-results_from e.work.leaves [] e.seen,
      ) in
      subst (λ qs. IsDeep (size_of_back qs) qs) (sym whole) (omega (arith, longer, rest.0), rest)
