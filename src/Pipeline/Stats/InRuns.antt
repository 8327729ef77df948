-- ===== src/Pipeline/Stats/InRuns.antt =====
-- What the statistics timer finds in a run of a pipeline (src/Pipeline/Pipeline.h,
-- src/Pipeline/WorkWrapper.h), with rounds of the timer anywhere in it.
use sec_mon.Prelude.{
  ℕ, ◌+◌, ◌*◌, ◌/◌, ◌<◌, ◌≡◌, refl, sym, ap, ◌∙◌, subst, true, none, some, List, map, length, drop,
  arith, All, Option-cases, inl, inr,
}
use sec_mon.Pipeline.WorkWrapper.{success}
use sec_mon.Pipeline.{Pipeline}
use sec_mon.Pipeline.Building.{Inv, building, Carried-Inv}
use sec_mon.Pipeline.Order.{Step-Inv}
use sec_mon.Pipeline.Stats.{
  Stats, Line, front_start, printed, out_of_range, size_of_back, collect_stats,
}
use sec_mon.Pipeline.Stats.Draining.{IsDeep, IsDeep-weaken, collect_stats-drains}
use sec_mon.Pipeline.Stats.Runs.{
  queues_of, put_queues, put_stats, Measured, begins, moves, collects,
}
use sec_mon.Pipeline.Stats.Queues.{put_queues-Inv}
use sec_mon.Pipeline.Stats.Counts.{Measures, put_queues-Measures, length-queues_of, Carried-IsDeep}
use sec_mon.Pipeline.Stats.Measuring.{Counted, begins-Counted, Step-Counted}

printed_taken :
    (s s' : Stats) (t : ℕ) (lines : List Line)
    → IsDeep (size_of_back s.queues) s.queues
    → front_start s.queues ≡ some t
    → collect_stats success s ≡ printed lines s'
    → s'.queues ≡ map (drop ((size_of_back s.queues + 1) / 2)) s.queues
printed_taken s s' t lines d f h =
    let (ls, u, done, count, widths, left, timed, waits) = collect_stats-drains s t d f in
    let same : u ≡ s' = cc in ap (λ x. x.queues) (sym same) ∙ left

collect_stats-none :
    (s : Stats) → front_start s.queues ≡ none → collect_stats success s ≡ out_of_range
unfolding collect_stats
collect_stats-none s h = rw (h, collect_stats) refl

module _ {A : Type 0} where
  -- The queues of a pipeline are no shorter than the last of them.
  Counted-IsDeep :
      (n : ℕ) (p : Pipeline A) (s : Stats)
      → Inv p
      → Counted n p
      → s.queues ≡ queues_of p.elements
      → IsDeep (size_of_back s.queues) s.queues
  Counted-IsDeep n p s i c e =
      subst (λ qs. IsDeep (size_of_back qs) qs) (sym e)
        (Carried-IsDeep c.taken p.elements c.measured (Carried-Inv i))

  collects-Counted :
      (n : ℕ) (p : Pipeline A) (s s' : Stats) (lines : List Line)
      → Inv p
      → Counted n p
      → s.queues ≡ queues_of p.elements
      → collect_stats success s ≡ printed lines s'
      → Counted n (put_stats s' p)
  collects-Counted n p s s' lines i c e h = elim (Option-cases (front_start s.queues)) [
    | inl f ↦ absurd (cc (collect_stats-none s f))
    | inr (t, f) ↦
        let deep = Counted-IsDeep n p s i c e in
        let left = printed_taken s s' t lines deep f h in
        let half : ℕ = (size_of_back s.queues + 1) / 2 in
        let enough = IsDeep-weaken half (size_of_back s.queues) s.queues (omega arith) deep in
        record {
          interval = c.interval;
          taken = c.taken + half;
          measured =
              subst (λ qs. All (Measures (c.taken + half)) (put_queues qs p.elements))
                (sym (left ∙ ap (map (drop half)) e))
                (put_queues-Measures c.taken half p.elements c.measured
                  (subst (IsDeep half) e enough));
        }
  ]

  Measured-Counted : {n : ℕ} {p : Pipeline A} → 0 < n → Measured n p → Inv p × Counted n p
  Measured-Counted {n} up begins = (building refl tt tt, begins-Counted n)
  Measured-Counted up (moves r st) =
      let (i, c) = Measured-Counted up r in (Step-Inv st i, Step-Counted up st i c)
  Measured-Counted {n} up (collects {p} r s s' lines e h) =
      let (i, c) = Measured-Counted up r in
      (put_queues-Inv s'.queues _ p i, collects-Counted n p s s' lines i c e h)

  -- In every run of a pipeline with statistics, with rounds of the timer anywhere in it: a round that
  -- finds a time in the first queue reads past no queue. It prints as many lines as half the size of
  -- the last queue, rounded up, each with an entry for every element; it takes as many times from
  -- every queue, and sets the timer an interval after its last expiry.
  pub Measured-drains :
      {n : ℕ} {p : Pipeline A}
      → 0 < n
      → Measured n p
      → (s : Stats) (t : ℕ) → s.queues ≡ queues_of p.elements
      → front_start s.queues ≡ some t
      → (lines : List Line) × (s' : Stats) × (collect_stats success s ≡ printed lines s')
        × (length lines ≡ (size_of_back s.queues + 1) / 2)
        × All (λ line. length line ≡ length p.elements) lines
        × (s'.queues ≡ map (drop ((size_of_back s.queues + 1) / 2)) s.queues)
        × (s'.expiry ≡ s.expiry + s.interval * 1000000)
        × (s'.waiting ≡ true)
  Measured-drains {n} {p} up r s t e f =
      let (i, c) = Measured-Counted up r in
      let (lines, s', done, count, widths, left, timed, waits) =
        collect_stats-drains s t (Counted-IsDeep n p s i c e) f in
      let same = ap length e ∙ length-queues_of c.taken p.elements c.measured in
      (
        lines,
        s',
        done,
        count,
        subst (λ k. All (λ line. length line ≡ k) lines) same widths,
        left,
        timed,
        waits,
      )
