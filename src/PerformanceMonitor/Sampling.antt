-- ===== src/PerformanceMonitor/Sampling.antt =====
-- How often the performance monitor asks the operating system (src/PerformanceMonitor.cpp).
use sec_mon.Prelude.{
  ℕ, ◌+◌, ◌-◌, ◌*◌, ◌/◌, ◌≤◌, ◌≡◌, refl, Bool, ltb, if◌then◌else◌, List, [], ◌∷◌, All, arith, subst,
}
use native.Mathlib.Nat.{add-mul}
use sec_mon.PerformanceMonitor.{Sample, PerformanceMonitor, get_performance_string}

-- A call: the time of its test, that of its readings, and what these would be.
pub record Call : Type 0 where
  pub now : ℕ
  pub later : ℕ
  pub sample : Sample

module _ (percentage : ℕ → ℕ → ℕ → ℕ) where
  -- Whether a call takes readings.
  unfoldable pub is_due : PerformanceMonitor → Call → Bool
  is_due m c = ltb m.interval ((c.now - m.last_perf_time) / 1000000)

  -- The monitor after calls in turn, and how many of them took readings.
  unfoldable pub after : PerformanceMonitor → List Call → PerformanceMonitor
  after m [] = m
  after m (c ∷ cs) = after (get_performance_string percentage c.now c.later c.sample m).1 cs

  unfoldable pub readings : PerformanceMonitor → List Call → ℕ
  readings m [] = 0
  readings m (c ∷ cs) =
      (if is_due m c then 1 else 0)
      + readings (get_performance_string percentage c.now c.later c.sample m).1 cs

  step_kept :
      (m : PerformanceMonitor) (c : Call)
      → (get_performance_string percentage c.now c.later c.sample m).1.interval ≡ m.interval
  unfolding get_performance_string
  step_kept m c = ground arith

  step_rate :
      (m : PerformanceMonitor) (c : Call) (k : ℕ)
      → c.now ≤ c.later
      → k ≡ (m.interval + 1) * 1000000
      → m.last_perf_time + (if is_due m c then 1 else 0) * k
        ≤ (get_performance_string percentage c.now c.later c.sample m).1.last_perf_time
  unfolding get_performance_string is_due
  step_rate m c k h e = ground arith

  -- However often the text is asked for: the time from one reading to the last, if the clock does not go
  -- back within a call, is longer than the interval for every reading in between.
  pub readings-rate :
      (m : PerformanceMonitor) (cs : List Call)
      → All (λ c. c.now ≤ c.later) cs
      → m.last_perf_time + readings m cs * ((m.interval + 1) * 1000000)
        ≤ (after m cs).last_perf_time
  unfolding readings after
  readings-rate m [] h = omega arith
  readings-rate m (c ∷ cs) h =
      let m' = (get_performance_string percentage c.now c.later c.sample m).1 in
      let k = (m.interval + 1) * 1000000 in
      let ih : m'.last_perf_time + readings m' cs * k ≤ (after m' cs).last_perf_time =
        subst
          (λ n.
            m'.last_perf_time + readings m' cs * ((n + 1) * 1000000) ≤ (after m' cs).last_perf_time)
          (step_kept m c) (readings-rate m' cs h.1) in
      omega (
        arith,
        ih,
        step_rate m c k h.0 refl,
        add-mul (if is_due m c then 1 else 0) (readings m' cs) k,
      )
