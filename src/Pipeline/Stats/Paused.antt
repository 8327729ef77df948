-- ===== src/Pipeline/Stats/Paused.antt =====
-- The statistics timer of a pipeline in which nothing is done, such as one that is paused
-- (src/Pipeline/Pipeline.h).
use sec_mon.Prelude.{
  ℕ, zero, suc, ◌+◌, ◌-◌, ◌/◌, ◌<◌, ◌≡◌, ◌≢◌, refl, sym, subst, ap, ◌∙◌, none, some, List, [], ◌∷◌,
  map, length, drop, length-drop, arith, All, ◌⊎◌, inl, inr,
}
use sec_mon.Prelude.Int.{ℤ}
use sec_mon.Pipeline.WorkWrapper.{success}
use sec_mon.Pipeline.Stats.{
  TimeStatsQueue, Stats, front_start, Report, cancelled, throws_message, out_of_range, printed,
  size_of_back, collect_stats,
}
use sec_mon.Pipeline.Stats.Draining.{IsDeep, collect_stats-drains}

-- Rounds of the timer with no new times in between.
unfoldable pub rounds : ℕ → Stats → Report
unfolding collect_stats
rounds zero s = printed [] s
rounds (suc n) s = elim (collect_stats success s) [
  | cancelled ↦ cancelled
  | throws_message ↦ throws_message
  | out_of_range ↦ out_of_range
  | printed lines s' ↦ rounds n s'
]

rounds_lem :
    (k : ℕ) (s s' : Stats) (lines : List (List (ℤ × ℤ)))
    → collect_stats success s ≡ printed lines s'
    → rounds (suc k) s ≡ rounds k s'
unfolding rounds
rounds_lem k s s' lines e = rw (e, rounds) refl

-- Every queue holds the same number of times.
abbrev pub IsEven : ℕ → List TimeStatsQueue → Type 0
IsEven n = All (λ q. length q ≡ n)

IsEven-drop : (n r : ℕ) (qs : List TimeStatsQueue) → IsEven n qs → IsEven (n - r) (map (drop r) qs)
IsEven-drop n r [] h = tt
IsEven-drop n r (q ∷ qs) h = (length-drop r q ∙ ap (λ k. k - r) h.0, IsEven-drop n r qs h.1)

IsEven-IsDeep : (n : ℕ) (qs : List TimeStatsQueue) → IsEven n qs → IsDeep n qs
IsEven-IsDeep n [] h = tt
IsEven-IsDeep n (q ∷ qs) h = (omega (arith, h.0), IsEven-IsDeep n qs h.1)

IsEven-back :
    (n : ℕ) (q : TimeStatsQueue) (qs : List TimeStatsQueue)
    → IsEven n (q ∷ qs)
    → size_of_back (q ∷ qs) ≡ n
IsEven-back n q [] h = h.0
IsEven-back n q (r ∷ qs) h = IsEven-back n r qs h.1

map-ne : (r : ℕ) (qs : List TimeStatsQueue) → qs ≢ [] → map (drop r) qs ≢ []
map-ne r [] h e = h refl
map-ne r (q ∷ qs) h e = cc

front_cases :
    (n : ℕ) (qs : List TimeStatsQueue)
    → qs ≢ []
    → IsEven n qs
    → ((n ≡ 0) × (front_start qs ≡ none))
      ⊎ ((t : ℕ) × (front_start qs ≡ some t) × (size_of_back qs ≡ n) × (0 < n))
front_cases n [] h e = absurd (h refl)
front_cases n ([] ∷ qs) h e = inl (sym e.0, refl)
front_cases n ((t ∷ q) ∷ qs) h e = inr (t.0, refl, IsEven-back n (t ∷ q) qs e, omega (arith, e.0))

-- In a pipeline with statistics, all of whose elements have done the same number of calls since the
-- queues were empty, and do no more: the timer reads the front of an empty queue, which C++ leaves
-- undefined, within one more round than there are times in a queue.
pub rounds-out_of_range :
    (k n : ℕ) (s : Stats) → s.queues ≢ [] → IsEven n s.queues → n < k → rounds k s ≡ out_of_range
unfolding rounds collect_stats
rounds-out_of_range zero n s h e l = absurd (omega arith)
rounds-out_of_range (suc k) n s h e l = elim (front_cases n s.queues h e) [
  | inl (z, f) ↦ rw (f, rounds, collect_stats) refl
  | inr (t, f, size, some_left) ↦
      let deep = subst (λ m. IsDeep m s.queues) (sym size) (IsEven-IsDeep n s.queues e) in
      let (lines, s', done, count, widths, left, timed, waits) = collect_stats-drains s t deep f in
      let half = ap (λ m. map (drop ((m + 1) / 2)) s.queues) size in
      let shorter = IsEven-drop n ((n + 1) / 2) s.queues e in
      rounds_lem k s s' lines done
      ∙ rounds-out_of_range k (n - (n + 1) / 2) s'
          (subst (λ qs. qs ≢ []) (sym (left ∙ half)) (map-ne _ _ h))
          (subst (IsEven (n - (n + 1) / 2)) (sym (left ∙ half)) shorter) (omega arith)
]
