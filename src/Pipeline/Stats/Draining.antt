-- ===== src/Pipeline/Stats/Draining.antt =====
-- How many times a round of the statistics timer takes (src/Pipeline/Pipeline.h), and from where.
use mathlib.Core.Option.{some-injective}
use sec_mon.Prelude.{
  ℕ, zero, suc, ◌+◌, ◌-◌, ◌*◌, ◌/◌, ◌≤◌, ◌<◌, ◌≡◌, refl, sym, subst, ap, ◌∙◌, true, ltb, Option,
  some, List, [], ◌∷◌, map, length, drop, length-drop, arith, All, ltb→lt, Bool-cases, inl, inr,
}
use sec_mon.Pipeline.WorkWrapper.{success}
use sec_mon.Pipeline.Stats.{
  TimeStatsQueue, Stats, back, front_start, Line, micros, take_fronts, Collected, collect_lines,
  printed, size_of_back, collect_stats,
}

-- Every queue holds at least as many times as the last one.
abbrev pub IsDeep : ℕ → List TimeStatsQueue → Type 0
IsDeep n = All (λ q. n ≤ length q)

pub IsDeep-weaken : (m n : ℕ) (qs : List TimeStatsQueue) → m ≤ n → IsDeep n qs → IsDeep m qs
IsDeep-weaken m n [] h d = tt
IsDeep-weaken m n (q ∷ qs) h d = (omega (arith, d.0), IsDeep-weaken m n qs h d.1)

take_fronts_lem :
    (last n : ℕ) (qs : List TimeStatsQueue)
    → IsDeep (suc n) qs
    → (line : Line) × (last' : ℕ) × (take_fronts last qs ≡ some (line, last', map (drop 1) qs))
      × (length line ≡ length qs)
      × IsDeep n (map (drop 1) qs)
unfolding take_fronts
take_fronts_lem last n [] h = ([], last, refl, refl, tt)
take_fronts_lem last n ([] ∷ qs) h = absurd (omega (arith, h.0))
take_fronts_lem last n ((t ∷ q) ∷ qs) h =
    let (line, last', e, l, d) = take_fronts_lem t.1 n qs h.1 in
    ((micros last t.0, micros t.0 t.1) ∷ line, last', rw e refl, ap suc l, (omega (arith, h.0), d))

back-map :
    (f : TimeStatsQueue → TimeStatsQueue) (qs : List TimeStatsQueue) (b : TimeStatsQueue)
    → back qs ≡ some b
    → back (map f qs) ≡ some (f b)
back-map f [] b h = absurd cc
back-map f (q ∷ []) b h = ap (λ x. some (f x)) (some-injective _ _ h)
back-map f (q ∷ r ∷ qs) b h = back-map f (r ∷ qs) b h

drop-drop : (r : ℕ) (q : TimeStatsQueue) → drop r (drop 1 q) ≡ drop (suc r) q
drop-drop zero [] = refl
drop-drop (suc r) [] = refl
drop-drop r (t ∷ q) = refl

map-drop-drop :
    (r : ℕ) (qs : List TimeStatsQueue) → map (drop r) (map (drop 1) qs) ≡ map (drop (suc r)) qs
map-drop-drop r [] = refl
map-drop-drop r (q ∷ qs) = rw (drop-drop r q, map-drop-drop r qs) refl

map-drop-zero : (qs : List TimeStatsQueue) → map (drop 0) qs ≡ qs
map-drop-zero [] = refl
map-drop-zero (q ∷ qs) = ap (λ l. q ∷ l) (map-drop-zero qs)

front_start-deep :
    (n : ℕ) (qs : List TimeStatsQueue) (b : TimeStatsQueue)
    → IsDeep (suc n) qs
    → back qs ≡ some b
    → (t : ℕ) × (front_start qs ≡ some t)
front_start-deep n [] b h e = absurd cc
front_start-deep n ([] ∷ qs) b h e = absurd (omega (arith, h.0))
front_start-deep n ((t ∷ q) ∷ qs) b h e = (t.0, refl)

-- What the loop makes of the queues: lines with an entry for each, and shorter queues.
abbrev Drains : ℕ → List TimeStatsQueue → Option Collected → Type 0
Drains r qs o =
    (c : Collected) × (o ≡ some c)
    × (c.rest ≡ map (drop r) qs)
    × (length c.lines ≡ r)
    × All (λ line. length line ≡ length qs) c.lines

length-map-drop : (r : ℕ) (qs : List TimeStatsQueue) → length (map (drop r) qs) ≡ length qs
length-map-drop r [] = refl
length-map-drop r (q ∷ qs) = ap suc (length-map-drop r qs)

collect_lines-Drains :
    (fuel i r start last : ℕ) (qs : List TimeStatsQueue) (b : TimeStatsQueue)
    → back qs ≡ some b
    → IsDeep (length b) qs
    → length b < fuel
    → r ≡ (length b - i + 1) / 2
    → Drains r qs (collect_lines fuel i start last qs)
unfolding collect_lines
collect_lines-Drains zero i r start last qs b e d h k = absurd (omega arith)
collect_lines-Drains (suc fuel) i r start last qs b e d h k = elim (Bool-cases (ltb i (length b))) [
  | inr done ↦
      let none_left : r ≡ 0 = ground arith in
      rw (e, done, none_left, collect_lines)
        (
          record { lines = []; last_time = last; start_time = start; rest = qs },
          refl,
          sym (map-drop-zero qs),
          refl,
          tt,
        )
  | inl more ↦
      let below = ltb→lt i (length b) more in
      let deep : IsDeep (suc (length b - 1)) qs =
        subst (λ n. IsDeep n qs) (omega (arith, below)) d in
      let (t, f) = front_start-deep (length b - 1) qs b deep e in
      let (line, last', g, l, d') = take_fronts_lem last (length b - 1) qs deep in
      let (c, done, left, count, widths) =
        collect_lines-Drains fuel (suc i) (r - 1) t last' (map (drop 1) qs) (drop 1 b)
          (back-map (drop 1) qs b e)
          (subst (λ n. IsDeep n (map (drop 1) qs)) (sym (length-drop 1 b)) d')
          (omega (arith, length-drop 1 b, below)) (omega (arith, length-drop 1 b, below)) in
      let rounds : suc (r - 1) ≡ r = omega (arith, below) in
      (
        record c { lines = line ∷ c.lines },
        rw (e, more, f, g, done, collect_lines) refl,
        left ∙ map-drop-drop (r - 1) qs ∙ ap (λ n. map (drop n) qs) rounds,
        ap suc count ∙ rounds,
        (l, subst (λ n. All (λ line. length line ≡ n) c.lines) (length-map-drop 1 qs) widths),
      )
]

size_of_back-some :
    (qs : List TimeStatsQueue) (b : TimeStatsQueue) → back qs ≡ some b → size_of_back qs ≡ length b
size_of_back-some qs b e = rw (e, size_of_back) refl

back-cons :
    (q : TimeStatsQueue) (qs : List TimeStatsQueue)
    → (b : TimeStatsQueue) × (back (q ∷ qs) ≡ some b)
back-cons q [] = (q, refl)
back-cons q (r ∷ qs) = back-cons r qs

last_queue :
    (qs : List TimeStatsQueue) (t : ℕ)
    → front_start qs ≡ some t
    → (b : TimeStatsQueue) × (back qs ≡ some b)
last_queue [] t e = absurd cc
last_queue (q ∷ qs) t e = back-cons q qs

-- If every queue holds at least as many times as the last one, and the first one is not empty: a round of
-- the timer reads past no queue. It prints as many lines as half the size of the last queue, rounded
-- up, each with an entry for every element; it takes as many times from every queue, and sets the timer
-- an interval after its last expiry.
pub collect_stats-drains :
    (s : Stats) (t : ℕ)
    → IsDeep (size_of_back s.queues) s.queues
    → front_start s.queues ≡ some t
    → (lines : List Line) × (s' : Stats) × (collect_stats success s ≡ printed lines s')
      × (length lines ≡ (size_of_back s.queues + 1) / 2)
      × All (λ line. length line ≡ length s.queues) lines
      × (s'.queues ≡ map (drop ((size_of_back s.queues + 1) / 2)) s.queues)
      × (s'.expiry ≡ s.expiry + s.interval * 1000000)
      × (s'.waiting ≡ true)
unfolding collect_stats
collect_stats-drains s t d e =
    let (b, f) = last_queue s.queues t e in
    let size = size_of_back-some s.queues b f in
    let (c, done, left, count, widths) =
      collect_lines-Drains (suc (size_of_back s.queues)) 0 ((size_of_back s.queues + 1) / 2) t
        s.last_stats_time s.queues b f (subst (λ n. IsDeep n s.queues) size d) (omega (arith, size))
        (omega (arith, size)) in
    (
      c.lines,
      record s {
        queues = c.rest;
        last_stats_time = c.start_time;
        expiry = s.expiry + s.interval * 1000000;
        waiting = true;
      },
      rw (e, done, collect_stats) refl,
      count,
      widths,
      left,
      refl,
      refl,
    )
