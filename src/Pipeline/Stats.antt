-- ===== src/Pipeline/Stats.antt =====
-- The statistics of a pipeline (src/Pipeline/Pipeline.h): the timer that collects the times of the
-- elements' work. Times are in nanoseconds.
pub mod Draining
pub mod Paused
pub mod Runs
pub mod Counts
pub mod Queues
pub mod Measuring
pub mod InRuns
use sec_mon.Prelude.{
  ℕ, zero, suc, ◌+◌, ◌-◌, ◌*◌, ◌/◌, ◌≤◌, ◌<◌, ◌≡◌, refl, ap, ◌∙◌, Bool, true, false, if◌then◌else◌,
  ltb, leb, lt→ltb, Option, none, some, List, [], ◌∷◌, map, length, drop, arith, All, Bool-cases,
  inl, inr,
}
use sec_mon.Prelude.Int.{ℤ, pos, sub_ℕ}
use sec_mon.Pipeline.WorkWrapper.{ErrorCode, success, operation_aborted, other_error}

-- The start and the end of each call of an element's work.
abbrev pub TimeStatsQueue : Type 0
TimeStatsQueue = List (ℕ × ℕ)

-- What `collect_stats` works on: `time_stats_`, `last_stats_time_`, `stats_interval_` in milliseconds and
-- the timer.
pub record Stats : Type 0 where
  pub queues : List TimeStatsQueue
  pub last_stats_time : ℕ
  pub interval : ℕ
  pub expiry : ℕ
  pub waiting : Bool

-- The last element of a vector, if there is one.
abbrev pub back {ℓ} : {A : Type ℓ} → List A → Option A
back [] = none
back (x ∷ []) = some x
back (x ∷ y ∷ xs) = back (y ∷ xs)

-- The start at the front of the first queue.
abbrev pub front_start : List TimeStatsQueue → Option ℕ
front_start [] = none
front_start ([] ∷ qs) = none
front_start ((t ∷ q) ∷ qs) = some t.0

-- What one element adds to a line: the time since the one before it ended, and the time it took.
abbrev pub Line : Type 0
Line = List (ℤ × ℤ)

-- A difference of times in whole microseconds, towards zero.
abbrev pub micros : ℕ → ℕ → ℤ
micros from to = if leb from to then pos ((to - from) / 1000) else sub_ℕ 0 ((from - to) / 1000)

abbrev pub put_front :
    ℤ × ℤ
    → TimeStatsQueue
    → Option (Line × ℕ × List TimeStatsQueue)
    → Option (Line × ℕ × List TimeStatsQueue)
put_front e q none = none
put_front e q (some (line, last, qs)) = some (e ∷ line, last, q ∷ qs)

-- The loop over the queues, which takes the front of each. `none` is the front of an empty queue.
unfoldable pub take_fronts : ℕ → List TimeStatsQueue → Option (Line × ℕ × List TimeStatsQueue)
take_fronts last [] = some ([], last, [])
take_fronts last ([] ∷ qs) = none
take_fronts last (((from, to) ∷ q) ∷ qs) =
    put_front (micros last from, micros from to) q (take_fronts to qs)

-- The lines so far, the end of the last work and what is left of the state.
pub record Collected : Type 0 where
  pub lines : List Line
  pub last_time : ℕ
  pub start_time : ℕ
  pub rest : List TimeStatsQueue

abbrev pub put_line : Line → Option Collected → Option Collected
put_line line none = none
put_line line (some c) = some (record c { lines = line ∷ c.lines })

-- The loop over the lines, on fuel, whose bound is the size of the last queue as it is by then.
unfoldable pub collect_lines : ℕ → ℕ → ℕ → ℕ → List TimeStatsQueue → Option Collected
unfolding take_fronts
collect_lines zero i start last qs = none
collect_lines (suc fuel) i start last qs = elim (back qs) [
  | none ↦ none
  | some b ↦ elim (ltb i (length b)) [
    | false ↦ some (record { lines = []; last_time = last; start_time = start; rest = qs })
    | true ↦ elim (front_start qs) [
      | none ↦ none
      | some start' ↦ elim (take_fronts last qs) [
        | none ↦ none
        | some (line, last', qs') ↦ put_line line (collect_lines fuel (suc i) start' last' qs')
      ]
    ]
  ]
]

-- What `collect_stats` comes to: nothing when the timer is cancelled, an exception, an access to what is
-- not there, or the lines that are printed and the state with the timer waiting again.
pub data Report : Type 0 where
  cancelled : Report
  throws_message : Report
  out_of_range : Report
  printed : List Line → Stats → Report

abbrev pub size_of_back : List TimeStatsQueue → ℕ
size_of_back qs = elim (back qs) [ none ↦ 0 | some b ↦ length b ]

abbrev pub report : Stats → Option Collected → Report
report s none = out_of_range
report s (some c) = printed c.lines (record s {
  queues = c.rest;
  last_stats_time = c.start_time;
  expiry = s.expiry + s.interval * 1000000;
  waiting = true;
})

-- `collect_stats`.
unfoldable pub collect_stats : ErrorCode → Stats → Report
unfolding collect_lines
collect_stats operation_aborted s = cancelled
collect_stats other_error s = throws_message
collect_stats success s = elim (front_start s.queues) [
  | none ↦ out_of_range
  | some start ↦
      report s (collect_lines (suc (size_of_back s.queues)) 0 start s.last_stats_time s.queues)
]
