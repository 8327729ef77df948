-- ===== src/Examples/Statistics.antt =====
-- Tests: the statistics of a pipeline that runs (src/Pipeline/Pipeline.h, src/Pipeline/WorkWrapper.h).
use sec_mon.Prelude.{
  ℕ, ◌+◌, ◌*◌, ◌/◌, ◌≡◌, refl, true, false, Option, none, some, List, [], ◌∷◌, map, length, drop,
  All, arith,
}
use sec_mon.Pipeline.WorkWrapper.{
  Element, Timer, success, start_timer, restart_timer, expire, schedule_work,
}
use sec_mon.Pipeline.{
  Pipeline, add_timed_element, add_element, compile, set_nexts, start, do_work_at, timed_do_work,
}
use sec_mon.Pipeline.Runs
use sec_mon.Pipeline.Stats.{
  TimeStatsQueue, Stats, Line, collect_stats, collect_lines, printed, size_of_back,
}
use sec_mon.Pipeline.Stats.Runs.{Measured, begins, moves, collects, queues_of}
use sec_mon.Pipeline.Stats.InRuns.{Measured-drains}
use sec_mon.Examples.Runs.{count, double, armed, camera, doubler, running}

-- A camera and an element that doubles, with queues.
abbrev timed_camera : TimeStatsQueue → List (Option ℕ) → Timer → Element ℕ
timed_camera q seen timer = record (camera seen timer) { time_stats = some q }

abbrev timed_doubler : TimeStatsQueue → List (Option ℕ) → List (Option ℕ) → Element ℕ
timed_doubler q seen posted = record (doubler seen posted) { time_stats = some q }

abbrev timed : List (Element ℕ) → Pipeline ℕ
timed elements = record (running elements) {
  stats_interval = 5000;
  stats_timer = record { last_stats_time = 5; expiry = 5000000005; waiting = true };
}

-- The timer of the statistics, with the queues of the elements.
abbrev with_queues : List TimeStatsQueue → Stats
with_queues queues = record {
  queues = queues;
  last_stats_time = 5;
  interval = 5000;
  expiry = 5000000005;
  waiting = false;
}

-- The camera has made a frame.
one_frame : Measured 5000 (
    timed (
      timed_camera ((46, 50) ∷ []) (none ∷ []) (armed true 80000005 [])
      ∷ timed_doubler [] [] (some 0 ∷ [])
      ∷ []))
unfolding add_timed_element add_element compile set_nexts start do_work_at timed_do_work
    schedule_work start_timer restart_timer expire
one_frame =
    moves
      (moves
        (moves
          (moves (moves (moves begins (Runs.adds_timed 40 count _ refl)) (Runs.adds double _ refl))
            Runs.compiles)
          (Runs.starts 5 _ refl))
        (Runs.expires (timed_camera [] [] (armed true 40000005 [])) (timed_doubler [] [] [] ∷ [])
          (armed true 40000005 []) refl refl refl))
      (Runs.runs_timer 46 50 (timed_camera [] [] (armed false 40000005 (success ∷ [])))
        (timed_doubler [] [] [] ∷ []) (armed false 40000005 (success ∷ [])) success [] _ refl refl
        refl refl)

-- A round of the timer, which finds nothing in the last queue, and then the second element's work.
abbrev both_timed : Pipeline ℕ
both_timed =
    record (timed (
      timed_camera ((46, 50) ∷ []) (none ∷ []) (armed true 80000005 [])
      ∷ timed_doubler ((50, 60) ∷ []) (some 0 ∷ []) []
      ∷ [])) { stats_timer = record { last_stats_time = 46; expiry = 10000000005; waiting = true } }

both_Measured : Measured 5000 both_timed
unfolding do_work_at collect_stats collect_lines
both_Measured =
    moves (collects one_frame (with_queues (((46, 50) ∷ []) ∷ [] ∷ [])) _ [] refl refl)
      (Runs.runs_posted 50 60 1 (timed_doubler [] [] (some 0 ∷ [])) (some 0) [] _ refl refl refl)

Measured-drains_example :
    (lines : List Line) × (s' : Stats) × (collect_stats success
        (with_queues (queues_of both_timed.elements))
      ≡ printed lines s')
    × (length lines ≡ (size_of_back (queues_of both_timed.elements) + 1) / 2)
    × All (λ line. length line ≡ length both_timed.elements) lines
    × (s'.queues
        ≡ map
            (drop ((size_of_back (queues_of both_timed.elements) + 1) / 2))
            (queues_of both_timed.elements))
    × (s'.expiry ≡ 5000000005 + 5000 * 1000000)
    × (s'.waiting ≡ true)
Measured-drains_example =
    Measured-drains (omega arith) both_Measured (with_queues (queues_of both_timed.elements)) 46
      refl refl
