-- ===== src/Pipeline/Stats/Runs.antt =====
-- The runs of a pipeline with its statistics timer (src/Pipeline/Pipeline.h): the steps of the pipeline
-- and of its elements, and rounds of the timer in between. `time_stats_` of the pipeline and
-- `time_stats_queue_` of its elements (src/Pipeline/WorkWrapper.h) share the queues.
use sec_mon.Prelude.{ℕ, ◌≡◌, Option, none, some, List, [], ◌∷◌}
use sec_mon.Pipeline.WorkWrapper.{Element, success}
use sec_mon.Pipeline.{Pipeline, new_pipeline}
use sec_mon.Pipeline.Runs.{Step}
use sec_mon.Pipeline.Stats.{TimeStatsQueue, Stats, Line, printed, collect_stats}

-- A queue in front of others, unless the element has none.
abbrev pub with_queue : Option TimeStatsQueue → List TimeStatsQueue → List TimeStatsQueue
with_queue none qs = qs
with_queue (some q) qs = q ∷ qs

module _ {A : Type 0} where
  -- `time_stats_`: the constructors of the elements are given its queues one after the other.
  abbrev pub queues_of : List (Element A) → List TimeStatsQueue
  queues_of [] = []
  queues_of (e ∷ es) = with_queue e.time_stats (queues_of es)

  -- The elements with the queues as they are after a round. Either all elements have one or none has.
  abbrev pub put_queues : List TimeStatsQueue → List (Element A) → List (Element A)
  put_queues qs [] = []
  put_queues [] (e ∷ es) = e ∷ es
  put_queues (q ∷ qs) (e ∷ es) = record e { time_stats = some q } ∷ put_queues qs es

  -- The pipeline after a round.
  abbrev pub put_stats : Stats → Pipeline A → Pipeline A
  put_stats s p = record p {
    elements = put_queues s.queues p.elements;
    stats_timer = record {
      last_stats_time = s.last_stats_time;
      expiry = s.expiry;
      waiting = s.waiting;
    };
  }

  -- A round that reads past a queue is no step.
  pub data Measured (interval : ℕ) : Pipeline A → Type 0 where
    begins : Measured interval (new_pipeline interval)
    moves : {p q : Pipeline A} → Measured interval p → Step p q → Measured interval q
    collects :
        {p : Pipeline A}
        → Measured interval p
        → (s s' : Stats) (lines : List Line) → s.queues ≡ queues_of p.elements
        → collect_stats success s ≡ printed lines s'
        → Measured interval (put_stats s' p)
