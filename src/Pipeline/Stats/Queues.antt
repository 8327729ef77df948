-- ===== src/Pipeline/Stats/Queues.antt =====
-- Putting other queues in the elements of a pipeline (src/Pipeline/Pipeline.h, src/Pipeline/WorkWrapper.h)
-- leaves what holds of its data and its order as it is.
use sec_mon.Prelude.{ℕ, suc, List, [], ◌∷◌, All}
use sec_mon.Pipeline.WorkWrapper.{Element}
use sec_mon.Pipeline.{Pipeline, StatsTimer}
use sec_mon.Pipeline.Results.{Carried, Wired, Headed, IsPlain, IsFresh}
use sec_mon.Pipeline.Building.{Inv, building, built}
use sec_mon.Pipeline.Stats.{TimeStatsQueue}
use sec_mon.Pipeline.Stats.Runs.{put_queues}

module _ {A : Type 0} where
  -- New queues leave everything else as it is.
  put_queues-IsFresh :
      (qs : List TimeStatsQueue) (es : List (Element A))
      → All IsFresh es
      → All IsFresh (put_queues qs es)
  put_queues-IsFresh qs [] h = tt
  put_queues-IsFresh [] (e ∷ es) h = h
  put_queues-IsFresh (q ∷ qs) (e ∷ es) h = (h.0, put_queues-IsFresh qs es h.1)

  put_queues-IsPlain :
      (qs : List TimeStatsQueue) (es : List (Element A))
      → All IsPlain es
      → All IsPlain (put_queues qs es)
  put_queues-IsPlain qs [] h = tt
  put_queues-IsPlain [] (e ∷ es) h = h
  put_queues-IsPlain (q ∷ qs) (e ∷ es) h = (h.0, put_queues-IsPlain qs es h.1)

  put_queues-Headed :
      (qs : List TimeStatsQueue) (es : List (Element A)) → Headed es → Headed (put_queues qs es)
  put_queues-Headed qs [] h = tt
  put_queues-Headed [] (e ∷ es) h = h
  put_queues-Headed (q ∷ qs) (e ∷ es) h = (h.0, put_queues-IsPlain qs es h.1)

  put_queues-Carried :
      (qs : List TimeStatsQueue) (es : List (Element A)) → Carried es → Carried (put_queues qs es)
  put_queues-Carried qs [] c = tt
  put_queues-Carried [] (e ∷ es) c = c
  put_queues-Carried (q ∷ qs) (e ∷ []) c = tt
  put_queues-Carried (q ∷ []) (e ∷ f ∷ es) c = c
  put_queues-Carried (q ∷ r ∷ qs) (e ∷ f ∷ es) c = (c.0, put_queues-Carried (r ∷ qs) (f ∷ es) c.1)

  put_queues-Wired :
      (k : ℕ) (qs : List TimeStatsQueue) (es : List (Element A))
      → Wired k es
      → Wired k (put_queues qs es)
  put_queues-Wired k qs [] w = tt
  put_queues-Wired k [] (e ∷ es) w = w
  put_queues-Wired k (q ∷ qs) (e ∷ []) w = w
  put_queues-Wired k (q ∷ []) (e ∷ f ∷ es) w = w
  put_queues-Wired k (q ∷ r ∷ qs) (e ∷ f ∷ es) w =
      (w.0, put_queues-Wired (suc k) (r ∷ qs) (f ∷ es) w.1)

  pub put_queues-Inv :
      (qs : List TimeStatsQueue) (t : StatsTimer) (p : Pipeline A)
      → Inv p
      → Inv (record p { elements = put_queues qs p.elements; stats_timer = t })
  put_queues-Inv qs t p (building c f h) =
      building c (put_queues-IsFresh qs p.elements f) (put_queues-Headed qs p.elements h)
  put_queues-Inv qs t p (built c h r w) =
      built c (put_queues-Headed qs p.elements h) (put_queues-Carried qs p.elements r)
        (put_queues-Wired 0 qs p.elements w)
