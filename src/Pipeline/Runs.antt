-- ===== src/Pipeline/Runs.antt =====
-- The runs of a pipeline of src/Pipeline/Pipeline.h: its operations, the waits of its timer that end,
-- and the handlers that the strands of its elements run, in any order that the strands allow.
use sec_mon.Prelude.{ℕ, ◌≡◌, true, Option, some, List, ◌∷◌, get_elem?, modify}
use sec_mon.Prelude.Text.{Bytes}
use sec_mon.Pipeline.WorkWrapper.{Work, Element, Timer, ErrorCode, expire}
use sec_mon.Pipeline.{
  Pipeline, Error, throws, returns, new_pipeline, add_timed_element, add_timed_element_named,
  add_element, add_element_named, compile, pause, start, change_timer, do_work_at, timed_do_work,
}

module _ {A : Type 0} where
  -- What can happen next. An operation that throws leaves the pipeline as it is and is no step; an
  -- exception that leaves a handler ends the thread, and with it the program, and so it ends the run. A
  -- strand runs the handler that was posted first; strands of different elements run in any order.
  pub data Step (p : Pipeline A) : Pipeline A → Type 0 where
    adds_timed :
        (interval : ℕ) (work : Work A) (q : Pipeline A)
        → add_timed_element interval work p ≡ returns q
        → Step p q
    adds_timed_named :
        (interval : ℕ) (work : Work A) (name : Bytes) (q : Pipeline A)
        → add_timed_element_named interval work name p ≡ returns q
        → Step p q
    adds : (work : Work A) (q : Pipeline A) → add_element work p ≡ returns q → Step p q
    adds_named :
        (work : Work A) (name : Bytes) (q : Pipeline A)
        → add_element_named work name p ≡ returns q
        → Step p q
    compiles : Step p (compile p)
    starts : (now : ℕ) (q : Pipeline A) → start now p ≡ returns q → Step p q
    pauses : (now : ℕ) (q : Pipeline A) → pause now p ≡ returns q → Step p q
    changes_timer : (ms : ℕ) (q : Pipeline A) → change_timer ms p ≡ returns q → Step p q
    expires :
        (e : Element A) (es : List (Element A)) (t : Timer)
        → p.elements ≡ e ∷ es
        → e.timer ≡ some t
        → t.waiting ≡ true
        → Step p (record p { elements = record e { timer = some (expire t) } ∷ es })
    runs_timer :
        (from to : ℕ) (e : Element A) (es : List (Element A)) (t : Timer) (c : ErrorCode)
        (cs : List ErrorCode) (fs : List (Element A))
        → p.elements ≡ e ∷ es
        → e.timer ≡ some t
        → t.handlers ≡ c ∷ cs
        → timed_do_work from to c (record e { timer = some (record t { handlers = cs }) } ∷ es)
          ≡ returns fs
        → Step p (record p { elements = fs })
    runs_posted :
        (from to i : ℕ) (e : Element A) (d : Option A) (ds : List (Option A))
        (fs : List (Element A))
        → get_elem? p.elements i ≡ some e
        → e.posted ≡ d ∷ ds
        → do_work_at from to i d (modify i (λ g. record g { posted = ds }) p.elements) ≡ returns fs
        → Step p (record p { elements = fs })

  -- An exception that can leave a handler next.
  pub data Crash (p : Pipeline A) (x : Error) : Type 0 where
    timer_crashes :
        (from to : ℕ) (e : Element A) (es : List (Element A)) (t : Timer) (c : ErrorCode)
        (cs : List ErrorCode)
        → p.elements ≡ e ∷ es
        → e.timer ≡ some t
        → t.handlers ≡ c ∷ cs
        → timed_do_work from to c (record e { timer = some (record t { handlers = cs }) } ∷ es)
          ≡ throws x
        → Crash p x
    posted_crashes :
        (from to i : ℕ) (e : Element A) (d : Option A) (ds : List (Option A))
        → get_elem? p.elements i ≡ some e
        → e.posted ≡ d ∷ ds
        → do_work_at from to i d (modify i (λ g. record g { posted = ds }) p.elements) ≡ throws x
        → Crash p x

  -- The runs of a new pipeline.
  pub data Reach (interval : ℕ) : Pipeline A → Type 0 where
    here : Reach interval (new_pipeline interval)
    next : {p q : Pipeline A} → Reach interval p → Step p q → Reach interval q
