-- ===== src/Pipeline/Live.antt =====
-- The operations of src/Pipeline/Pipeline.h and the timer of src/Pipeline/TimedWorkWrapper.h.
use sec_mon.Prelude.{
  ℕ, ◌≡◌, refl, ap, subst, ◌⊎◌, inl, inr, true, false, some, List, [], ◌∷◌, ◌++◌, arith, Any,
}
use sec_mon.Prelude.Text.{Bytes}
use sec_mon.Pipeline.WorkWrapper.{
  Work, Element, Timer, ErrorCode, success, operation_aborted, schedule_work, restart_timer,
  pause_timer, start_timer, expire, new_work_wrapper, new_timed_work_wrapper,
}
use sec_mon.Pipeline.{
  Pipeline, returns, add_timed_element, add_timed_element_named, add_element, new_queue,
  add_element_named, compile, pause, start, change_timer, set_nexts,
}

-- A wait of the timer is under way, or a handler of one that ended without an error is queued.
abbrev pub IsLive : Timer → Type 0
IsLive t = (t.waiting ≡ true) ⊎ Any (λ c. c ≡ success) t.handlers

pub Any-append-left :
    (cs ds : List ErrorCode) → Any (λ c. c ≡ success) cs → Any (λ c. c ≡ success) (cs ++ ds)
Any-append-left [] ds h = elim h [ ]
Any-append-left (c ∷ cs) ds (inl h) = inl h
Any-append-left (c ∷ cs) ds (inr h) = inr (Any-append-left cs ds h)

pub Any-append-last : (cs : List ErrorCode) → Any (λ c. c ≡ success) (cs ++ success ∷ [])
Any-append-last [] = inl refl
Any-append-last (c ∷ cs) = inr (Any-append-last cs)

pub expire-IsLive : (t : Timer) → IsLive (expire t)
unfolding expire
expire-IsLive t = inr (Any-append-last t.handlers)

pub start_timer-IsLive : (now : ℕ) (t : Timer) → IsLive (start_timer now t)
unfolding start_timer
start_timer-IsLive now t = inl refl

pub restart_timer-IsLive : (t : Timer) → IsLive (restart_timer t)
unfolding restart_timer
restart_timer-IsLive t = inl refl

pub drop_aborted :
    (t : Timer) (cs : List ErrorCode)
    → t.handlers ≡ operation_aborted ∷ cs
    → IsLive t
    → IsLive (record t { handlers = cs })
drop_aborted t cs q (inl h) = inl h
drop_aborted t cs q (inr h) = elim (subst (Any (λ c. c ≡ success)) q h) [
  | inl x ↦ absurd cc
  | inr y ↦ inr y
]

module _ {A : Type 0} where
  -- The timer agrees with the pipeline on the pause, and is live if the pipeline runs.
  pub data Pump (p : Pipeline A) : Type 0 where
    no_pump : p.elements ≡ [] → p.started ≡ false → p.paused ≡ false → Pump p
    pumping :
        (e : Element A) (es : List (Element A)) (t : Timer)
        → p.elements ≡ e ∷ es
        → e.timer ≡ some t
        → t.timer_paused ≡ p.paused
        → (p.started ≡ true → p.paused ≡ false → IsLive t)
        → Pump p

  pub add_element-Pump :
      (work : Work A) (p q : Pipeline A) → add_element work p ≡ returns q → Pump p → Pump q
  unfolding add_element
  add_element-Pump work p q h (no_pump a s u) = absurd (ground arith)
  add_element-Pump work p q h (pumping e es t a k u l) =
      pumping e (es ++ new_work_wrapper work (new_queue p.stats_interval) ∷ []) t (ground arith) k
        (ground arith) (λ x y. l (ground arith) (ground arith))

  pub add_element_named-Pump :
      (work : Work A) (name : Bytes) (p q : Pipeline A)
      → add_element_named work name p ≡ returns q
      → Pump p
      → Pump q
  unfolding add_element_named add_element
  add_element_named-Pump work name p q h (no_pump a s u) = absurd (ground arith)
  add_element_named-Pump work name p q h (pumping e es t a k u l) =
      pumping e (es ++ new_work_wrapper work (new_queue p.stats_interval) ∷ []) t (ground arith) k
        (ground arith) (λ x y. l (ground arith) (ground arith))

  pub add_timed_element-Pump :
      (n : ℕ) (work : Work A) (p q : Pipeline A)
      → add_timed_element n work p ≡ returns q
      → Pump p
      → Pump q
  unfolding add_timed_element
  add_timed_element-Pump n work p q h (no_pump a s u) =
      pumping (new_timed_work_wrapper work n (new_queue p.stats_interval)) [] _ (ground arith) refl
        (ground arith) (λ x y. absurd (ground arith))
  add_timed_element-Pump n work p q h (pumping e es t a k u l) = absurd (ground arith)

  pub add_timed_element_named-Pump :
      (n : ℕ) (work : Work A) (name : Bytes) (p q : Pipeline A)
      → add_timed_element_named n work name p ≡ returns q
      → Pump p
      → Pump q
  unfolding add_timed_element_named add_timed_element
  add_timed_element_named-Pump n work name p q h (no_pump a s u) =
      pumping (new_timed_work_wrapper work n (new_queue p.stats_interval)) [] _ (ground arith) refl
        (ground arith) (λ x y. absurd (ground arith))
  add_timed_element_named-Pump n work name p q h (pumping e es t a k u l) = absurd (ground arith)

  pub compile-Pump : (p : Pipeline A) → Pump p → Pump (compile p)
  unfolding compile set_nexts
  compile-Pump p (no_pump a s u) = no_pump (ap (set_nexts 0) a) s u
  compile-Pump p (pumping e [] t a k u l) = pumping e [] t (ap (set_nexts 0) a) k u l
  compile-Pump p (pumping e (f ∷ es) t a k u l) =
      pumping (record e { next = some 1 }) (set_nexts 1 (f ∷ es)) t (ap (set_nexts 0) a) k u l

  pub start-Pump : (now : ℕ) (p q : Pipeline A) → start now p ≡ returns q → Pump p → Pump q
  unfolding start schedule_work start_timer
  start-Pump now p q h (no_pump a s u) = absurd (ground arith)
  start-Pump now p q h (pumping e es t a k u l) =
      pumping (record e { timer = some (start_timer now t) }) es (start_timer now t) (ground arith)
        refl (ground arith) (λ x y. inl refl)

  pub pause-Pump : (now : ℕ) (p q : Pipeline A) → pause now p ≡ returns q → Pump p → Pump q
  unfolding pause pause_timer start_timer
  pause-Pump now p q h (no_pump a s u) = absurd (ground arith)
  pause-Pump now p q h (pumping e es t a k u l) =
      pumping (record e { timer = some (pause_timer now t) }) es (pause_timer now t) (ground arith)
        refl (ground arith) (λ x y. inl (ground arith))

  pub change_timer-Pump :
      (ms : ℕ) (p q : Pipeline A) → change_timer ms p ≡ returns q → Pump p → Pump q
  unfolding change_timer
  change_timer-Pump ms p q h (no_pump a s u) = absurd (ground arith)
  change_timer-Pump ms p q h (pumping e es t a k u l) =
      pumping (record e { timer = some (record t { milliseconds = ms }) }) es
        (record t { milliseconds = ms }) (ground arith) refl (ground arith)
        (λ x y. l (ground arith) (ground arith))
