-- ===== src/Pipeline.antt =====
-- src/Pipeline/Pipeline.h: how a pipeline is put together, started and paused. Its elements are in
-- the child WorkWrapper.
pub mod WorkWrapper
pub mod Runs
pub mod Results
pub mod Wiring
pub mod Building
pub mod Working
pub mod Order
pub mod Components
pub mod Live
pub mod Pump
pub mod Pause
pub mod Stats
use sec_mon.Prelude.{
  ℕ, zero, suc, ◌+◌, ◌*◌, Bool, true, false, if◌then◌else◌, ltb, Option, none, some, List, [], ◌∷◌,
  ◌++◌, get_elem?, modify,
}
use sec_mon.Prelude.Throwing
pub use sec_mon.Prelude.Throwing.{throws, returns, ◌>>=◌}
use sec_mon.Prelude.Text.{Bytes, codes}
use sec_mon.Pipeline.WorkWrapper.{
  Element, Timer, ErrorCode, success, operation_aborted, other_error, new_work_wrapper,
  new_timed_work_wrapper, schedule_work, did_work, do_work, Work, pause_timer, restart_timer,
}

-- What the operations throw, by the words of the message; `no_elements` is `front()` of no elements,
-- which C++ leaves undefined, and `work_throws` is what `work_` throws.
pub data Error : Type 0 where
  already_compiled : Error
  not_empty : Error
  no_timed_element : Error
  not_compiled : Error
  not_started : Error
  already_started : Error
  no_elements : Error
  timer_error : Error
  work_throws : Error

abbrev pub Result : Type 0 → Type 0
Result = Throwing.Result Error

-- `timer_`, for the statistics, whose times are in nanoseconds, and `last_stats_time_`.
pub record StatsTimer : Type 0 where
  pub last_stats_time : ℕ
  pub expiry : ℕ
  pub waiting : Bool

pub record Pipeline (A : Type 0) : Type 0 where
  pub paused : Bool
  pub started : Bool
  pub compiled : Bool
  pub elements : List (Element A)
  pub stats_interval : ℕ
  pub stats_output_header : Bytes
  pub stats_timer : StatsTimer

-- `empty`.
abbrev pub empty {ℓ} : {B : Type ℓ} → List B → Bool
empty [] = true
empty (x ∷ xs) = false

-- The queue an element is given, by `stats_interval_`.
abbrev pub new_queue : ℕ → Option (List (ℕ × ℕ))
new_queue interval = if ltb 0 interval then some [] else none

-- `schedule_work` through `next_`, unless it is empty.
abbrev pub call_next : {A : Type 0} → ℕ → Option ℕ → Option A → List (Element A) → List (Element A)
call_next now none d es = es
call_next now (some j) d es = modify j (schedule_work now d) es

module _ {A : Type 0} where
  -- The constructor.
  abbrev pub new_pipeline : ℕ → Pipeline A
  new_pipeline interval = record {
    paused = false;
    started = false;
    compiled = false;
    elements = [];
    stats_interval = interval;
    stats_output_header = codes "Interval";
    stats_timer = record { last_stats_time = 0; expiry = 0; waiting = false };
  }

  -- `addTimedElement` without a header.
  unfoldable pub add_timed_element : ℕ → Work A → Pipeline A → Result (Pipeline A)
  add_timed_element interval work p =
      if p.compiled
      then throws already_compiled
      else if empty p.elements
      then returns (record p {
        elements =
            p.elements ++ new_timed_work_wrapper work interval (new_queue p.stats_interval) ∷ [];
      })
      else throws not_empty

  -- `addTimedElement` with a header.
  unfoldable pub add_timed_element_named : ℕ → Work A → Bytes → Pipeline A → Result (Pipeline A)
  unfolding add_timed_element
  add_timed_element_named interval work name p =
      if p.compiled
      then throws already_compiled
      else if empty p.elements
      then add_timed_element interval work
          (record p { stats_output_header = p.stats_output_header ++ name })
      else throws not_empty

  -- `addElement` without a header.
  unfoldable pub add_element : Work A → Pipeline A → Result (Pipeline A)
  add_element work p =
      if p.compiled
      then throws already_compiled
      else if empty p.elements
      then throws no_timed_element
      else returns (record p {
        elements = p.elements ++ new_work_wrapper work (new_queue p.stats_interval) ∷ [];
      })

  -- `addElement` with a header.
  unfoldable pub add_element_named : Work A → Bytes → Pipeline A → Result (Pipeline A)
  unfolding add_element
  add_element_named work name p =
      if p.compiled
      then throws already_compiled
      else if empty p.elements
      then throws no_timed_element
      else add_element work
          (record p { stats_output_header = p.stats_output_header ++ codes "      ->" ++ name })

  -- The loop of `compile`, which stands at the element of the given index and the one after it.
  unfoldable pub set_nexts : ℕ → List (Element A) → List (Element A)
  set_nexts k [] = []
  set_nexts k (e ∷ []) = e ∷ []
  set_nexts k (e ∷ f ∷ es) = record e { next = some (suc k) } ∷ set_nexts (suc k) (f ∷ es)

  -- `compile`.
  unfoldable pub compile : Pipeline A → Pipeline A
  unfolding set_nexts
  compile p = record p { elements = set_nexts 0 p.elements; compiled = true }

  -- A call on the timer of the first element, which `pause` and `change_timer` take to have one.
  abbrev pub on_timer : (Timer → Timer) → Element A → Element A
  on_timer f e = elim e.timer [ none ↦ e | some t ↦ record e { timer = some (f t) } ]

  -- `pause`.
  unfoldable pub pause : ℕ → Pipeline A → Result (Pipeline A)
  pause now p =
      if p.compiled
      then if p.started
        then if empty p.elements
          then throws no_elements
          else returns (record p {
            elements = modify 0 (on_timer (pause_timer now)) p.elements;
            paused = if p.paused then false else true;
          })
        else throws not_started
      else throws not_compiled

  -- `start_stats_timer`, whose handler is `collect_stats`.
  abbrev pub start_stats_timer : ℕ → Pipeline A → Pipeline A
  start_stats_timer now p = record p {
    stats_timer = record {
      last_stats_time = now;
      expiry = now + p.stats_interval * 1000000;
      waiting = true;
    };
  }

  abbrev mark_started : Pipeline A → Pipeline A
  mark_started p = record p { started = true }

  -- `start`.
  unfoldable pub start : ℕ → Pipeline A → Result (Pipeline A)
  start now p =
      if p.compiled
      then if p.started
        then throws already_started
        else if empty p.elements
        then throws no_elements
        else returns (
            mark_started (
              start_stats_timer now
                (record p { elements = modify 0 (schedule_work now none) p.elements })))
      else throws not_compiled

  -- `change_timer`, with `set_interval`.
  unfoldable pub change_timer : ℕ → Pipeline A → Result (Pipeline A)
  change_timer milliseconds p =
      if p.compiled
      then if empty p.elements
        then throws no_elements
        else returns (record p {
          elements = modify 0 (on_timer (λ t. record t { milliseconds = milliseconds })) p.elements;
        })
      else throws not_compiled

  -- The elements after a call of `work_` that does not throw, and of `next_`.
  unfoldable pub did_work_at : ℕ → ℕ → ℕ → Option A → List (Element A) → List (Element A)
  did_work_at from to i d es = elim (get_elem? es i) [
    | none ↦ es
    | some e ↦
        call_next to e.next (did_work from to d e).0 (modify i (λ g. (did_work from to d g).1) es)
  ]

  -- `WorkWrapper::do_work` of the element at an index.
  unfoldable pub do_work_at : ℕ → ℕ → ℕ → Option A → List (Element A) → Result (List (Element A))
  unfolding did_work_at
  do_work_at from to i d es = elim (get_elem? es i) [
    | none ↦ returns es
    | some e ↦ elim (do_work from to d e) [
      | none ↦ throws work_throws
      | some r ↦ returns (did_work_at from to i d es)
    ]
  ]

  -- `TimedWorkWrapper::do_work` of the first element. After an exception the timer is not set again.
  unfoldable pub timed_do_work : ℕ → ℕ → ErrorCode → List (Element A) → Result (List (Element A))
  unfolding do_work_at
  timed_do_work from to success es = do
    es ← do_work_at from to 0 none es
    returns (modify 0 (on_timer restart_timer) es)
  timed_do_work from to operation_aborted es = returns es
  timed_do_work from to other_error es = throws timer_error
