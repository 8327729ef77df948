-- ===== src/Pipeline/WorkWrapper.antt =====
-- The elements of a pipeline: src/Pipeline/WorkWrapper.h and src/Pipeline/TimedWorkWrapper.h. The queue
-- of an element's strand and the timer of the first element are part of the state. A datum is a
-- shared pointer, `none` when it is null. Times are in nanoseconds.
use sec_mon.Prelude.{
  ℕ, ◌+◌, ◌*◌, Bool, true, false, if◌then◌else◌, Option, none, some, List, [], ◌∷◌, ◌++◌,
}

-- What a completion handler is given: no error, `operation_aborted`, or another error.
pub data ErrorCode : Type 0 where
  success : ErrorCode
  operation_aborted : ErrorCode
  other_error : ErrorCode

-- The timer of a `TimedWorkWrapper`: whether an `async_wait` is under way and for when, and the
-- handlers of finished waits that are queued on the strand.
pub record Timer : Type 0 where
  pub milliseconds : ℕ
  pub expiry : ℕ
  pub waiting : Bool
  pub handlers : List ErrorCode
  pub timer_paused : Bool

-- The function object `work_`: whether a call throws, and what it leaves in the datum if it does not. Both
-- may depend on the data of the calls before, as the object keeps state.
pub record Work (A : Type 0) : Type 0 where
  pub throws_on : List (Option A) → Option A → Bool
  pub leaves : List (Option A) → Option A → Option A

-- The pointers `work_` and `next_`, `next_` as the index of the element whose `schedule_work` it is.
-- `seen` are the data that `work_` has been called with. `posted` are the data of the `do_work` calls
-- that wait on the strand.
pub record Element (A : Type 0) : Type 0 where
  pub work : Work A
  pub next : Option ℕ
  pub seen : List (Option A)
  pub posted : List (Option A)
  pub time_stats : Option (List (ℕ × ℕ))
  pub timer : Option Timer

-- Asking for a new expiry aborts the wait under way; `cancel` does no more.
abbrev pub cancel : Timer → Timer
cancel t =
    if t.waiting
    then record t { waiting = false; handlers = t.handlers ++ operation_aborted ∷ [] }
    else t

-- `TimedWorkWrapper::start_timer`: from now.
unfoldable pub start_timer : ℕ → Timer → Timer
start_timer now t = record (cancel t) { waiting = true; expiry = now + t.milliseconds * 1000000 }

-- `TimedWorkWrapper::restart_timer`: from the last expiry.
unfoldable pub restart_timer : Timer → Timer
restart_timer t = record (cancel t) { waiting = true; expiry = t.expiry + t.milliseconds * 1000000 }

-- `TimedWorkWrapper::pause`.
unfoldable pub pause_timer : ℕ → Timer → Timer
pause_timer now t =
    if t.timer_paused
    then record (start_timer now t) { timer_paused = false }
    else record (cancel t) { timer_paused = true }

-- The timer's service: a wait that is under way ends and its handler is queued.
unfoldable pub expire : Timer → Timer
expire t = record t { waiting = false; handlers = t.handlers ++ success ∷ [] }

-- The times of a call of `work_`, put on the queue if there is one.
abbrev pub emplace : ℕ → ℕ → Option (List (ℕ × ℕ)) → Option (List (ℕ × ℕ))
emplace from to none = none
emplace from to (some q) = some (q ++ (from, to) ∷ [])

module _ {A : Type 0} where
  -- The two constructors. A queue for statistics is passed or null.
  abbrev pub new_work_wrapper : Work A → Option (List (ℕ × ℕ)) → Element A
  new_work_wrapper work stats = record {
    work = work;
    next = none;
    seen = [];
    posted = [];
    time_stats = stats;
    timer = none;
  }

  abbrev pub new_timed_work_wrapper : Work A → ℕ → Option (List (ℕ × ℕ)) → Element A
  new_timed_work_wrapper work interval stats = record (new_work_wrapper work stats) {
    timer = some (record {
      milliseconds = interval;
      expiry = 0;
      waiting = false;
      handlers = [];
      timer_paused = false;
    });
  }

  -- `schedule_work`, which a `TimedWorkWrapper` overrides.
  unfoldable pub schedule_work : ℕ → Option A → Element A → Element A
  schedule_work now d e = elim e.timer [
    | none ↦ record e { posted = e.posted ++ d ∷ [] }
    | some t ↦ record e { timer = some (start_timer now t) }
  ]

  -- What `work_` leaves in the datum, and the element, after a call that does not throw.
  abbrev pub did_work : ℕ → ℕ → Option A → Element A → Option A × Element A
  did_work from to d e = (
    e.work.leaves e.seen d,
    record e { seen = e.seen ++ d ∷ []; time_stats = emplace from to e.time_stats },
  )

  -- `WorkWrapper::do_work` up to the call of `next_`: `none` if `work_` throws.
  abbrev pub do_work : ℕ → ℕ → Option A → Element A → Option (Option A × Element A)
  do_work from to d e = if e.work.throws_on e.seen d then none else some (did_work from to d e)
