-- ===== src/Examples/Runs.antt =====
-- Tests: short runs of a stream's connection (src/GUI/StreamConnection.cpp) and of a pipeline
-- (src/Pipeline/Pipeline.h).
use sec_mon.Prelude.{
  All, suc, ℕ, ◌≡◌, refl, ◌+◌, Bool, true, false, Option, none, some, List, [], ◌∷◌, ◌++◌,
}
use sec_mon.Prelude.Text.{Bytes, codes}
use sec_mon.Stream.Connection.{
  Buffer, lost_buffers, initial_reply, start, frame_message, send_frame, write_next_message,
  start_write, add_to_outbox, handle_write, send_initial_headers,
}
use sec_mon.Stream.Connection.Runs.{
  Session, signal, run_posted, write_done, Reach, here, next, expected,
}
use sec_mon.Stream.Connection.Pending.{Lone}
use sec_mon.Stream.Connection.Order.{Reach-expected, Reach-all_sent}
use sec_mon.Pipeline
use sec_mon.Pipeline.WorkWrapper.{
  Work, operation_aborted, pause_timer, Element, success, schedule_work, start_timer, restart_timer,
  expire, Timer, ErrorCode,
}
use sec_mon.Pipeline.{
  Pipeline, add_timed_element, add_element, compile, set_nexts, do_work_at, timed_do_work,
}
use sec_mon.Pipeline.Runs
use sec_mon.Pipeline.Results.{results}
use sec_mon.Pipeline.Order.{Reach-Carried, last_results}
use sec_mon.Pipeline.Components.{Component, work_of, chain, Reach-chain}
use sec_mon.Pipeline.Pause.{IsSilent, silent, Step-IsSilent}
use sec_mon.Pipeline.Live.{IsLive}
use sec_mon.Pipeline.Pump.{Reach-IsLive}

abbrev image : Bytes
image = codes "jpg"

abbrev finished : Session
finished = record {
  connection = record {
    outbox = [];
    writes = [];
    posted = [];
    connected = true;
    socket_open = true;
  };
  signalled = image ∷ [];
  sent = lost_buffers initial_reply ∷ (frame_message image).buffers ∷ [];
}

-- The headers and one image reach the viewer.
one_image : Reach finished
unfolding start send_frame write_next_message start_write add_to_outbox handle_write
    send_initial_headers
one_image =
    next
      (next (next (next here (signal image refl)) (run_posted (frame_message image) [] refl))
        (write_done (lost_buffers initial_reply) [] refl refl))
      (write_done (frame_message image).buffers [] refl refl)

Reach-expected_example :
    ((rest : List (List Buffer)) × (expected finished.signalled ≡ finished.sent ++ rest))
    × Lone finished.connection
Reach-expected_example = Reach-expected one_image

Reach-all_sent_example : expected finished.signalled ≡ finished.sent
Reach-all_sent_example = Reach-all_sent one_image refl refl refl

-- A camera that counts its frames, and an element that doubles.
abbrev counter : Component ℕ
counter = record {
  State = ℕ;
  initial = 0;
  throws_on = λ k d. false;
  process_next_frame = λ k d. (suc k, some k);
}

abbrev twice : Option ℕ → Option ℕ
twice none = none
twice (some n) = some (n + n)

abbrev stateless : (Option ℕ → Option ℕ) → Component ℕ
stateless f = record {
  State = ℕ;
  initial = 0;
  throws_on = λ k d. false;
  process_next_frame = λ k d. (k, f d);
}

abbrev pub count : Work ℕ
count = work_of counter

abbrev pub double : Work ℕ
double = work_of (stateless twice)

abbrev pub armed : Bool → ℕ → List ErrorCode → Timer
armed waiting expiry handlers = record {
  milliseconds = 40;
  expiry = expiry;
  waiting = waiting;
  handlers = handlers;
  timer_paused = false;
}

abbrev pub camera : List (Option ℕ) → Timer → Element ℕ
camera seen timer = record {
  work = count;
  next = some 1;
  seen = seen;
  posted = [];
  time_stats = none;
  timer = some timer;
}

abbrev pub doubler : List (Option ℕ) → List (Option ℕ) → Element ℕ
doubler seen posted = record {
  work = double;
  next = none;
  seen = seen;
  posted = posted;
  time_stats = none;
  timer = none;
}

abbrev pub running : List (Element ℕ) → Pipeline ℕ
running elements = record {
  paused = false;
  started = true;
  compiled = true;
  elements = elements;
  stats_interval = 0;
  stats_output_header = codes "Interval";
  stats_timer = record { last_stats_time = 5; expiry = 5; waiting = true };
}

-- Started at time 5, the timer has expired once.
counting :
    Runs.Reach 0
      (running (camera (none ∷ []) (armed true 80000005 []) ∷ doubler [] (some 0 ∷ []) ∷ []))
unfolding add_timed_element add_element compile set_nexts Pipeline.start Pipeline.do_work_at
    timed_do_work schedule_work start_timer restart_timer expire
counting =
    Runs.next
      (Runs.next
        (Runs.next
          (Runs.next
            (Runs.next (Runs.next Runs.here (Runs.adds_timed 40 count _ refl))
              (Runs.adds double _ refl))
            Runs.compiles)
          (Runs.starts 5 _ refl))
        (Runs.expires (camera [] (armed true 40000005 [])) (doubler [] [] ∷ [])
          (armed true 40000005 []) refl refl refl))
      (Runs.runs_timer 46 50 (camera [] (armed false 40000005 (success ∷ []))) (doubler [] [] ∷ [])
        (armed false 40000005 (success ∷ [])) success [] _ refl refl refl refl)

counted :
    Runs.Reach 0
      (running (camera (none ∷ []) (armed true 80000005 []) ∷ doubler (some 0 ∷ []) [] ∷ []))
unfolding do_work_at
counted =
    Runs.next counting
      (Runs.runs_posted 50 60 1 (doubler [] (some 0 ∷ [])) (some 0) [] _ refl refl refl)

Reach-Carried_example : results (camera (none ∷ []) (armed true 80000005 [])) ≡ [] ++ some 0 ∷ []
Reach-Carried_example =
    Reach-Carried counting 0 (camera (none ∷ []) (armed true 80000005 []))
      (doubler [] (some 0 ∷ [])) refl refl

Reach-chain_example :
    last_results (camera (none ∷ []) (armed true 80000005 [])) (doubler (some 0 ∷ []) [] ∷ [])
    ≡ chain (counter ∷ stateless twice ∷ []) (none ∷ [])
Reach-chain_example =
    Reach-chain counted (counter ∷ stateless twice ∷ [])
      (camera (none ∷ []) (armed true 80000005 [])) (doubler (some 0 ∷ []) [] ∷ []) refl
      (refl, (refl, tt)) (refl, tt)

Reach-IsLive_example :
    (e : Element ℕ) × (es : List (Element ℕ)) × (t : Timer) × (camera
          (none ∷ [])
          (armed true 80000005 [])
        ∷ doubler (some 0 ∷ []) []
        ∷ []
      ≡ e ∷ es)
    × (e.timer ≡ some t)
    × IsLive t
Reach-IsLive_example = Reach-IsLive counted refl refl

-- The same pipeline, paused while its timer waits.
abbrev stopped : List ErrorCode → Pipeline ℕ
stopped handlers =
    record (running (
      camera (none ∷ []) (record (armed false 80000005 handlers) { timer_paused = true })
      ∷ doubler (some 0 ∷ []) []
      ∷ [])) { paused = true }

paused_run : Runs.Reach 0 (stopped (operation_aborted ∷ []))
unfolding Pipeline.pause pause_timer
paused_run = Runs.next counted (Runs.pauses 90 _ refl)

is_silent :
    (handlers : List ErrorCode)
    → All (λ c. c ≡ operation_aborted) handlers
    → IsSilent (none ∷ []) (stopped handlers)
is_silent handlers h =
    silent (camera (none ∷ []) (record (armed false 80000005 handlers) { timer_paused = true }))
      (doubler (some 0 ∷ []) [] ∷ [])
      (record (armed false 80000005 handlers) { timer_paused = true }) refl refl refl refl refl refl
      h refl refl

aborted_handler : Runs.Step (stopped (operation_aborted ∷ [])) (stopped [])
unfolding timed_do_work
aborted_handler =
    Runs.runs_timer 91 92
      (camera (none ∷ [])
        (record (armed false 80000005 (operation_aborted ∷ [])) { timer_paused = true }))
      (doubler (some 0 ∷ []) [] ∷ [])
      (record (armed false 80000005 (operation_aborted ∷ [])) { timer_paused = true })
      operation_aborted [] _ refl refl refl refl

Step-IsSilent_example : IsSilent (none ∷ []) (stopped [])
Step-IsSilent_example =
    Step-IsSilent paused_run aborted_handler (none ∷ [])
      (is_silent (operation_aborted ∷ []) (refl, tt)) refl
