-- ===== src/SecurityMonitor.antt =====
-- src/SecurityMonitor.cpp: the program, which monitors one camera and takes commands from the keyboard.
pub mod Sessions
use sec_mon.Prelude.{ℕ, Bool, true, false, ◌==◌, if◌then◌else◌, none, some, List, [], ◌∷◌}
use sec_mon.Prelude.Text.{Bytes}
use sec_mon.Pipeline.{Error}
use sec_mon.Scene.{Scene, Components, camera_throws, pipeline_throws}
use sec_mon.Camera.{Capture}
use sec_mon.ImageSource.{ImageSource}
use sec_mon.SceneMonitor.{
  Outcome, scene_exists, scene_throws, done, start_monitoring, stop_all_monitoring, toggle_pause,
  set_realtime_factor, destroy,
}
use sec_mon.GuiInterface.{GuiInterface, new_gui_interface}
use sec_mon.GuiInterface

-- What a key asks for; the factors are in tenths.
pub data Command : Type 0 where
  pause_or_resume : Command
  factor : ℕ → Command
  leave : Command
  nothing : Command

-- The tests on the key.
unfoldable pub command_of : ℕ → Command
command_of ch =
    if ch == 112
    then pause_or_resume
    else if ch == 115
    then factor 1
    else if ch == 110
    then factor 5
    else if ch == 102
    then factor 10
    else if ch == 10
    then leave
    else nothing

pub record Program (A : Type 0) : Type 0 where
  pub scenes : List (Bytes × Scene A)
  pub gui : GuiInterface

-- The program waits for a key, or has come to the end; a destructor at the end has gone on with an
-- iterator that is not valid, for a program that was as it says; an `std::exception` was caught; or an
-- exception that nothing catches has ended the program.
pub data Session (A : Type 0) : Type 0 where
  waiting : Program A → Session A
  left : Program A → Session A
  undefined : Program A → Session A
  caught : Session A
  terminated : Error → Session A

module _ {A : Type 0} where
  abbrev pub then_go : {B : Type 0} → (B → Session A) → Outcome B → Session A
  then_go k scene_exists = caught
  then_go k (scene_throws (camera_throws e)) = caught
  then_go k (scene_throws (pipeline_throws e)) = terminated e
  then_go k (done m) = k m

  -- The end of the `try` block, where the scene monitor is destroyed.
  abbrev pub end_of_block : Program A → Session A
  end_of_block p = elim (destroy p.scenes) [
    | none ↦ undefined p
    | some m ↦ left (record p { scenes = m })
  ]

  -- `main` after the loop.
  unfoldable pub stop : ℕ → Program A → Session A
  unfolding stop_all_monitoring destroy
  stop now p =
      then_go (λ m. end_of_block (record { scenes = m; gui = GuiInterface.shutdown p.gui }))
        (stop_all_monitoring now p.scenes)

  -- The branches of the loop, with the period in milliseconds that a factor and the
  -- frames per second of a camera come to.
  abbrev pub perform : (ℕ → ℕ → ℕ) → ℕ → Program A → Command → Session A
  perform period now p pause_or_resume =
      then_go (λ m. waiting (record p { scenes = m })) (toggle_pause now p.scenes)
  perform period now p (factor f) =
      then_go (λ m. waiting (record p { scenes = m })) (set_realtime_factor (period f) p.scenes)
  perform period now p leave = stop now p
  perform period now p nothing = waiting p

  -- A round of the loop, with the key that `getch` gives.
  unfoldable pub press : (ℕ → ℕ → ℕ) → ℕ → ℕ → Program A → Session A
  unfolding command_of stop
  press period now ch p = perform period now p (command_of ch)

  -- `main` up to the loop, with what `start_monitoring` takes.
  unfoldable pub begin :
      {State Image : Type 0}
      → Capture State Image
      → State
      → ℕ
      → Bytes
      → Bytes
      → (ℕ → ℕ)
      → (ImageSource State → Components A)
      → (Bytes → ℕ)
      → Session A
  unfolding start_monitoring
  begin cv device now name url period c signal =
      then_go (λ r. waiting (record { scenes = r.0; gui = GuiInterface.start r.1 }))
        (start_monitoring cv device now name url period c signal new_gui_interface [])
