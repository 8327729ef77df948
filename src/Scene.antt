-- ===== src/Scene.antt =====
-- src/Scene.cpp: a scene puts a pipeline of four elements together and starts it, and passes pauses and
-- changes of speed on to it. `cv::VideoCapture` is a parameter, as in Camera.
pub mod Life
use sec_mon.Prelude.{ℕ, Bool, true, false, not, List, [], ◌∷◌, inl, inr}
use sec_mon.Prelude.Throwing
use sec_mon.Prelude.Text.{Bytes, codes}
use sec_mon.Pipeline.WorkWrapper.{Work}
use sec_mon.Pipeline.{
  Pipeline, Result, returns, ◌>>=◌, new_pipeline, add_timed_element_named, add_element_named,
  compile, start, pause, change_timer, Error, throws,
}
use sec_mon.Camera.{Capture, CameraError}
use sec_mon.ImageSource.{ImageSource, new_image_source}
use sec_mon.ScenePublisher.{new_publisher}
use sec_mon.GuiInterface.{GuiInterface, register_new_stream}

-- What the constructor lets through: the image source's `runtime_error`, or a text of the pipeline's.
pub data SceneError : Type 0 where
  camera_throws : CameraError → SceneError
  pipeline_throws : Error → SceneError

-- `name_`, `pipeline_`, `isPaused_` and `source_fps_`. The components are kept alive by the work
-- functions too.
pub record Scene (A : Type 0) : Type 0 where
  pub name : Bytes
  pub pipeline : Pipeline A
  pub is_paused : Bool
  pub source_fps : ℕ

-- The work of the four components, with the state that each keeps.
pub record Components (A : Type 0) : Type 0 where
  pub camera : Work A
  pub movement : Work A
  pub rois : Work A
  pub publisher : Work A

-- `add_stream` of the publisher for each of its streams: the GUI is told of it.
unfoldable pub register_streams : (Bytes → ℕ) → List Bytes → GuiInterface → GuiInterface
unfolding register_new_stream
register_streams signal [] gui = gui
register_streams signal (n ∷ ns) gui =
    register_streams signal ns (register_new_stream (signal n) gui)

module _ {A : Type 0} where
  -- `addTimedElement` and `addElement` for the four components.
  unfoldable pub add_components : ℕ → Components A → Pipeline A → Result (Pipeline A)
  unfolding add_timed_element_named add_element_named
  add_components period c p = do
    p ← add_timed_element_named period c.camera (codes "  Camera") p
    p ← add_element_named c.movement (codes " Movemnt") p
    p ← add_element_named c.rois (codes "    ROIs") p
    add_element_named c.publisher (codes " Publish") p

  -- The constructor behind the image source, at a time, with the frames per second of the camera and
  -- what `1000/(source_fps_*realtime_factor)`, a division of doubles, comes to for `source_fps_`.
  unfoldable pub build : ℕ → Bytes → ℕ → (ℕ → ℕ) → Components A → Result (Scene A)
  unfolding add_components compile start
  build now name fps period c = do
    p ← add_components (period fps) c (new_pipeline 5000)
    p ← start now (compile p)
    returns (record { name = name; pipeline = p; is_paused = false; source_fps = fps })

  -- The scene that was built, with the GUI that has the publisher's streams.
  abbrev pub with_streams :
      GuiInterface → Result (Scene A) → Throwing.Result SceneError (Scene A × GuiInterface)
  with_streams gui (throws e) = throws (pipeline_throws e)
  with_streams gui (returns s) = returns (s, gui)

  -- The constructor for the source at a URL, with the work that the components do once the source is
  -- open, and the publisher's signals by the names of its streams.
  unfoldable pub new_scene :
      {State Image : Type 0}
      → Capture State Image
      → State
      → ℕ
      → Bytes
      → Bytes
      → (ℕ → ℕ)
      → (ImageSource State → Components A)
      → (Bytes → ℕ)
      → GuiInterface
      → Throwing.Result SceneError (Scene A × GuiInterface)
  unfolding new_image_source build register_streams new_publisher
  new_scene cv device now name url period c signal gui = elim (new_image_source cv url device) [
    | inl e ↦ throws (camera_throws e)
    | inr source ↦
        with_streams
          (register_streams signal (new_publisher name (codes "Description here")).registered gui)
          (build now name source.camera.frames_per_second period (c source))
  ]

  -- `shutdown`.
  unfoldable pub shutdown : ℕ → Scene A → Result (Scene A)
  shutdown now s = do p ← pause now s.pipeline; returns (record s { pipeline = p })

  -- `toggle_pause`.
  unfoldable pub toggle_pause : ℕ → Scene A → Result (Scene A)
  toggle_pause now s = do
    p ← pause now s.pipeline
    returns (record s { pipeline = p; is_paused = not s.is_paused })

  -- `set_realtime_factor`, with what `1000/(source_fps_*realtime_factor)` comes to for `source_fps_`.
  unfoldable pub set_realtime_factor : (ℕ → ℕ) → Scene A → Result (Scene A)
  set_realtime_factor period s = do
    p ← change_timer (period s.source_fps) s.pipeline
    returns (record s { pipeline = p })
