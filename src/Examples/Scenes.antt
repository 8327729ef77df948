-- ===== src/Examples/Scenes.antt =====
-- Tests: a frame's names (src/Frame.cpp), a scene (src/Scene.cpp) and a monitor
-- (src/SceneMonitor.cpp).
use sec_mon.Prelude.{
  ℕ, ◌/◌, ◌≡◌, refl, ◌⊎◌, false, not, if◌then◌else◌, none, some, ltb, ◌+◌, ◌==◌, List, [], ◌∷◌,
  arith, inl, inr, length,
}
use sec_mon.Prelude.Text.{Bytes, codes, bytes_eq}
use sec_mon.Frame
use sec_mon.Frame.{
  Frame, new_frame, get_image, get_new_image, get_new_or_existing_image, find_name, take_slot,
}
use sec_mon.Frame.Slots.{IsPacked}
use sec_mon.Frame.Names.{Registered, get_new_image-Registered, get_new_or_existing_image-again}
use sec_mon.Pipeline
use sec_mon.Pipeline.{returns}
use sec_mon.Pipeline.Runs
use sec_mon.Scene
use sec_mon.Pipeline.WorkWrapper.{Work}
use sec_mon.Scene.{
  Scene, Components, build, camera_throws, toggle_pause, shutdown, set_realtime_factor,
}
use sec_mon.Camera.{Capture, CameraError}
use sec_mon.ImageSource.{ImageSource, new_image_source}
use sec_mon.Stream.Directory.{new_directory}
use sec_mon.GuiInterface.{new_gui_interface}
use sec_mon.Scene.Life.{IsScene, with_four_streams, operations-IsScene}
use sec_mon.SceneMonitor
use sec_mon.SceneMonitor.{find_scene, start_monitoring}
use sec_mon.SceneMonitor.Scenes.{
  IsMonitor, start_monitoring-IsMonitor, AllTurned, toggle_pause-AllTurned,
}

-- An image is a number here.
abbrev fresh : Frame ℕ
fresh = new_frame 0 1

get_new_image-Registered_example :
    Registered fresh (codes "gray") (get_new_image fresh (codes "gray"))
get_new_image-Registered_example = get_new_image-Registered fresh (codes "gray") (λ e. cc) packed
  where
    packed : IsPacked fresh.image_names
    packed = inl (λ e. cc, inl (λ e. cc, inr (ground arith)))

abbrev with_gray : Frame ℕ
with_gray = record fresh {
  image_names =
      codes "original" ∷ codes "overlay" ∷ codes "gray" ∷ [] ∷ [] ∷ [] ∷ [] ∷ [] ∷ [] ∷ [] ∷ [];
}

get_new_or_existing_image-again_example :
    (get_image with_gray (codes "gray") ≡ Frame.returns 2)
    × (get_new_or_existing_image with_gray (codes "gray") ≡ Frame.returns (with_gray, 2))
    × ((m : Bytes) → get_image with_gray m ≡ Frame.returns 2 → m ≡ codes "gray")
unfolding get_new_or_existing_image get_new_image take_slot find_name bytes_eq
get_new_or_existing_image-again_example =
    get_new_or_existing_image-again fresh with_gray (codes "gray") 2 (λ e. cc)
      (inl (λ e. cc, inl (λ e. cc, inr (ground arith)))) refl

abbrev unchanged : Work ℕ
unchanged = record { throws_on = λ before d. false; leaves = λ before d. d }

abbrev parts : Components ℕ
parts = record {
  camera = record { throws_on = λ before d. false; leaves = λ before d. some (length before) };
  movement = unchanged;
  rois = unchanged;
  publisher = unchanged;
}

abbrev period : ℕ → ℕ
period fps = 1000 / fps

abbrev or_else : Scene ℕ → Pipeline.Result (Scene ℕ) → Scene ℕ
or_else s (Pipeline.throws e) = s
or_else s (Pipeline.returns t) = t

-- The scene that monitoring the camera at the door builds.
abbrev door : Scene ℕ
door =
    or_else
      (record { name = []; pipeline = Pipeline.new_pipeline 0; is_paused = false; source_fps = 0 })
      (build 1 (codes "door") 25 period parts)

door-IsScene : IsScene door
unfolding build Scene.add_components Pipeline.compile Pipeline.start
    Pipeline.add_timed_element_named Pipeline.add_element_named Pipeline.add_timed_element
    Pipeline.add_element Pipeline.set_nexts
door-IsScene = record {
  reached =
      Runs.next
        (Runs.next
          (Runs.next
            (Runs.next
              (Runs.next
                (Runs.next Runs.here
                  (Runs.adds_timed_named 40 parts.camera (codes "  Camera") _ refl))
                (Runs.adds_named parts.movement (codes " Movemnt") _ refl))
              (Runs.adds_named parts.rois (codes "    ROIs") _ refl))
            (Runs.adds_named parts.publisher (codes " Publish") _ refl))
          Runs.compiles)
        (Runs.starts 1 _ refl);
  is_compiled = refl;
  is_started = refl;
  has_elements = λ e. cc;
}

operations-IsScene_example :
    ((t : Scene ℕ) × (toggle_pause 2 door ≡ returns t)
      × IsScene t
      × (t.pipeline.paused ≡ not door.pipeline.paused)
      × (t.is_paused ≡ not door.is_paused))
    × ((t : Scene ℕ) × (shutdown 2 door ≡ returns t)
        × IsScene t
        × (t.pipeline.paused ≡ not door.pipeline.paused)
        × (t.is_paused ≡ door.is_paused))
    × ((t : Scene ℕ) × (set_realtime_factor (λ fps. 2000 / fps) door ≡ returns t)
        × IsScene t
        × (t.pipeline.paused ≡ door.pipeline.paused)
        × (t.is_paused ≡ door.is_paused))
operations-IsScene_example = operations-IsScene 2 (λ fps. 2000 / fps) door door-IsScene

-- A video of two images; an image is a number, and so is the position. Any source opens but the empty one.
abbrev video : Capture ℕ ℕ
video = record {
  open_source = λ url s. elim url [ [] ↦ 2 | c ∷ cs ↦ 0 ];
  is_opened = λ s. ltb s 2;
  read = λ s. (ltb s 2, s + 7, s + 1);
  fps = λ s. 25;
  pos_frames = λ s. s;
  release = λ s. s;
  is_empty_image = λ i. i == 0;
  cols = λ i. 4;
  rows = λ i. 3;
}

start_monitoring-IsMonitor_example :
    ((s : Scene ℕ) × (find_scene (codes "door") [] ≡ some s)
      × (start_monitoring video 0 1
            (codes "door")
            (codes "a.avi")
            period
            (λ c. parts)
            length
            new_gui_interface
            []
          ≡ SceneMonitor.scene_exists))
    ⊎ ((e : CameraError) × (find_scene {A = ℕ} (codes "door") [] ≡ none)
        × (new_image_source video (codes "a.avi") 0 ≡ inl e)
        × (start_monitoring video 0 1
              (codes "door")
              (codes "a.avi")
              period
              (λ c. parts)
              length
              new_gui_interface
              []
            ≡ SceneMonitor.scene_throws (camera_throws e)))
    ⊎ ((source : ImageSource ℕ) × (s : Scene ℕ) × (m' : List (Bytes × Scene ℕ)) × (find_scene
            {A = ℕ}
            (codes "door")
            []
          ≡ none)
        × (new_image_source video (codes "a.avi") 0 ≡ inr source)
        × (start_monitoring video 0 1
              (codes "door")
              (codes "a.avi")
              period
              (λ c. parts)
              length
              new_gui_interface
              []
            ≡ SceneMonitor.done (
              m',
              record new_gui_interface {
                stream_directory = with_four_streams length new_directory;
              },
            ))
        × IsScene s
        × (s.pipeline.paused ≡ false)
        × IsMonitor m'
        × ((n : Bytes)
            → find_scene n m' ≡ (if bytes_eq (codes "door") n then some s else find_scene n [])))
start_monitoring-IsMonitor_example =
    start_monitoring-IsMonitor video 0 1 (codes "door") (codes "a.avi") period (λ c. parts) length
      new_gui_interface [] (tt, tt)

toggle_pause-AllTurned_example :
    ((m' : List (Bytes × Scene ℕ)) × (SceneMonitor.toggle_pause 2 ((codes "door", door) ∷ [])
        ≡ SceneMonitor.done m')
      × AllTurned ((codes "door", door) ∷ []) m')
    × ((m' : List (Bytes × Scene ℕ)) × (SceneMonitor.stop_all_monitoring 2
            ((codes "door", door) ∷ [])
          ≡ SceneMonitor.done m')
        × AllTurned ((codes "door", door) ∷ []) m')
toggle_pause-AllTurned_example =
    toggle_pause-AllTurned 2 ((codes "door", door) ∷ []) (door-IsScene, tt)
