-- ===== src/Examples/Sessions.antt =====
-- Tests: a session of the program (src/SecurityMonitor.cpp) in which a pause is followed by Enter.
use sec_mon.Prelude.{ℕ, ◌+◌, ◌*◌, ◌/◌, ◌==◌, ◌≡◌, refl, ltb, false, true, some, [], ◌∷◌, length}
use sec_mon.Prelude.Text.{codes}
use sec_mon.Pipeline
use sec_mon.Scene
use sec_mon.Pipeline.WorkWrapper.{Work}
use sec_mon.Scene.{Components, Scene}
use sec_mon.SceneMonitor
use sec_mon.Camera.{Capture}
use sec_mon.WebSocketServer
use sec_mon.GuiInterface
use sec_mon.SecurityMonitor.{Session, Program, waiting, undefined, press, begin, stop}
use sec_mon.SecurityMonitor.Sessions.{with_server}

abbrev unchanged : Work ℕ
unchanged = record { throws_on = λ before d. false; leaves = λ before d. d }

abbrev parts : Components ℕ
parts = record {
  camera = record { throws_on = λ before d. false; leaves = λ before d. some (length before) };
  movement = unchanged;
  rois = unchanged;
  publisher = unchanged;
}

-- A video of two images; an image is a number, and so is the position.
abbrev video : Capture ℕ ℕ
video = record {
  open_source = λ url s. 0;
  is_opened = λ s. true;
  read = λ s. (ltb s 2, s + 7, s + 1);
  fps = λ s. 25;
  pos_frames = λ s. s;
  release = λ s. s;
  is_empty_image = λ i. i == 0;
  cols = λ i. 4;
  rows = λ i. 3;
}

abbrev period : ℕ → ℕ → ℕ
period tenths fps = 10000 / (fps * tenths)

abbrev started : Session ℕ
started = begin video 0 1 (codes "door") (codes "a.avi") (period 10) (λ c. parts) length

abbrev or_else : Program ℕ → Session ℕ → Program ℕ
or_else p (waiting q) = q
or_else p _ = p

abbrev program : Program ℕ
program = or_else (record { scenes = []; gui = GuiInterface.new_gui_interface }) started

abbrev paused_program : Program ℕ
paused_program = or_else program (press period 2 b'p' program)

-- A web socket connection opens while the program waits.
abbrev connected_program : Program ℕ
connected_program = with_server (WebSocketServer.on_open 7) paused_program

-- Enter closes that connection, and the scene that was paused runs when the destructor goes wrong.
ends_undefined :
    (p : Program ℕ) × (press period 3 10 connected_program ≡ undefined p)
    × (p.gui.web_socket_server.closed ≡ 7 ∷ [])
unfolding press begin stop SceneMonitor.find_scene Scene.new_scene SceneMonitor.toggle_pause
    SceneMonitor.insert_scene Scene.toggle_pause Pipeline.pause Scene.shutdown GuiInterface.start
    GuiInterface.shutdown WebSocketServer.shutdown WebSocketServer.on_open
    WebSocketServer.insert_handle
ends_undefined = (_, refl, refl)
