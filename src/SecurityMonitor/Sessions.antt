-- ===== src/SecurityMonitor/Sessions.antt =====
-- The sessions of src/SecurityMonitor.cpp: keys are pressed while the scene's pipeline runs.
use sec_mon.Prelude.{
  ℕ, ◌≡◌, ◌≢◌, Bool, true, false, not, ◌⊎◌, inl, inr, Any, ◌==◌, if◌then◌else◌, List, [], ◌∷◌,
}
use sec_mon.Prelude.Text.{Bytes}
use sec_mon.Pipeline.{Pipeline, Error, work_throws, timer_error}
use sec_mon.Camera.{CameraError}
use sec_mon.ImageSource.{ImageSource}
use sec_mon.Pipeline.Runs
use sec_mon.Scene.{Scene}
use sec_mon.Scene
use sec_mon.Scene.Life.{IsScene}
use sec_mon.GuiInterface
use sec_mon.WebSocketServer
use sec_mon.SecurityMonitor.{Program, Session, waiting, left, undefined, caught, terminated, press}

-- Whether the keys pause: `p` was pressed an odd number of times.
unfoldable pub pauses : List ℕ → Bool
pauses [] = false
pauses (ch ∷ keys) = let rest = pauses keys in if ch == b'p' then not rest else rest

-- The image source has opened, or has not.
abbrev pub IsOpened : {State : Type 0} → CameraError ⊎ ImageSource State → Type 0
IsOpened {State = State} source = (s : ImageSource State) × (source ≡ inr s)

abbrev pub IsFailed : {State : Type 0} → CameraError ⊎ ImageSource State → Type 0
IsFailed source = (e : CameraError) × (source ≡ inl e)

module _ {A : Type 0} where
  -- What a pipeline does by itself: steps of its run that leave its flags as they are.
  pub data Evolves (p : Pipeline A) : Pipeline A → Type 0 where
    rest : Evolves p p
    step :
        {q r : Pipeline A}
        → Evolves p q
        → Runs.Step q r
        → r.compiled ≡ q.compiled
        → r.started ≡ q.started
        → r.paused ≡ q.paused
        → r.elements ≢ []
        → Evolves p r

  abbrev pub AllEvolve : List (Bytes × Scene A) → List (Bytes × Scene A) → Type 0
  AllEvolve [] [] = Unit
  AllEvolve [] (t ∷ m') = ⊥
  AllEvolve (s ∷ m) [] = ⊥
  AllEvolve (s ∷ m) (t ∷ m') =
      (t.0 ≡ s.0)
      × (t.1.name ≡ s.1.name)
      × (t.1.is_paused ≡ s.1.is_paused)
      × Evolves s.1.pipeline t.1.pipeline
      × AllEvolve m m'

  abbrev pub with_server :
      (WebSocketServer.WebSocketServer → WebSocketServer.WebSocketServer) → Program A → Program A
  with_server f p = record p {
    gui = record p.gui { web_socket_server = f p.gui.web_socket_server };
  }

  module _ (period : ℕ → ℕ → ℕ) (start : Session A) where
    -- The sessions from a start, with the keys that were pressed, the last one first. While the
    -- program waits, pipelines run and web socket connections open and close in other threads; an
    -- exception that leaves a handler of a pipeline ends the program.
    pub data Reach : List ℕ → Session A → Type 0 where
      here : Reach [] start
      works :
          {keys : List ℕ} {p : Program A} (m : List (Bytes × Scene A))
          → Reach keys (waiting p)
          → AllEvolve p.scenes m
          → Reach keys (waiting (record p { scenes = m }))
      opens :
          {keys : List ℕ} {p : Program A} (h : ℕ)
          → Reach keys (waiting p)
          → Reach keys (waiting (with_server (WebSocketServer.on_open h) p))
      closes :
          {keys : List ℕ} {p : Program A} (h : ℕ)
          → Reach keys (waiting p)
          → Reach keys (waiting (with_server (WebSocketServer.on_close h) p))
      crashes :
          {keys : List ℕ} {p : Program A} (x : Error)
          → Reach keys (waiting p)
          → Any (λ s. Runs.Crash s.1.pipeline x) p.scenes
          → Reach keys (terminated x)
      presses :
          {keys : List ℕ} {p : Program A} (now ch : ℕ)
          → Reach keys (waiting p)
          → Reach (ch ∷ keys) (press period now ch p)

  -- One scene, under the name, with a pipeline that is paused or not.
  abbrev pub IsWatching : Bytes → Bool → List (Bytes × Scene A) → Type 0
  IsWatching name paused m =
      (s : Scene A) × (m ≡ (name, s) ∷ []) × IsScene s × (s.pipeline.paused ≡ paused)

  -- What holds of a session, by what became of the image source and by the keys that were pressed.
  abbrev pub IsSession :
      {State : Type 0} → Bytes → CameraError ⊎ ImageSource State → List ℕ → Session A → Type 0
  IsSession name source keys (waiting p) = IsOpened source × IsWatching name (pauses keys) p.scenes
  IsSession name source keys (left p) = ⊥
  IsSession name source keys (undefined p) =
      IsOpened source
      × IsWatching name (not (pauses keys)) p.scenes
      × (p.gui.web_socket_server.shutting_down ≡ true)
      × (p.gui.web_socket_server.master_list ≡ [])
  IsSession name source keys caught = IsFailed source
  IsSession name source keys (terminated x) = (x ≡ work_throws) ⊎ (x ≡ timer_error)
