-- ===== src/Scene/Life.antt =====
-- The life of a scene (src/Scene.cpp): its construction and the sequences of its operations.
use sec_mon.Prelude.{
  ℕ, ◌≡◌, ◌≢◌, refl, ◌∙◌, true, false, not, [], ◌∷◌, arith, ◌⊎◌, inl, inr, if◌then◌else◌,
  List-cases, Sum-cases,
}
use sec_mon.Prelude.Text.{Bytes, codes}
use sec_mon.Pipeline.{
  Pipeline, throws, returns, add_timed_element, add_timed_element_named, add_element,
  add_element_named, compile, start, pause, change_timer, set_nexts, on_timer,
}
use sec_mon.Pipeline.Runs
use sec_mon.Pipeline.WorkWrapper.{pause_timer}
use sec_mon.Camera.{Capture, CameraError}
use sec_mon.ImageSource.{ImageSource, new_image_source}
use sec_mon.ScenePublisher
use sec_mon.ScenePublisher.{new_publisher}
use sec_mon.Stream.Directory.{Directory, add_stream}
use sec_mon.GuiInterface.{GuiInterface, register_new_stream}
use sec_mon.Scene.{
  Scene, camera_throws, new_scene, with_streams, register_streams, Components, build,
  add_components, shutdown, toggle_pause, set_realtime_factor,
}

-- The directory with the publisher's four streams.
abbrev pub with_four_streams : (Bytes → ℕ) → Directory → Directory
with_four_streams signal d =
    add_stream
      (add_stream (add_stream (add_stream d (signal (codes "main"))) (signal (codes "overlay")))
        (signal (codes "foreground")))
      (signal (codes "difference"))

register_streams-four :
    (signal : Bytes → ℕ) (name : Bytes) (gui : GuiInterface)
    → register_streams signal (new_publisher name (codes "Description here")).registered gui
      ≡ record gui { stream_directory = with_four_streams signal gui.stream_directory }
unfolding register_streams new_publisher ScenePublisher.add_stream register_new_stream
register_streams-four signal name gui = refl

module _ {A : Type 0} where
  -- The pipeline is one that a run has brought about, and it is started.
  pub record IsScene (s : Scene A) : Type 0 where
    pub reached : Runs.Reach 5000 s.pipeline
    pub is_compiled : s.pipeline.compiled ≡ true
    pub is_started : s.pipeline.started ≡ true
    pub has_elements : s.pipeline.elements ≢ []

  -- The constructor throws nothing. It leaves a pipeline that a run of the pipeline's operations brings
  -- about, started and not paused.
  pub build-IsScene :
      (now : ℕ) (name : Bytes) (fps : ℕ) (period : ℕ → ℕ) (c : Components A)
      → (s : Scene A) × (build now name fps period c ≡ returns s)
        × IsScene s
        × (s.pipeline.paused ≡ false)
        × (s.is_paused ≡ false)
  unfolding build add_components compile start add_timed_element_named add_element_named
      add_timed_element add_element set_nexts
  build-IsScene now name fps period c = (
    _,
    refl,
    record {
      reached =
          Runs.next
            (Runs.next
              (Runs.next
                (Runs.next
                  (Runs.next
                    (Runs.next Runs.here
                      (Runs.adds_timed_named (period fps) c.camera (codes "  Camera") _ refl))
                    (Runs.adds_named c.movement (codes " Movemnt") _ refl))
                  (Runs.adds_named c.rois (codes "    ROIs") _ refl))
                (Runs.adds_named c.publisher (codes " Publish") _ refl))
              Runs.compiles)
            (Runs.starts now _ refl);
      is_compiled = refl;
      is_started = refl;
      has_elements = λ e. cc;
    },
    refl,
    refl,
  )

  new_scene-opened :
      {State Image : Type 0} (cv : Capture State Image) (device : State) (now : ℕ)
      (name url : Bytes) (period : ℕ → ℕ) (c : ImageSource State → Components A)
      (signal : Bytes → ℕ) (gui : GuiInterface) (source : ImageSource State)
      → new_image_source cv url device ≡ inr source
      → new_scene cv device now name url period c signal gui
        ≡ with_streams
            (register_streams signal (new_publisher name (codes "Description here")).registered gui)
            (build now name source.camera.frames_per_second period (c source))
  unfolding new_scene
  new_scene-opened cv device now name url period c signal gui source h = rw (h, new_scene) refl

  -- The constructor lets the image source's exception through; otherwise it throws nothing, and the GUI
  -- has the publisher's four streams more.
  pub new_scene-IsScene :
      {State Image : Type 0} (cv : Capture State Image) (device : State) (now : ℕ)
      (name url : Bytes) (period : ℕ → ℕ) (c : ImageSource State → Components A)
      (signal : Bytes → ℕ) (gui : GuiInterface)
      → ((e : CameraError) × (new_image_source cv url device ≡ inl e)
          × (new_scene cv device now name url period c signal gui ≡ throws (camera_throws e)))
        ⊎ ((source : ImageSource State) × (s : Scene A) × (new_image_source cv url device
              ≡ inr source)
            × (new_scene cv device now name url period c signal gui
                ≡ returns (
                  s,
                  record gui { stream_directory = with_four_streams signal gui.stream_directory },
                ))
            × IsScene s
            × (s.pipeline.paused ≡ false))
  unfolding new_scene
  new_scene-IsScene cv device now name url period c signal gui =
      elim (Sum-cases (new_image_source cv url device)) [
        | inl (e, h) ↦ inl (e, h, rw (h, new_scene) refl)
        | inr (source, h) ↦
            let (s, b, k, p, q) =
              build-IsScene now name source.camera.frames_per_second period (c source) in
            inr (
              source,
              s,
              h,
              new_scene-opened cv device now name url period c signal gui source h
                  ∙ (λ i. with_streams (register_streams-four signal name gui i) (b i)),
              k,
              p,
            )
      ]

  -- What a started pipeline does on a pause and on a change of its timer.
  pause_returns :
      (now : ℕ) (p : Pipeline A)
      → p.compiled ≡ true
      → p.started ≡ true
      → p.elements ≢ []
      → (q : Pipeline A) × (pause now p ≡ returns q)
        × (q.compiled ≡ true)
        × (q.started ≡ true)
        × (q.elements ≢ [])
        × (q.paused ≡ not p.paused)
  unfolding pause
  pause_returns now p c s n = elim (List-cases p.elements) [
    | inl e ↦ absurd (n e)
    | inr (x, xs, e) ↦ (
      record p {
        elements = on_timer (pause_timer now) x ∷ xs;
        paused = if p.paused then false else true;
      },
      ground arith,
      c,
      s,
      λ f. cc,
      ground arith,
    )
  ]

  change_timer_returns :
      (ms : ℕ) (p : Pipeline A)
      → p.compiled ≡ true
      → p.elements ≢ []
      → (q : Pipeline A) × (change_timer ms p ≡ returns q)
        × (q.compiled ≡ true)
        × (q.started ≡ p.started)
        × (q.elements ≢ [])
        × (q.paused ≡ p.paused)
  unfolding change_timer
  change_timer_returns ms p c n = elim (List-cases p.elements) [
    | inl e ↦ absurd (n e)
    | inr (x, xs, e) ↦ (
      record p { elements = on_timer (λ t. record t { milliseconds = ms }) x ∷ xs },
      ground arith,
      c,
      refl,
      λ f. cc,
      refl,
    )
  ]

  -- No operation of a scene throws, and each leaves a scene whose pipeline a run has brought about. Both
  -- `toggle_pause` and `shutdown` turn the pipeline's pause over, so that a shutdown of a paused scene
  -- resumes it, and only `toggle_pause` turns `isPaused_` over; a change of speed leaves both.
  pub operations-IsScene :
      (now : ℕ) (period : ℕ → ℕ) (s : Scene A)
      → IsScene s
      → ((t : Scene A) × (toggle_pause now s ≡ returns t)
          × IsScene t
          × (t.pipeline.paused ≡ not s.pipeline.paused)
          × (t.is_paused ≡ not s.is_paused))
        × ((t : Scene A) × (shutdown now s ≡ returns t)
            × IsScene t
            × (t.pipeline.paused ≡ not s.pipeline.paused)
            × (t.is_paused ≡ s.is_paused))
        × ((t : Scene A) × (set_realtime_factor period s ≡ returns t)
            × IsScene t
            × (t.pipeline.paused ≡ s.pipeline.paused)
            × (t.is_paused ≡ s.is_paused))
  unfolding toggle_pause shutdown set_realtime_factor
  operations-IsScene now period s h =
      let (q, e, c, g, n, u) =
        pause_returns now s.pipeline h.is_compiled h.is_started h.has_elements in
      let (r, f, d, k, m, v) =
        change_timer_returns (period s.source_fps) s.pipeline h.is_compiled h.has_elements in
      let paused : IsScene (record s { pipeline = q }) = record {
        reached = Runs.next h.reached (Runs.pauses now q e);
        is_compiled = c;
        is_started = g;
        has_elements = n;
      } in
      (
        (
          record s { pipeline = q; is_paused = not s.is_paused },
          rw e refl,
          record { reached = paused.reached; is_compiled = c; is_started = g; has_elements = n },
          u,
          refl,
        ),
        (record s { pipeline = q }, rw e refl, paused, u, refl),
        (
          record s { pipeline = r },
          rw f refl,
          record {
            reached = Runs.next h.reached (Runs.changes_timer (period s.source_fps) r f);
            is_compiled = d;
            is_started = k ∙ h.is_started;
            has_elements = m;
          },
          v,
          refl,
        ),
      )
