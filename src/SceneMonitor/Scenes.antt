-- ===== src/SceneMonitor/Scenes.antt =====
-- The scenes that a monitor keeps (src/SceneMonitor.cpp), and their names.
use sec_mon.Prelude.{
  ℕ, ◌≡◌, ◌≢◌, refl, sym, ap, ◌∙◌, true, false, ltb, ◌==◌, ==_iff, not, if◌then◌else◌, none, some,
  List, [], ◌∷◌, arith, ◌⊎◌, inl, inr, All, Bool-cases, Option-cases,
}
use sec_mon.Prelude.Text.{Bytes, bytes_eq, bytes_eq_iff, apart}
use sec_mon.Pipeline.{Result, returns}
use sec_mon.Scene.{Scene, Components, camera_throws, new_scene, shutdown}
use sec_mon.Camera.{Capture, CameraError}
use sec_mon.ImageSource.{ImageSource, new_image_source}
use sec_mon.GuiInterface.{GuiInterface}
use sec_mon.Scene
use sec_mon.Scene.Life.{IsScene, with_four_streams, new_scene-IsScene, operations-IsScene}
use sec_mon.SceneMonitor.{
  scene_exists, scene_throws, done, comes_before, find_scene, insert_scene, insert_result,
  start_monitoring, each, stop_all_monitoring, toggle_pause,
}

comes_before-total :
    (xs ys : Bytes) → comes_before xs ys ≡ false → xs ≢ ys → comes_before ys xs ≡ true
unfolding comes_before
comes_before-total [] [] h n = absurd (n refl)
comes_before-total [] (y ∷ ys) h n = absurd cc
comes_before-total (x ∷ xs) [] h n = refl
comes_before-total (x ∷ xs) (y ∷ ys) h n = elim (Bool-cases (ltb x y)) [
  | inl e ↦ absurd (ground arith)
  | inr e ↦ elim (Bool-cases (x == y)) [
    | inl g ↦
        let same : x ≡ y = (==_iff x y).0 g in
        let rest =
          comes_before-total xs ys (ground arith)
            (λ k. n (let whole : x ∷ xs ≡ y ∷ ys = cc in whole)) in
        ground arith
    | inr g ↦ ground arith
  ]
]

differs : (k name : Bytes) → bytes_eq k name ≡ false → name ≢ k
differs k name h e = cc (sym h ∙ (bytes_eq_iff k name).1 (sym e))

module _ {A : Type 0} where
  -- The names of a monitor's scenes are in order, so that they are distinct.
  abbrev pub IsSorted : List (Bytes × Scene A) → Type 0
  IsSorted [] = Unit
  IsSorted (s ∷ []) = Unit
  IsSorted (s ∷ t ∷ m) = (comes_before s.0 t.0 ≡ true) × IsSorted (t ∷ m)

  -- And every scene is one that was built, with the operations made on it.
  abbrev pub IsMonitor : List (Bytes × Scene A) → Type 0
  IsMonitor m = IsSorted m × All (λ s. IsScene s.1) m

  find-insert :
      (name n : Bytes) (s : Scene A) (m : List (Bytes × Scene A))
      → find_scene name m ≡ none
      → find_scene n (insert_scene name s m) ≡ (if bytes_eq name n then some s else find_scene n m)
  unfolding find_scene insert_scene
  find-insert name n s [] h = refl
  find-insert name n s ((k, t) ∷ m) h =
      let other : bytes_eq k name ≡ false = ground arith in
      let rest : find_scene name m ≡ none = ground arith in
      elim (Bool-cases (comes_before name k)) [
        | inl e ↦ rw e refl
        | inr e ↦ rw e (ground (arith, find-insert name n s m rest, apart k name n other))
      ]

  insert-IsSorted :
      (name : Bytes) (s : Scene A) (m : List (Bytes × Scene A))
      → find_scene name m ≡ none
      → IsSorted m
      → IsSorted (insert_scene name s m)
  unfolding insert_scene find_scene
  insert-IsSorted name s [] h o = tt
  insert-IsSorted name s ((k, t) ∷ []) h o =
      let other : bytes_eq k name ≡ false = ground arith in
      elim (Bool-cases (comes_before name k)) [
        | inl e ↦ rw e (e, tt)
        | inr e ↦ rw e (comes_before-total name k e (differs k name other), tt)
      ]
  insert-IsSorted name s ((k, t) ∷ (j, u) ∷ m) h o =
      let other : bytes_eq k name ≡ false = ground arith in
      let rest : find_scene name ((j, u) ∷ m) ≡ none = ground arith in
      elim (Bool-cases (comes_before name k)) [
        | inl e ↦ rw e (e, o)
        | inr e ↦
            let ih = insert-IsSorted name s ((j, u) ∷ m) rest o.1 in
            elim (Bool-cases (comes_before name j)) [
              | inl g ↦ rw (e, g) (comes_before-total name k e (differs k name other), (g, o.1))
              | inr g ↦ rw (e, g) (o.0, rw g at ih)
            ]
      ]

  insert-All :
      (P : Scene A → Type 0) (name : Bytes) (s : Scene A) (m : List (Bytes × Scene A))
      → P s
      → All (λ e. P e.1) m
      → All (λ e. P e.1) (insert_scene name s m)
  unfolding insert_scene
  insert-All P name s [] h a = (h, tt)
  insert-All P name s ((k, t) ∷ m) h a = elim (Bool-cases (comes_before name k)) [
    | inl e ↦ rw e (h, a)
    | inr e ↦ rw e (a.0, insert-All P name s m h a.1)
  ]

  -- A name that is known is refused. Under a new name, the exception of an image source that does not
  -- open is let through. If it opens, nothing throws: a scene whose pipeline runs is built, it is found
  -- under that name and every other scene as before, in a monitor with its scenes in order, and the GUI
  -- has the scene's four streams more.
  pub start_monitoring-IsMonitor :
      {State Image : Type 0} (cv : Capture State Image) (device : State) (now : ℕ)
      (name url : Bytes) (period : ℕ → ℕ) (c : ImageSource State → Components A)
      (signal : Bytes → ℕ) (gui : GuiInterface) (m : List (Bytes × Scene A))
      → IsMonitor m
      → ((s : Scene A) × (find_scene name m ≡ some s)
          × (start_monitoring cv device now name url period c signal gui m ≡ scene_exists))
        ⊎ ((e : CameraError) × (find_scene name m ≡ none)
            × (new_image_source cv url device ≡ inl e)
            × (start_monitoring cv device now name url period c signal gui m
                ≡ scene_throws (camera_throws e)))
        ⊎ ((source : ImageSource State) × (s : Scene A) × (m' : List (Bytes × Scene A))
            × (find_scene name m ≡ none)
            × (new_image_source cv url device ≡ inr source)
            × (start_monitoring cv device now name url period c signal gui m
                ≡ done (
                  m',
                  record gui { stream_directory = with_four_streams signal gui.stream_directory },
                ))
            × IsScene s
            × (s.pipeline.paused ≡ false)
            × IsMonitor m'
            × ((n : Bytes)
                → find_scene n m' ≡ (if bytes_eq name n then some s else find_scene n m)))
  unfolding start_monitoring
  start_monitoring-IsMonitor cv device now name url period c signal gui m (o, a) =
      elim (Option-cases (find_scene name m)) [
        | inr (s, e) ↦ inl (s, e, rw (e, start_monitoring) refl)
        | inl e ↦ inr (elim (new_scene-IsScene cv device now name url period c signal gui) [
          | inl (x, h, r) ↦ inl (x, e, h, rw (e, start_monitoring) (ap (insert_result name m) r))
          | inr (source, s, h, r, k, p) ↦ inr (
            source,
            s,
            insert_scene name s m,
            e,
            h,
            rw (e, start_monitoring) (ap (insert_result name m) r),
            k,
            p,
            (insert-IsSorted name s m e o, insert-All IsScene name s m k a),
            (λ n. find-insert name n s m e),
          )
        ])
      ]

  -- What an operation on every scene does to them.
  abbrev pub AllTurned : List (Bytes × Scene A) → List (Bytes × Scene A) → Type 0
  AllTurned [] [] = Unit
  AllTurned [] (t ∷ m') = ⊥
  AllTurned (s ∷ m) [] = ⊥
  AllTurned (s ∷ m) (t ∷ m') =
      (t.0 ≡ s.0) × IsScene t.1 × (t.1.pipeline.paused ≡ not s.1.pipeline.paused) × AllTurned m m'

  each-AllTurned :
      (f : Scene A → Result (Scene A)) (m : List (Bytes × Scene A))
      → ((s : Scene A)
          → IsScene s
          → (t : Scene A) × (f s ≡ returns t)
            × IsScene t
            × (t.pipeline.paused ≡ not s.pipeline.paused))
      → All (λ s. IsScene s.1) m
      → (m' : List (Bytes × Scene A)) × (each f m ≡ done m') × AllTurned m m'
  unfolding each
  each-AllTurned f [] g a = ([], refl, tt)
  each-AllTurned f ((n, s) ∷ m) g (h, a) =
      let (t, e, k, p) = g s h in
      let (m', e', r) = each-AllTurned f m g a in ((n, t) ∷ m', rw (e, e') refl, (refl, k, p, r))

  -- Neither `toggle_pause` nor `stop_all_monitoring` throws on scenes that were built. Both turn the pause
  -- of every scene over and leave the names as they are: stopping resumes what was paused.
  pub toggle_pause-AllTurned :
      (now : ℕ) (m : List (Bytes × Scene A))
      → All (λ s. IsScene s.1) m
      → ((m' : List (Bytes × Scene A)) × (toggle_pause now m ≡ done m') × AllTurned m m')
        × ((m' : List (Bytes × Scene A)) × (stop_all_monitoring now m ≡ done m') × AllTurned m m')
  unfolding toggle_pause stop_all_monitoring
  toggle_pause-AllTurned now m a = (
    each-AllTurned (Scene.toggle_pause now) m
        (λ s h. let (t, e, k, p, q) = (operations-IsScene now (λ fps. 0) s h).0 in (t, e, k, p)) a,
    each-AllTurned (shutdown now) m
        (λ s h. let (t, e, k, p, q) = (operations-IsScene now (λ fps. 0) s h).1 in (t, e, k, p)) a,
  )
