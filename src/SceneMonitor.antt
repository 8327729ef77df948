-- ===== src/SceneMonitor.antt =====
-- src/SceneMonitor.cpp: the scenes by name. The map keeps them in the order of their names.
pub mod Scenes
use sec_mon.Prelude.{
  ℕ, Bool, true, false, ltb, ◌==◌, if◌then◌else◌, Option, none, some, List, [], ◌∷◌, ◌++◌,
}
use sec_mon.Prelude.Text.{Bytes, codes, bytes_eq}
use sec_mon.Pipeline.{Result, throws, returns}
use sec_mon.Prelude.Throwing
use sec_mon.Scene.{Scene, SceneError, pipeline_throws, Components, new_scene, shutdown}
use sec_mon.Camera.{Capture}
use sec_mon.ImageSource.{ImageSource}
use sec_mon.GuiInterface.{GuiInterface}
use sec_mon.Scene

-- What an operation comes to: the exception for a name that is taken, one that a scene lets through, or a
-- value.
pub data Outcome (B : Type 0) : Type 0 where
  scene_exists : Outcome B
  scene_throws : SceneError → Outcome B
  done : B → Outcome B

-- `operator<` on strings.
unfoldable pub comes_before : Bytes → Bytes → Bool
comes_before xs [] = false
comes_before [] (y ∷ ys) = true
comes_before (x ∷ xs) (y ∷ ys) =
    let rest = comes_before xs ys in if ltb x y then true else if x == y then rest else false

module _ {A : Type 0} where
  -- `find` and `insert` of the map `scenes_`.
  unfoldable pub find_scene : Bytes → List (Bytes × Scene A) → Option (Scene A)
  find_scene name [] = none
  find_scene name ((n, s) ∷ m) =
      let rest = find_scene name m in if bytes_eq n name then some s else rest

  unfoldable pub insert_scene : Bytes → Scene A → List (Bytes × Scene A) → List (Bytes × Scene A)
  insert_scene name s [] = (name, s) ∷ []
  insert_scene name s ((n, t) ∷ m) =
      let rest = insert_scene name s m in
      if comes_before name n then (name, s) ∷ (n, t) ∷ m else (n, t) ∷ rest

  abbrev pub insert_result :
      Bytes
      → List (Bytes × Scene A)
      → Throwing.Result SceneError (Scene A × GuiInterface)
      → Outcome (List (Bytes × Scene A) × GuiInterface)
  insert_result name m (throws e) = scene_throws e
  insert_result name m (returns (s, gui)) = done (insert_scene name s m, gui)

  -- `start_monitoring`, with what `new_scene` takes.
  unfoldable pub start_monitoring :
      {State Image : Type 0}
      → Capture State Image
      → State
      → ℕ
      → Bytes
      → Bytes
      → (ℕ → ℕ)
      → (ImageSource State → Components A)
      → (Bytes → ℕ)
      → GuiInterface
      → List (Bytes × Scene A)
      → Outcome (List (Bytes × Scene A) × GuiInterface)
  start_monitoring cv device now name url period c signal gui m = elim (find_scene name m) [
    | some s ↦ scene_exists
    | none ↦ insert_result name m (new_scene cv device now name url period c signal gui)
  ]

  abbrev pub behind :
      Bytes → Result (Scene A) → Outcome (List (Bytes × Scene A)) → Outcome (List (Bytes × Scene A))
  behind n (throws e) o = scene_throws (pipeline_throws e)
  behind n (returns s) scene_exists = scene_exists
  behind n (returns s) (scene_throws e) = scene_throws e
  behind n (returns s) (done m) = done ((n, s) ∷ m)

  -- The loops over all scenes.
  unfoldable pub each :
      (Scene A → Result (Scene A)) → List (Bytes × Scene A) → Outcome (List (Bytes × Scene A))
  each f [] = done []
  each f ((n, s) ∷ m) = behind n (f s) (each f m)

  -- `stop_monitoring`: an operation on the scene of a name, if there is one.
  unfoldable pub stop_monitoring :
      ℕ → Bytes → List (Bytes × Scene A) → Outcome (List (Bytes × Scene A))
  stop_monitoring now name [] = done []
  stop_monitoring now name ((n, s) ∷ m) =
      let rest = stop_monitoring now name m in
      if bytes_eq n name then behind n (shutdown now s) (done m) else behind n (returns s) rest

  -- `stop_all_monitoring`, `toggle_pause` and `set_realtime_factor`.
  unfoldable pub stop_all_monitoring : ℕ → List (Bytes × Scene A) → Outcome (List (Bytes × Scene A))
  unfolding each
  stop_all_monitoring now m = each (shutdown now) m

  unfoldable pub toggle_pause : ℕ → List (Bytes × Scene A) → Outcome (List (Bytes × Scene A))
  unfolding each
  toggle_pause now m = each (Scene.toggle_pause now) m

  unfoldable pub set_realtime_factor :
      (ℕ → ℕ) → List (Bytes × Scene A) → Outcome (List (Bytes × Scene A))
  unfolding each
  set_realtime_factor period m = each (Scene.set_realtime_factor period) m

  -- The loop of `get_scene_names`, with the separator before the first name.
  unfoldable pub list_names : Bytes → List (Bytes × Scene A) → Bytes
  list_names separator [] = []
  list_names separator ((n, s) ∷ m) = separator ++ n ++ list_names (codes ",") m

  -- `get_scene_names`.
  unfoldable pub get_scene_names : List (Bytes × Scene A) → Bytes
  unfolding list_names
  get_scene_names m = codes "[" ++ list_names [] m ++ codes "]"

  -- The destructor. After the first `erase` the loop goes on with an iterator that `erase` has made
  -- invalid: `none`.
  unfoldable pub destroy : List (Bytes × Scene A) → Option (List (Bytes × Scene A))
  destroy [] = some []
  destroy (s ∷ m) = none
