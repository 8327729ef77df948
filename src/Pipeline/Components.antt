-- ===== src/Pipeline/Components.antt =====
-- The components of a pipeline as objects with a state (src/Component.h): what their calls through
-- src/Pipeline/Pipeline.h come to, whatever the order in which the strands run.
use sec_mon.Prelude.{Bool, ℕ, ◌≡◌, refl, ap, ◌∙◌, Option, List, [], ◌∷◌, ◌++◌, All}
use sec_mon.Pipeline.WorkWrapper.{Element, Work}
use sec_mon.Pipeline.{Pipeline}
use sec_mon.Pipeline.Runs.{Reach}
use sec_mon.Pipeline.Results.{results_from}
use sec_mon.Pipeline.Order.{sequential, last_results, IsIdle, Reach-sequential}

-- `process_next_frame` of an object: whether it throws, and otherwise what it makes of the object and of
-- what the pointer points to.
pub record Component (A : Type 0) : Type 1 where
  pub State : Type 0
  pub initial : State
  pub throws_on : State → Option A → Bool
  pub process_next_frame : State → Option A → State × Option A

module _ {A : Type 0} where
  abbrev pub state_after : (c : Component A) → c.State → List (Option A) → c.State
  state_after c s [] = s
  state_after c s (x ∷ xs) = state_after c (c.process_next_frame s x).0 xs

  -- The bound call that is passed to `addElement`.
  abbrev pub work_of : Component A → Work A
  work_of c = record {
    throws_on = λ before x. c.throws_on (state_after c c.initial before) x;
    leaves = λ before x. (c.process_next_frame (state_after c c.initial before) x).1;
  }

  -- A component on its own, called with one datum after the other.
  abbrev pub outputs : (c : Component A) → c.State → List (Option A) → List (Option A)
  outputs c s [] = []
  outputs c s (x ∷ xs) = (c.process_next_frame s x).1 ∷ outputs c (c.process_next_frame s x).0 xs

  -- Each component on all that the one before puts out.
  abbrev pub chain : List (Component A) → List (Option A) → List (Option A)
  chain [] xs = xs
  chain (c ∷ cs) xs = chain cs (outputs c c.initial xs)

  -- The elements are made of the components.
  abbrev pub IsMadeOf : List (Component A) → List (Element A) → Type 0
  IsMadeOf [] [] = Unit
  IsMadeOf [] (e ∷ es) = ⊥
  IsMadeOf (c ∷ cs) [] = ⊥
  IsMadeOf (c ∷ cs) (e ∷ es) = (e.work ≡ work_of c) × IsMadeOf cs es

  state_after-append :
      (c : Component A) (s : c.State) (xs : List (Option A)) (x : Option A)
      → state_after c s (xs ++ x ∷ []) ≡ (c.process_next_frame (state_after c s xs) x).0
  state_after-append c s [] x = refl
  state_after-append c s (y ∷ xs) x = state_after-append c (c.process_next_frame s y).0 xs x

  results_from-work_of :
      (c : Component A) (before xs : List (Option A))
      → results_from (work_of c).leaves before xs ≡ outputs c (state_after c c.initial before) xs
  results_from-work_of c before [] = refl
  results_from-work_of c before (x ∷ xs) = ap (◌∷◌ ((work_of c).leaves before x)) (
      results_from-work_of c (before ++ x ∷ []) xs
      ∙ ap (λ s. outputs c s xs) (state_after-append c c.initial before x))

  sequential-chain :
      (cs : List (Component A)) (es : List (Element A)) (xs : List (Option A))
      → IsMadeOf cs es
      → sequential es xs ≡ chain cs xs
  sequential-chain [] [] xs m = refl
  sequential-chain [] (e ∷ es) xs m = absurd m
  sequential-chain (c ∷ cs) [] xs m = absurd m
  sequential-chain (c ∷ cs) (e ∷ es) xs (w, m) =
      ap (λ f. sequential es (results_from f.leaves [] xs)) w
      ∙ ap (sequential es) (results_from-work_of c [] xs)
      ∙ sequential-chain cs es (outputs c c.initial xs) m

  -- In every run of a pipeline whose elements call components that keep a state, under every
  -- interleaving of the strands: once nothing is posted for any element behind the first, the last
  -- element has put out what the components put out when they are run on their own, one after the
  -- other, each on all that the one before has put out.
  pub Reach-chain :
      {n : ℕ} {p : Pipeline A}
      → Reach n p
      → (cs : List (Component A)) (e : Element A) (es : List (Element A)) → p.elements ≡ e ∷ es
      → IsMadeOf cs (e ∷ es)
      → All IsIdle es
      → last_results e es ≡ chain cs e.seen
  Reach-chain r cs e es a m i = Reach-sequential r e es a i ∙ sequential-chain cs (e ∷ es) e.seen m
