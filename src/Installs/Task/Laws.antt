-- ===== src/Installs/Task/Laws.antt =====
-- The installs after a task, src/features/ci-cd/tasks/service-installs.ts.
use open_balena_api.Base.{ℕ, Bool, false, none, some, List, ◌∷◌}
use open_balena_api.Installs.{Device, Install, member}
use open_balena_api.Installs.Task.{Outcome, create_each}

-- The row stands in the list.
pub data Stands {A : Type 0} (a : A) : List A → Type 0 where
  here : {xs : List A} → Stands a (a ∷ xs)
  there : {b : A} → {xs : List A} → Stands a xs → Stands a (b ∷ xs)

-- If the task created one with the device.
abbrev pub requeues : Outcome → ℕ → Bool
requeues o d = elim o.requeued [ some ds ↦ member d ds | none ↦ false ]

module _ (late : ℕ → Bool) (targets : Device → List ℕ) (all : List ℕ) (before : List Install) where
  abbrev each : List Device → ℕ → List ℕ → List Install → ℕ → Outcome
  each = create_each late targets all before
