-- ===== src/Installs/Task/Examples.antt =====
-- Runs of the task, src/features/ci-cd/tasks/service-installs.ts.
use open_balena_api.Base.{ℕ, ◌≡◌, refl, Bool, none, some, [], ◌∷◌, ◌==◌, not}
use open_balena_api.Installs.{Device, Tables, services_of, lacks_some}
use open_balena_api.Installs.Task.{
  target_services, create_service_installs, run_task, all_services, create_each,
}

abbrev device : ℕ → Device
device i = record { id = i; application = 1; pinned = none; managed = none; operated = none }

abbrev fleet : Tables
fleet = record {
  services = record { id = 100; application = 1; releases = 11 ∷ [] } ∷ [];
  devices = device 5 ∷ device 6 ∷ [];
  installs = [];
  target = λ a. some 11;
  tasks = [];
}

-- The time is over before the second device.
abbrev late : ℕ → Bool
late i = not (i == 0)

requeued : (run_task late (5 ∷ 6 ∷ []) fleet).tasks ≡ (6 ∷ []) ∷ []
unfolding run_task create_service_installs all_services target_services services_of create_each
    lacks_some
requeued = refl
