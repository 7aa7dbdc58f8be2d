-- ===== src/Installs/Task.antt =====
-- src/features/ci-cd/tasks/service-installs.ts: the task that creates the installs of its devices.
mod Laws
mod Examples
use open_balena_api.Base.{
  ℕ, ◌+◌, suc, ◌==◌, Bool, not, ◌||◌, Option, none, some, List, [], ◌∷◌, ◌++◌, map, keep, length,
  if◌then◌else◌,
}
use open_balena_api.Installs.{
  Device, Install, Tables, member, is_number, services_of, existing, difference, lacks_some,
}
use open_balena_api.Installs.Hooks.{is_nil}

-- `should_be_running__release` of a device, which src/balena.sbvr computes.
abbrev pub running : Tables → Device → Option ℕ
running t d = elim d.pinned [ some r ↦ some r | none ↦ t.target d.application ]

-- `targetServicesByDevice`
pub target_services : Tables → Device → List ℕ
target_services t d =
    services_of (λ n. is_number (running t d) n || is_number d.managed n || is_number d.operated n)
      t.services

-- `serviceIds`
pub all_services : (Device → List ℕ) → List Device → List ℕ
all_services targets [] = []
all_services targets (d ∷ ds) = targets d ++ all_services targets ds

abbrev pub posts : List Install → Device → List ℕ → List ℕ → List Install
posts before d ss all = map (λ s. (d.id, s)) (difference ss (existing before d.id all))

-- What the task did: the installs, how many it made, and the devices of the task that it created.
pub record Outcome : Type 0 where
  pub installs : List Install
  pub created : ℕ
  pub requeued : Option (List ℕ)

abbrev pub remove : ℕ → List ℕ → List ℕ
remove d ds = keep (λ e. not (e == d)) ds

-- The loop over the devices that lack a service. The clock is read before each, so `late i` says if
-- more than the maximum has passed before the `i`th.
pub create_each :
    (ℕ → Bool)
    → (Device → List ℕ)
    → List ℕ
    → List Install
    → List Device
    → ℕ
    → List ℕ
    → List Install
    → ℕ
    → Outcome
create_each late targets all before [] i remaining installs n = record {
  installs = installs;
  created = n;
  requeued = none;
}
create_each late targets all before (d ∷ ds) i remaining installs n =
    let made = posts before d (targets d) all in
    let rest =
      create_each late targets all before ds (suc i) (remove d.id remaining) (installs ++ made)
        (n + length made) in
    if late i then record { installs = installs; created = n; requeued = some remaining } else rest

pub create_service_installs : (ℕ → Bool) → List ℕ → Tables → Outcome
create_service_installs late devices t =
    let rows = keep (λ d. member d.id devices) t.devices in
    let all = all_services (target_services t) rows in
    if is_nil all
    then record { installs = t.installs; created = 0; requeued = none }
    else create_each late (target_services t) all t.installs
        (keep (λ d. lacks_some t.installs all d.id) rows) 0 devices t.installs 0

-- The handler, where no request fails.
pub run_task : (ℕ → Bool) → List ℕ → Tables → Tables
run_task late devices t =
    let o = create_service_installs late devices t in
    let kept = record t { installs = o.installs } in
    elim o.requeued [ some ds ↦ record kept { tasks = t.tasks ++ ds ∷ [] } | none ↦ kept ]
