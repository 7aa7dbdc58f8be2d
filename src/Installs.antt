-- ===== src/Installs.antt =====
-- src/features/ci-cd/hooks/service-installs.ts and src/features/ci-cd/tasks/service-installs.ts:
-- which services the devices are recorded to install. A request is a function from the tables to the
-- tables after it; the permissions of the requests are not modelled.
mod Rows
pub mod Hooks
pub mod Task
use open_balena_api.Base.{
  ℕ, ◌==◌, Bool, false, not, ◌&&◌, ◌||◌, Option, none, some, List, [], ◌∷◌, ◌++◌, map, keep,
}

-- A service, its application, and the releases that an image of it is part of.
pub record Service : Type 0 where
  pub id : ℕ
  pub application : ℕ
  pub releases : List ℕ

-- A device, with the release that it is pinned on, and those of its supervisor and host.
pub record Device : Type 0 where
  pub id : ℕ
  pub application : ℕ
  pub pinned : Option ℕ
  pub managed : Option ℕ
  pub operated : Option ℕ

-- A row of `service_install`: the device and the service.
abbrev pub Install : Type 0
Install = ℕ × ℕ

pub record Tables : Type 0 where
  pub services : List Service
  pub devices : List Device
  pub installs : List Install
  -- the release that an application should be running
  pub target : ℕ → Option ℕ
  -- the devices of each task `create_service_installs`
  pub tasks : List (List ℕ)

abbrev pub member : ℕ → List ℕ → Bool
member a [] = false
member a (x ∷ xs) = x == a || member a xs

abbrev pub exists : {A : Type 0} → (A → Bool) → List A → Bool
exists p [] = false
exists p (x ∷ xs) = p x || exists p xs

abbrev pub is_number : Option ℕ → ℕ → Bool
is_number none n = false
is_number (some m) n = m == n

-- The services with an image in a release of these.
pub services_of : (ℕ → Bool) → List Service → List ℕ
services_of is_release ss = map (λ s. s.id) (keep (λ s. exists is_release s.releases) ss)

-- `service_install` of a device, expanded to the installs of these services
pub existing : List Install → ℕ → List ℕ → List ℕ
existing installs d ss = map (λ i. i.1) (keep (λ i. i.0 == d && member i.1 ss) installs)

-- `_.difference(ss, installed)`
pub difference : List ℕ → List ℕ → List ℕ
difference ss installed = keep (λ s. not (member s installed)) ss

-- The filter for devices that lack one of the services.
pub lacks_some : List Install → List ℕ → ℕ → Bool
lacks_some installs ss d = exists (λ s. not (exists (λ i. i.0 == d && i.1 == s) installs)) ss

-- The installs that are created for one device, as the tables were before.
pub create_for : List Install → ℕ → List ℕ → List Install → List Install
unfolding existing difference
create_for before d ss installs =
    installs ++ map (λ s. (d, s)) (difference ss (existing before d ss))

-- The same for a list of devices, each with services of its own.
pub create_all : List Install → (Device → List ℕ) → List Device → List Install → List Install
create_all before targets [] installs = installs
create_all before targets (d ∷ ds) installs =
    create_all before targets ds (create_for before d.id (targets d) installs)
