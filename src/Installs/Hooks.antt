-- ===== src/Installs/Hooks.antt =====
-- src/features/ci-cd/hooks/service-installs.ts: the hooks on applications and devices.
mod Laws
mod Moves
mod Examples
use open_balena_api.Base.{
  ℕ, ◌==◌, Bool, true, false, not, ◌&&◌, ◌||◌, Option, none, some, List, [], ◌∷◌, ◌++◌, map, keep,
  is_some, if◌then◌else◌,
}
use open_balena_api.Releases.Grouping.{group_by_map}
use open_balena_api.Installs.{
  Device, Install, Tables, member, exists, is_number, services_of, lacks_some, create_all,
}

-- The devices of a call: by their ids, or by a filter.
pub data Selection : Type 0 where
  ids : List ℕ → Selection
  those : (Device → Bool) → Selection

abbrev pub selects : Selection → Device → Bool
selects (ids is) d = member d.id is
selects (those p) d = p d

abbrev pub is_nil : {A : Type 0} → List A → Bool
is_nil [] = true
is_nil _ = false

abbrev pub is_no_device : Selection → Bool
is_no_device (ids is) = is_nil is
is_no_device (those p) = false

abbrev pub selected_ids : Selection → List Device → List ℕ
selected_ids (ids is) ds = is
selected_ids (those p) ds = map (λ d. d.id) (keep p ds)

-- The installs at once. Where no service lacks, no device is selected by its filter.
pub create_sync : Selection → (ℕ → Bool) → Tables → Tables
create_sync sel is_release t =
    let ss = services_of is_release t.services in
    if is_nil ss then t else record t {
      installs =
          create_all t.installs (λ _. ss)
            (keep (λ d. selects sel d && lacks_some t.installs ss d.id) t.devices) t.installs;
    }

-- The values of a PATCH of devices; the pin may be missing, null or a release.
pub record Values : Type 0 where
  pub application : Option ℕ
  pub pinned : Option (Option ℕ)
  pub managed : Option ℕ
  pub operated : Option ℕ

abbrev or_else : {A : Type 0} → Option A → A → A
or_else none a = a
or_else (some b) a = b

abbrev pub or_same : Option ℕ → Option ℕ → Option ℕ
or_same none o = o
or_same (some r) o = some r

-- The PATCH itself, on an affected row.
abbrev pub patched : Values → Device → Device
patched v d = record d {
  application = or_else v.application d.application;
  pinned = or_else v.pinned d.pinned;
  managed = or_same v.managed d.managed;
  operated = or_same v.operated d.operated;
}

pub patch_devices : Values → List ℕ → Tables → Tables
patch_devices v affected t = record t {
  devices = map (λ d. if member d.id affected then patched v d else d) t.devices;
}

-- The installs of these devices for the applications that they are moved from.
pub is_stale : ℕ → List ℕ → Tables → Install → Bool
is_stale new affected t i =
    member i.0 affected
    && exists
        (λ s.
          s.id == i.1
          && not (s.application == new)
          && exists (λ d. member d.id affected && d.application == s.application) t.devices)
        t.services

pub delete_service_installs_for_current_app : ℕ → List ℕ → Tables → Tables
unfolding is_stale
delete_service_installs_for_current_app new affected t = record t {
  installs = keep (λ i. not (is_stale new affected t i)) t.installs;
}

-- With `_.chunk` and whether the tasks are enabled.
module _ (chunk : List ℕ → List (List ℕ)) (is_async : Bool) where
  -- `createServiceInstallsAsync`
  pub create_async : Selection → Tables → Tables
  create_async sel t = record t { tasks = t.tasks ++ chunk (selected_ids sel t.devices) }

  pub create_release_service_installs : Selection → (ℕ → Bool) → Tables → Tables
  create_release_service_installs sel is_release t =
      if is_no_device sel
      then t
      else if is_async
      then create_async sel t
      else create_sync sel is_release t

  pub create_app_service_installs : ℕ → List ℕ → Tables → Tables
  create_app_service_installs a is t =
      create_release_service_installs (ids is) (is_number (t.target a)) t

  -- The PATCH of applications: `should_be_running__release` of the values.
  pub on_patch_application : List ℕ → Option ℕ → Tables → Tables
  on_patch_application affected none t = t
  on_patch_application affected (some r) t =
      if is_nil affected
      then t
      else create_release_service_installs
          (those (λ d. member d.application affected && not (is_some d.pinned))) (λ n. r == n) t

  abbrev for_release : List ℕ → Option ℕ → Tables → Tables
  for_release is none t = t
  for_release is (some r) t = create_release_service_installs (ids is) (λ n. r == n) t

  abbrev created_for : Option ℕ → List ℕ → Tables → Tables
  created_for none is t = t
  created_for (some a) is t = create_app_service_installs a is t

  -- The POST of a device, which the table has under this id.
  pub on_post_device : Device → Option ℕ → Tables → Tables
  on_post_device d application t =
      let t1 = created_for application (d.id ∷ []) t in
      if is_some application && is_async
      then t1
      else (let t2 = for_release (d.id ∷ []) d.pinned t1 in
          if is_some d.managed || is_some d.operated
          then create_release_service_installs (ids (d.id ∷ []))
              (λ n. is_number d.managed n || is_number d.operated n) t2
          else t2)

  abbrev prerun : Option ℕ → List ℕ → Tables → Tables
  prerun none affected t = t
  prerun (some a) affected t =
      if is_nil affected then t else delete_service_installs_for_current_app a affected t

  -- The devices of each application, in turn.
  pub create_by_app : List (ℕ × List Device) → Tables → Tables
  create_by_app [] t = t
  create_by_app ((a, ds) ∷ gs) t =
      create_by_app gs (create_app_service_installs a (map (λ d. d.id) ds) t)

  abbrev by_pin : Option (Option ℕ) → List ℕ → Tables → Tables
  by_pin none affected t = t
  by_pin (some (some r)) affected t = create_release_service_installs (ids affected) (λ n. r == n) t
  by_pin (some none) affected t =
      create_by_app
        (group_by_map (λ (a b : ℕ). a == b) (λ d. d.application)
          (keep (λ d. member d.id affected) t.devices))
        t

  abbrev postrun : Values → List ℕ → Tables → Tables
  postrun v affected t = elim v.application [
    | some a ↦ create_app_service_installs a affected t
    | none ↦ by_pin v.pinned affected t
  ]

  -- The two hooks of PATCH around the PATCH itself.
  pub on_patch_device : Values → List ℕ → Tables → Tables
  unfolding patch_devices
  on_patch_device v affected t =
      let patched_tables = patch_devices v affected (prerun v.application affected t) in
      if is_nil affected
      then patched_tables
      else for_release affected v.operated
          (for_release affected v.managed (postrun v affected patched_tables))
