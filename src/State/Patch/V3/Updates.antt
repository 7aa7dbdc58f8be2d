-- ===== src/State/Patch/V3/Updates.antt =====
-- The updates that the handler of src/features/device-state/routes/state-patch-v3.ts makes, and the
-- devices that its transaction leaves alone.
use open_balena_api.Base.{
  ℕ, ◌==◌, ◌≡◌, ◌≢◌, refl, ap, inl, inr, Bool, true, false, not, ◌||◌, Bool-cases, Option, none,
  some, List, [], ◌∷◌, member, length, keep, last, is_some, subst, All, All-append, All-mono,
  Result, ok, str_eq, String,
}
use open_balena_api.State.Patch.{Object, Settings, Bodies, is_empty, prepare, v3_valid_patch_fields}
use open_balena_api.State.Patch.Installs.{Update, patch_of, installs_of}
use open_balena_api.State.Patch.Installs.Keys.{IsValid, view, apply_all-IsValid, apply_all-others}
use open_balena_api.State.Patch.Installs.Keys as Keys
use open_balena_api.State.Patch.Transaction.{
  OnOk-any_of, patch_updates, OnOk, OnOk-and_then, OnOk-continue, OnOk-mono, Store, World,
  respond-others, respond-refused, SameRows, respond-IsValid,
}
use open_balena_api.State.Patch.V3.{
  Apps, DeviceReport, Body, AppCriteria, Release, Device, Directory, Fetched, fetch_apps,
  fetch_data, criteria_of,
}
use open_balena_api.State.Patch.V3.Handler.{
  or_throw, columns, app_installs, type_error, install_updates, device_updates, device_of,
  checked_updates, updates_of, all_updates, state_patch_v3,
}
use open_balena_api.State.Patch.V3.Access.{
  IsKnown, IsFound, IsKnownInstall, IsKnown-self, fetch_apps-IsFound, app_installs-Known,
}

module _ (all : List Release) (ids : List ℕ) where
  -- An update for one of the devices, with releases and images that are known.
  abbrev pub IsAllowed : Update → Type 0
  IsAllowed (patch_of d filter body) = member d ids ≡ true
  IsAllowed (installs_of d is) = (member d ids ≡ true) × All (IsKnownInstall all) is

  abbrev IsOurs : Device → Type 0
  IsOurs d = member d.id ids ≡ true

  abbrev IsFetched : Fetched → Type 0
  IsFetched f = All IsOurs f.devices × IsFound all f.found

  All-IsOurs : (ds : List Device) → All IsOurs (keep (λ d. member d.id ids) ds)
  All-IsOurs [] = tt
  All-IsOurs (d ∷ ds) = elim (Bool-cases (member d.id ids)) [
    | inl e ↦ rw e (e, All-IsOurs ds)
    | inr e ↦ rw e (All-IsOurs ds)
  ]

  fetch_data-IsFetched :
      (dir : Directory) (cs : AppCriteria)
      → All (λ r. r.is_success ≡ true → IsKnown all r) dir.releases
      → OnOk IsFetched (fetch_data dir ids cs)
  unfolding fetch_data
  fetch_data-IsFetched dir cs h =
      let ds = keep (λ d. member d.id ids) dir.devices in
      elim (Bool-cases (not (length ds == length ids))) [
        | inl e ↦ rw e tt
        | inr e ↦ rw e (
            OnOk-and_then (IsFound all) IsFetched (fetch_apps dir.releases cs) _
              (fetch_apps-IsFound all dir.releases cs h) (λ f p. (All-IsOurs dir.devices, p)))
      ]

  OnOk-last : (ds : List Device) → All IsOurs ds → OnOk IsOurs (or_throw type_error (last ds))
  OnOk-last [] h = tt
  OnOk-last (d ∷ []) h = h.0
  OnOk-last (d ∷ (e ∷ ds)) (p, h) = OnOk-last (e ∷ ds) h

  All-keep-IsOurs : (p : Device → Bool) (ds : List Device) → All IsOurs ds → All IsOurs (keep p ds)
  All-keep-IsOurs p [] h = tt
  All-keep-IsOurs p (d ∷ ds) (q, h) = elim (Bool-cases (p d)) [
    | inl e ↦ rw e (q, All-keep-IsOurs p ds h)
    | inr e ↦ rw e (All-keep-IsOurs p ds h)
  ]

  patch_updates-Allowed :
      (d : Device) (o metrics : Object) → IsOurs d → All IsAllowed (patch_updates d.id o metrics)
  patch_updates-Allowed d [] metrics h = tt
  patch_updates-Allowed d (e ∷ o) metrics h = (h, tt)

  install_updates-Allowed :
      (f : Fetched) (d : Device) (apps : Option Apps)
      → IsFetched f
      → IsOurs d
      → OnOk (All IsAllowed) (install_updates f d apps)
  install_updates-Allowed f d none h o = tt
  install_updates-Allowed f d (some apps) h o =
      OnOk-and_then (All (IsKnownInstall all)) (All IsAllowed) (app_installs f apps) _
        (app_installs-Known all f apps h.1) (λ is p. ((o, p), tt))

  device_updates-Allowed :
      (f : Fetched) (d : Device) (apps : Option Apps) (b : Bodies)
      → IsFetched f
      → IsOurs d
      → OnOk (All IsAllowed) (device_updates f d apps b)
  unfolding device_updates
  device_updates-Allowed f d apps b h o =
      OnOk-and_then (λ _. Unit {0}) (All IsAllowed) (columns f d apps b.device_body) _
        (OnOk-any_of (columns f d apps b.device_body))
        (λ c _.
          OnOk-and_then (All IsAllowed) (All IsAllowed) (install_updates f d apps) _
            (install_updates-Allowed f d apps h o)
            (λ us p.
              All-append IsAllowed (patch_updates d.id c b.metrics_body) us
                (patch_updates-Allowed d c b.metrics_body o) p))

  checked_updates-Allowed :
      (fetched : Result Fetched) (uuid : String) (r : DeviceReport) (b : Bodies)
      → OnOk IsFetched fetched
      → OnOk (All IsAllowed) (checked_updates fetched uuid r b)
  unfolding checked_updates
  checked_updates-Allowed fetched uuid r b h =
      OnOk-and_then IsFetched (All IsAllowed) fetched _ h (λ f p.
        OnOk-and_then IsOurs (All IsAllowed) (or_throw type_error (device_of uuid f.devices)) _
          (OnOk-last (keep (λ d. str_eq d.uuid uuid) f.devices)
            (All-keep-IsOurs (λ d. str_eq d.uuid uuid) f.devices p.0))
          (λ d o. device_updates-Allowed f d r.apps b p o))

  module _ (s : Settings) (now : ℕ) (fetched : Result Fetched) (h : OnOk IsFetched fetched) where
    updates_of-Allowed :
        (uuid : String) (r : DeviceReport) (store : Store)
        → OnOk (All IsAllowed) (updates_of s now fetched uuid r store).0
    unfolding updates_of
    updates_of-Allowed uuid r store =
        let b = (prepare s v3_valid_patch_fields (store uuid) now r.fields).0 in
        elim (Bool-cases (is_some r.apps || not (is_empty b.device_body))) [
          | inl e ↦ rw e (checked_updates-Allowed fetched uuid r b h)
          | inr e ↦ rw e tt
        ]

    all_updates-Allowed :
        (rs : Body) (store : Store) → OnOk (All IsAllowed) (all_updates s now fetched rs store).0
    unfolding all_updates
    all_updates-Allowed [] store = tt
    all_updates-Allowed ((uuid, r) ∷ rs) store =
        OnOk-continue (All IsAllowed) (All IsAllowed) (updates_of s now fetched uuid r store) _
          (updates_of-Allowed uuid r store)
          (λ us st p.
            OnOk-continue (All IsAllowed) (All IsAllowed) (all_updates s now fetched rs st) _
              (all_updates-Allowed rs st) (λ vs _ q. All-append IsAllowed us vs p q))

module _ (s : Settings) (now : ℕ) (dir : Directory) (ids : List ℕ) where
  abbrev updates : Body → Store → Result (List Update) × Store
  updates body store = all_updates s now (fetch_data dir ids (criteria_of body [])) body store

  updates-OnOk :
      (body : Body) (store : Store) → OnOk (All (IsAllowed dir.releases ids)) (updates body store).0
  updates-OnOk body store =
      let fetched = fetch_data dir ids (criteria_of body []) in
      all_updates-Allowed dir.releases ids s now fetched
        (fetch_data-IsFetched dir.releases ids dir (criteria_of body [])
          (IsKnown-self dir.releases))
        body store

  -- The updates that a report makes are for the devices that the middleware found, and the image
  -- installs among them have images and releases of the successful releases that the request may
  -- read.
  pub all_updates-IsAllowed :
      (body : Body) (store : Store) (us : List Update)
      → (all_updates s now (fetch_data dir ids (criteria_of body [])) body store).0 ≡ ok us
      → All (IsAllowed dir.releases ids) us
  all_updates-IsAllowed body store us h =
      subst (OnOk (All (IsAllowed dir.releases ids))) h (updates-OnOk body store)

  apart :
      (e : ℕ) (u : Update)
      → member e ids ≡ false
      → IsAllowed dir.releases ids u
      → e ≢ Keys.device_of u
  apart e (patch_of d filter body) h a = λ p. cc (h, a, ap (λ k. member k ids) p)
  apart e (installs_of d is) h a = λ p. cc (h, a.0, ap (λ k. member k ids) p)

  -- Whatever a request reports, the columns and the image installs of a device that is not among
  -- those that the middleware found for it stay as they are, in tables whose ids are in order.
  pub state_patch_v3-others :
      (e : ℕ) (body : Body) (w : World)
      → member e ids ≡ false
      → IsValid w.tables
      → view e (state_patch_v3 s now dir ids body w).1.tables ≡ view e w.tables
  unfolding state_patch_v3
  state_patch_v3-others e [] w h v = refl
  state_patch_v3-others e (d ∷ ds) w h v =
      respond-others s now e w.tables (updates (d ∷ ds) w.store) v (
        OnOk-mono (All (IsAllowed dir.releases ids)) (All (λ u. e ≢ Keys.device_of u))
          (updates (d ∷ ds) w.store).0 (λ us a. All-mono (λ u p. apart e u h p) us a)
          (updates-OnOk (d ∷ ds) w.store))

  -- A request that is answered with another status than 200 leaves all tables as they are, however
  -- many of its devices came before the one that it fails at.
  pub state_patch_v3-refused :
      (body : Body) (w : World)
      → (state_patch_v3 s now dir ids body w).0 ≢ 200
      → SameRows s now (state_patch_v3 s now dir ids body w).1.tables w.tables
  unfolding state_patch_v3
  state_patch_v3-refused [] w h = (refl, refl)
  state_patch_v3-refused (d ∷ ds) w h = respond-refused s now w.tables (updates (d ∷ ds) w.store) h

  -- Whatever a request reports, the ids of image installs stay unique, and below the next one.
  pub state_patch_v3-IsValid :
      (body : Body) (w : World)
      → IsValid w.tables
      → IsValid (state_patch_v3 s now dir ids body w).1.tables
  unfolding state_patch_v3
  state_patch_v3-IsValid [] w v = v
  state_patch_v3-IsValid (d ∷ ds) w v = respond-IsValid s now w.tables (updates (d ∷ ds) w.store) v
