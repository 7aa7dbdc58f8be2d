-- ===== src/State/Patch/V3/Handler.antt =====
-- The handler of src/features/device-state/routes/state-patch-v3.ts: the updates of each device of a
-- report, and the response. The store of the last reports of metrics is written at once, the
-- tables only if no device is refused.
use open_balena_api.Base.{
  ℕ, ltb, str_eq, String, Bool, true, false, not, ◌||◌, Option, none, some, List, [], ◌∷◌, ◌++◌,
  keep, last, is_some, if◌then◌else◌, Result, ok, err, Error, Eff, ◌>>=◌, pure, other,
}
use open_balena_api.State.Patch.{
  UpdateStatus, Value, Object, get, set, is_empty, precedence, Settings, Bodies, prepare,
  same_units, v3_valid_patch_fields,
}
use open_balena_api.State.Patch.Installs.{ImgInstall, Update, installs_of}
use open_balena_api.State.Patch.Transaction.{
  and_then, patch_updates, Store, stored_at, lift, World, respond,
}
use open_balena_api.State.Patch.V3.{
  ServiceReport, ReleaseReport, AppReport, Apps, DeviceReport, Body, entries, criteria_of, Image,
  Release, Device, Directory, location_of, Fetched, fetch_data,
}

-- An `InternalRequestError`, and the error of a property of undefined: both end in status 500.
abbrev pub internal_request_error : Error
internal_request_error = other 0

abbrev pub type_error : Error
type_error = other 1

module _ {A : Type 0} where
  -- `o[k]`
  unfoldable pub at_key : String → List (String × A) → Option A
  at_key k [] = none
  at_key k ((j, a) ∷ o) = if str_eq j k then some a else at_key k o

  -- `Array.prototype.find`
  unfoldable pub find : (A → Bool) → List A → Option A
  find p [] = none
  find p (x ∷ xs) = if p x then some x else find p xs

  abbrev pub or_throw : Error → Option A → Result A
  or_throw e none = err e
  or_throw e (some a) = ok a

-- Whether a release is the one that an application is said to run.
abbrev pub runs : Option String → Release → Bool
runs none r = false
runs (some uuid) r = str_eq r.commit uuid

-- The property of the application is read only where there is a release to compare with.
abbrev pub running_of : List Release → Option AppReport → Result (Option Release)
running_of [] a = ok none
running_of (r ∷ rs) none = err type_error
running_of (r ∷ rs) (some a) = ok (find (runs a.release_uuid) (r ∷ rs))

abbrev pub set_running : Option Release → Object → Object
set_running none o = o
set_running (some r) o =
    set "is_running__release" (Value.number (record { negative = false; magnitude = r.id })) o

-- Whether an update status takes the place of the one that there is.
abbrev pub replaces : UpdateStatus → Option Value → Bool
replaces u none = true
replaces u (some Value.null) = true
replaces u (some (Value.update_status v)) = ltb (precedence u) (precedence v)
replaces u (some v) = false

abbrev pub add_status : Option UpdateStatus → Object → Object
add_status none o = o
add_status (some u) o =
    if replaces u (get "update_status" o) then set "update_status" (Value.update_status u) o else o

unfoldable pub add_statuses : List (String × ReleaseReport) → Object → Object
add_statuses [] o = o
add_statuses ((uuid, r) ∷ rs) o = add_statuses rs (add_status r.update_status o)

abbrev pub releases_of : Option AppReport → List (String × ReleaseReport)
releases_of none = []
releases_of (some a) = entries a.releases

abbrev pub maybe_running : Option (List Release) → Option AppReport → Result (Option Release)
maybe_running none a = ok none
maybe_running (some rs) a = running_of rs a

-- The columns that the application of the device adds.
unfoldable pub columns : Fetched → Device → Option Apps → Object → Result Object
columns f d none o = ok o
columns f d (some apps) o =
    let app = at_key d.application apps in
    and_then (maybe_running (at_key d.application f.found.releases) app)
      (λ r. ok (add_statuses (releases_of app) (set_running r o)))

abbrev pub install_of : Release → ServiceReport → Image → ImgInstall
install_of r s i = record {
  image = i.id;
  release = r.id;
  status = s.status;
  download_progress = s.download_progress;
}

abbrev pub is_located : ServiceReport → Image → Bool
is_located s i = same_units i.location (location_of s.image)

unfoldable pub service_installs :
    List Image → Release → List (String × ServiceReport) → Result (List ImgInstall)
unfolding find
service_installs images r [] = ok []
service_installs images r ((name, s) ∷ ss) =
    and_then (or_throw internal_request_error (find (is_located s) images))
      (λ i. and_then (service_installs images r ss) (λ is. ok (install_of r s i ∷ is)))

abbrev pub is_commit : String → Release → Bool
is_commit uuid r = str_eq r.commit uuid

unfoldable pub release_installs :
    Fetched → String → List (String × ReleaseReport) → Result (List ImgInstall)
release_installs f app [] = ok []
release_installs f app ((uuid, r) ∷ rs) =
    and_then (or_throw type_error (at_key app f.found.releases)) (λ known.
      and_then (or_throw internal_request_error (find (is_commit uuid) known)) (λ release.
        and_then (service_installs f.found.images release (entries r.services))
          (λ is. and_then (release_installs f app rs) (λ js. ok (is ++ js)))))

unfoldable pub app_installs : Fetched → Apps → Result (List ImgInstall)
app_installs f [] = ok []
app_installs f ((app, a) ∷ rest) =
    and_then (release_installs f app (entries a.releases))
      (λ is. and_then (app_installs f rest) (λ js. ok (is ++ js)))

abbrev pub install_updates : Fetched → Device → Option Apps → Result (List Update)
install_updates f d none = ok []
install_updates f d (some apps) =
    and_then (app_installs f apps) (λ is. ok (installs_of d.id is ∷ []))

-- The functions that one device adds to `updateFns`.
unfoldable pub device_updates : Fetched → Device → Option Apps → Bodies → Result (List Update)
device_updates f d apps b = and_then (columns f d apps b.device_body) (λ o.
    and_then (install_updates f d apps) (λ us. ok (patch_updates d.id o b.metrics_body ++ us)))

-- `devicesByUuid[uuid]`
abbrev pub device_of : String → List Device → Option Device
device_of uuid ds = last (keep (λ d. str_eq d.uuid uuid) ds)

unfoldable pub checked_updates :
    Result Fetched → String → DeviceReport → Bodies → Result (List Update)
checked_updates fetched uuid r b = and_then fetched (λ f.
    and_then (or_throw type_error (device_of uuid f.devices)) (λ d. device_updates f d r.apps b))

abbrev pub report_bodies : Settings → ℕ → String → Object → Eff Store Bodies
report_bodies s now uuid fields store =
    let b = prepare s v3_valid_patch_fields (store uuid) now fields in
    (ok b.0, stored_at uuid b.1 store)

-- One round of the loop over the devices of a report.
unfoldable pub updates_of :
    Settings → ℕ → Result Fetched → String → DeviceReport → Eff Store (List Update)
updates_of s now fetched uuid r = do
  b ← report_bodies s now uuid r.fields
  if is_some r.apps || not (is_empty b.device_body)
      then lift (checked_updates fetched uuid r b)
      else pure []

unfoldable pub all_updates : Settings → ℕ → Result Fetched → Body → Eff Store (List Update)
all_updates s now fetched [] = pure []
all_updates s now fetched ((uuid, r) ∷ rs) = do
  us ← updates_of s now fetched uuid r
  vs ← all_updates s now fetched rs
  pure (us ++ vs)

-- `statePatchV3`, for the ids of the devices that the middleware found.
unfoldable pub state_patch_v3 : Settings → ℕ → Directory → List ℕ → Body → World → ℕ × World
state_patch_v3 s now dir ids [] w = (400, w)
state_patch_v3 s now dir ids (d ∷ ds) w =
    respond s now w.tables
      (all_updates s now (fetch_data dir ids (criteria_of (d ∷ ds) [])) (d ∷ ds) w.store)
