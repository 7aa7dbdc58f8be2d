-- ===== src/State/Patch/V2.antt =====
-- src/features/device-state/routes/state-patch-v2.ts: the report of one device. The query of a release
-- by its commit is a parameter, for the device. Ids are no negative numbers in the database, which
-- refuses them.
mod Laws
mod Examples
use open_balena_api.Base.{
  ℕ, ◌==◌, String, false, not, ◌&&◌, Option, none, some, List, [], ◌∷◌, ◌++◌, if◌then◌else◌, Result,
  ok, err, Error, Eff, ◌>>=◌, pure, bad_request, other,
}
use open_balena_api.Base.Parse.{Signed, parse_int}
use open_balena_api.State.Reports.{Progress}
use open_balena_api.State.Truncate.{Text}
use open_balena_api.State.Patch.{Value, Object, set, Settings, Bodies, bodies_of, fix_bodies}
use open_balena_api.State.Patch.Installs.{ImgInstall, Update, installs_of}
use open_balena_api.State.Patch.Transaction.{
  and_then, Store, stored_at, lift, patch_updates, World, respond,
}

abbrev pub v2_valid_patch_fields : List String
v2_valid_patch_fields =
    "status" ∷ "is_online" ∷ "os_version" ∷ "os_variant" ∷ "supervisor_version"
    ∷ "provisioning_progress" ∷ "provisioning_state" ∷ "ip_address" ∷ "mac_address" ∷ "api_port"
    ∷ "api_secret" ∷ "cpu_id" ∷ "is_undervolted" ∷ "device_name" ∷ "note" ∷ "download_progress" ∷ []

-- `is_on__commit`
pub data Commit : Type 0 where
  undefined null : Commit
  commit : String → Commit

pub data ReleaseId : Type 0 where
  number : ℕ → ReleaseId
  text : String → ReleaseId

pub record ServiceReport : Type 0 where
  pub release_id : ReleaseId
  pub status : Option String
  pub download_progress : Progress

-- The services of an application, by the ids of their images.
abbrev pub Services : Type 0
Services = List (String × ServiceReport)

-- `StatePatchV2Body`, of which `fields` has those that are passed on as they are.
pub record Local : Type 0 where
  pub fields : Object
  pub should_be_running_release : Option ℕ
  pub name : Option Text
  pub is_on_commit : Commit
  pub apps : Option (List (String × Option Services))

abbrev of_nat : ℕ → Value
of_nat n = Value.number (record { negative = false; magnitude = n })

abbrev pub set_if : {A : Type 0} → String → (A → Value) → Option A → Object → Object
set_if k f none o = o
set_if k f (some a) o = set k (f a) o

-- The pin and the name, which the report has under other names.
abbrev pub renamed : Local → Bodies → Bodies
renamed l b = record b {
  device_body =
      set_if "device_name" Value.text l.name
        (set_if "is_pinned_on__release" of_nat l.should_be_running_release b.device_body);
}

-- Only a release that is found is set as the running one; otherwise the commit is ignored.
abbrev pub set_running : (String → Option ℕ) → Commit → Object → Object
set_running resolve undefined o = o
set_running resolve null o = set "is_running__release" Value.null o
set_running resolve (commit c) o = set_if "is_running__release" of_nat (resolve c) o

-- The error of a request that the database refuses.
abbrev database_error : Error
database_error = other 2

-- A number is an id unless it is NaN.
abbrev pub id_of : Option Signed → Result ℕ
id_of none = err bad_request
id_of (some n) = if n.negative && not (n.magnitude == 0) then err database_error else ok n.magnitude

abbrev pub release_of : ReleaseId → Result ℕ
release_of (number n) = ok n
release_of (text t) = id_of (parse_int t)

unfoldable pub service_installs : Services → Result (List ImgInstall)
service_installs [] = ok []
service_installs ((image, s) ∷ ss) = and_then (id_of (parse_int image)) (λ i.
    and_then (release_of s.release_id) (λ r. and_then (service_installs ss) (λ is. ok (
      record { image = i; release = r; status = s.status; download_progress = s.download_progress }
      ∷ is))))

abbrev services_of : Option Services → Services
services_of none = []
services_of (some ss) = ss

unfoldable pub app_installs : List (String × Option Services) → Result (List ImgInstall)
app_installs [] = ok []
app_installs ((app, ss) ∷ rest) =
    and_then (service_installs (services_of ss))
      (λ is. and_then (app_installs rest) (λ js. ok (is ++ js)))

abbrev pub install_updates : ℕ → Option (List (String × Option Services)) → Result (List Update)
install_updates d none = ok []
install_updates d (some apps) = and_then (app_installs apps) (λ is. ok (installs_of d is ∷ []))

abbrev pub report_bodies : Settings → ℕ → String → Local → Eff Store Bodies
report_bodies s now uuid l store =
    let b = bodies_of s v2_valid_patch_fields (store uuid) now l.fields in
    (ok (fix_bodies s (renamed l b.0)), stored_at uuid b.1 store)

-- `updateFns`
unfoldable pub updates_of :
    Settings → ℕ → (String → Option ℕ) → ℕ → String → Local → Eff Store (List Update)
updates_of s now resolve d uuid l = do
  b ← report_bodies s now uuid l
  us ← lift (install_updates d l.apps)
  pure (patch_updates d (set_running resolve l.is_on_commit b.device_body) b.metrics_body ++ us)

-- `statePatchV2`, for the device that the middleware found; the report may be missing.
unfoldable pub state_patch_v2 :
    Settings → ℕ → (String → Option ℕ) → Option ℕ → String → Option Local → World → ℕ × World
state_patch_v2 s now resolve none uuid l w = (401, w)
state_patch_v2 s now resolve (some d) uuid none w = (200, w)
state_patch_v2 s now resolve (some d) uuid (some l) w =
    respond s now w.tables (updates_of s now resolve d uuid l w.store)
