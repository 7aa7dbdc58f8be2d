-- ===== src/State/Patch/Examples.antt =====
-- A fleet of two devices and its reports, src/features/device-state/routes/state-patch-v3.ts.
use open_balena_api.Base.{
  ◌≡◌, ◌≢◌, refl, ap, true, false, none, some, List, [], ◌∷◌, All, ok, err, unauthorized, arith,
  member,
}
use open_balena_api.State.Reports.{
  null, same_progress, percent, upsert_image_install, should_update_image_install,
}
use open_balena_api.State.Truncate.{split, split_go, reverse_onto}
use open_balena_api.State.Patch.{
  Value, Object, Settings, downloading, get, set, prepare, truncate_constrained_device_fields,
}
use open_balena_api.State.Patch.Installs.{
  ImgInstall, Install, Tables, Update, patch_of, installs_of, existing, save_installs, images_of,
  upsert_all, upsert, delete_old_image_installs,
}
use open_balena_api.State.Patch.Installs.Rows.{has_row}
use open_balena_api.State.Patch.Installs.Laws.{IsDeleted, save_installs-served}
use open_balena_api.State.Patch.Installs.Keys.{IsValid, view}
use open_balena_api.State.Patch.Installs.Stale.{again-AllDeleted}
use open_balena_api.State.Patch.Transaction.{World}
use open_balena_api.State.Patch.V3.{
  ServiceReport, ReleaseReport, AppReport, DeviceReport, Body, Criteria, Image, Release, Device,
  Directory, Found, criteria_of, fetch_data, fetch_apps, fetch_app,
}
use open_balena_api.State.Patch.V3.Handler.{
  all_updates, updates_of, checked_updates, device_updates, columns, app_installs, add_statuses,
  at_key, find, release_installs, service_installs, is_commit, releases_of, state_patch_v3,
}
use open_balena_api.State.Patch.V3.Updates.{IsAllowed, all_updates-IsAllowed, state_patch_v3-others}
use open_balena_api.State.Patch.V3.Status.{IsLowest, columns-IsLowest}
use open_balena_api.State.Patch.V3.Releases.{fetch_app-finds, fetch_app-repeated}

abbrev settings : Settings
settings = record {
  metrics_interval = 10;
  install_interval = 10;
  refusal = 400;
  metrics_max = 100;
  to_lower_case = λ t. t;
}

abbrev running : ImgInstall
running = record { image = 5; release = 10; status = some "Running"; download_progress = null }

abbrev row : Install
row = record {
  id = 7;
  device = 1;
  installs_image = 5;
  release = 9;
  status = none;
  download_progress = none;
}

abbrev tables : Tables
tables = record {
  devices = λ d. [];
  installs = row ∷ [];
  next_id = 8;
  last_reports = λ id. none;
  refused = false;
}

tables-IsValid : IsValid tables
tables-IsValid = ((tt, tt), (omega arith, tt))

again-AllDeleted_example :
    All
      (λ r. r.device ≡ 1 → IsDeleted r)
      (save_installs settings 30 1 (running ∷ []) (
        save_installs settings 20 1 []
          (save_installs settings 10 1 (running ∷ []) tables))).installs
unfolding existing
again-AllDeleted_example =
    again-AllDeleted settings 1 7 running 10 20 30 tables refl refl (λ e. cc e)
      (λ e. cc (ap (λ p. same_progress p (percent 100)) e))

save_installs-served_example :
    All
      (λ i. has_row 1 i.image (save_installs settings 10 1 (running ∷ []) tables).installs ≡ true)
      (running ∷ [])
    × All
        (λ r.
          r.device ≡ 1 → member r.installs_image (images_of (running ∷ [])) ≡ false → IsDeleted r)
        (save_installs settings 10 1 (running ∷ []) tables).installs
unfolding save_installs upsert_all upsert delete_old_image_installs existing upsert_image_install
    should_update_image_install
save_installs-served_example = save_installs-served settings 10 1 (running ∷ []) tables refl

abbrev image : Image
image = record { id = 5; location = b'i' ∷ []; content_hash = [] }

abbrev release : Release
release = record {
  id = 10;
  commit = "c1";
  application = "app";
  is_success = true;
  images = image ∷ [];
}

abbrev device : Device
device = record { id = 1; uuid = "u1"; application = "app" }

abbrev directory : Directory
directory = record { devices = device ∷ []; releases = release ∷ [] }

abbrev service : ServiceReport
service = record { image = b'i' ∷ []; status = some "Running"; download_progress = null }

abbrev release_report : ReleaseReport
release_report = record {
  update_status = some downloading;
  services = some (("main", service) ∷ []);
}

abbrev app_report : AppReport
app_report = record { release_uuid = some "c1"; releases = some (("c1", release_report) ∷ []) }

abbrev device_report : DeviceReport
device_report = record { fields = []; apps = some (("app", app_report) ∷ []) }

abbrev body : Body
body = ("u1", device_report) ∷ []

abbrev world : World
world = record { store = λ u. none; tables = tables }

state_patch_v3-others_example :
    view 2 (state_patch_v3 settings 10 directory (1 ∷ []) body world).1.tables ≡ view 2 tables
state_patch_v3-others_example =
    state_patch_v3-others settings 10 directory (1 ∷ []) 2 body world refl tables-IsValid

abbrev columns_now : Object
columns_now =
    ("update_status", Value.update_status downloading)
    ∷ ("is_running__release", Value.number (record { negative = false; magnitude = 10 }))
    ∷ []

abbrev updates_now : List Update
updates_now = patch_of 1 columns_now columns_now ∷ installs_of 1 (running ∷ []) ∷ []

updates-now :
    (all_updates settings 10
      (fetch_data directory (1 ∷ []) (criteria_of body []))
      body
      world.store).0
    ≡ ok updates_now
unfolding all_updates updates_of prepare checked_updates device_updates columns app_installs
    add_statuses at_key find release_installs service_installs get set fetch_data fetch_apps
    fetch_app criteria_of split split_go reverse_onto truncate_constrained_device_fields
updates-now = refl

all_updates-IsAllowed_example : All (IsAllowed (release ∷ []) (1 ∷ [])) updates_now
all_updates-IsAllowed_example =
    all_updates-IsAllowed settings 10 directory (1 ∷ []) body world.store updates_now updates-now

abbrev found : Found
found = record { images = image ∷ []; releases = ("app", release ∷ []) ∷ [] }

abbrev criteria : Criteria
criteria = record { release_uuids = "c1" ∷ []; image_locations = (b'i' ∷ []) ∷ [] }

fetch-found : fetch_app (release ∷ []) "app" criteria ≡ ok found
unfolding fetch_app split split_go reverse_onto
fetch-found = refl

fetch_app-finds_example :
    (known : List Release) × (found.releases ≡ ("app", known) ∷ [])
    × (find (is_commit "c1") known ≢ none)
fetch_app-finds_example =
    fetch_app-finds (release ∷ []) "app" criteria found "c1" (refl, tt) fetch-found refl

fetch_app-repeated_example :
    fetch_app
      (release ∷ [])
      "app"
      (record { release_uuids = "c1" ∷ []; image_locations = (b'i' ∷ []) ∷ ((b'i' ∷ []) ∷ []) })
    ≡ err unauthorized
fetch_app-repeated_example =
    fetch_app-repeated (release ∷ []) "app" ("c1" ∷ []) ((b'i' ∷ []) ∷ [])
      ((b'i' ∷ []) ∷ ((b'i' ∷ []) ∷ [])) found refl refl refl (λ e. omega (arith, e))
      (λ i. ground arith) fetch-found

columns-IsLowest_example :
    IsLowest (get "update_status" columns_now) (releases_of (some app_report))
unfolding columns add_statuses at_key find get set
columns-IsLowest_example =
    columns-IsLowest (record { devices = device ∷ []; found = found }) device
      (("app", app_report) ∷ []) [] columns_now refl refl
