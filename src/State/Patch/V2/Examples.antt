-- ===== src/State/Patch/V2/Examples.antt =====
-- A report of one device, src/features/device-state/routes/state-patch-v2.ts.
use open_balena_api.Base.{◌≡◌, refl, false, none, some, List, [], ◌∷◌, ok}
use open_balena_api.Base.Parse.{parse_int}
use open_balena_api.State.Reports.{null}
use open_balena_api.State.Patch.{Settings}
use open_balena_api.State.Patch.Installs.{ImgInstall, Tables}
use open_balena_api.State.Patch.Transaction.{World}
use open_balena_api.State.Patch.V2.{
  Local, Services, undefined, text, service_installs, app_installs,
}

abbrev settings : Settings
settings = record {
  metrics_interval = 10;
  install_interval = 10;
  refusal = 400;
  metrics_max = 100;
  to_lower_case = λ t. t;
}

abbrev no_tables : Tables
no_tables = record {
  devices = λ d. [];
  installs = [];
  next_id = 1;
  last_reports = λ id. none;
  refused = false;
}

abbrev start : World
start = record { store = λ u. none; tables = no_tables }

abbrev services : Services
services =
    ("5", record { release_id = text "10"; status = some "Running"; download_progress = null }) ∷ []

abbrev local : Local
local = record {
  fields = [];
  should_be_running_release = none;
  name = none;
  is_on_commit = undefined;
  apps = none;
}

abbrev installs : List ImgInstall
installs =
    record { image = 5; release = 10; status = some "Running"; download_progress = null } ∷ []

services-installs : app_installs (("1", some services) ∷ []) ≡ ok installs
unfolding app_installs service_installs parse_int
services-installs = refl
