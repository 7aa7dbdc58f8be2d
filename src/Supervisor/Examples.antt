-- ===== src/Supervisor/Examples.antt =====
-- Runs of the choice and the check of supervisor releases, src/features/supervisor-app/hooks/supervisor-app.ts.
use open_balena_api.Base.{
  ℕ, ◌≡◌, refl, str_eq, Bool, true, false, ◌&&◌, Option, none, some, List, [], ◌∷◌, map, String, ok,
  err, bad_request,
}
use open_balena_api.Releases.Grouping.{group_onto, add_to_group}
use open_balena_api.Supervisor.{
  Release, Device, before, get_supervisor_release_resource, on_post,
  set_supervisor_release_resource, check_supervisor_release_upgrades, check_id,
}
use open_balena_api.Supervisor.Best.{IsBest, get_supervisor_release_resource-IsBest}
use open_balena_api.Supervisor.Laws.{by_itself, set_supervisor_release_resource-by_itself}

abbrev release : ℕ → String → Bool → Option ℕ → ℕ → Release
release i v f n a = record {
  id = i;
  raw_version = v;
  semver = v;
  is_successful = true;
  is_invalidated = false;
  is_final = f;
  revision = n;
  created_at = i;
  application_slug = "balena_os/aarch64-supervisor";
  is_public = true;
  is_host = false;
  cpu_architecture = a;
}

abbrev releases : List Release
releases =
    release 1 "1.0.0" true (some 0) 1
    ∷ release 2 "1.0.0" true (some 1) 1
    ∷ release 3 "1.0.0" false none 1
    ∷ release 4 "1.0.0" true (some 0) 2
    ∷ release 5 "2.0.0" true (some 0) 1
    ∷ []

abbrev device : ℕ → Option String → Option ℕ → ℕ → Device
device i v r a = record {
  id = i;
  supervisor_version = v;
  should_be_managed_by = r;
  cpu_architecture = a;
}

abbrev devices : List Device
devices =
    device 7 none none 1
    ∷ device 8 none none 2
    ∷ device 9 (some "2.0.0") (some 5) 1
    ∷ device 10 none none 3
    ∷ []

abbrev lt : String → String → Bool
lt a b = str_eq a "1.0.0" && str_eq b "2.0.0"

newest_revision :
    get_supervisor_release_resource releases "1.0.0" 1 ≡ some (release 2 "1.0.0" true (some 1) 1)
unfolding get_supervisor_release_resource before
newest_revision = refl

registered :
    on_post releases (device 11 (some "1.0.0") none 2) ≡ device 11 (some "1.0.0") (some 4) 2
unfolding on_post get_supervisor_release_resource before
registered = refl

first_version :
    set_supervisor_release_resource releases (7 ∷ 8 ∷ 9 ∷ []) "1.0.0" devices
    ≡ device 7 none (some 2) 1
      ∷ device 8 none (some 4) 2
      ∷ device 9 (some "2.0.0") (some 5) 1
      ∷ device 10 none none 3
      ∷ []
unfolding set_supervisor_release_resource get_supervisor_release_resource before group_onto
    add_to_group
first_version = refl

downgrade : check_supervisor_release_upgrades lt releases devices (9 ∷ []) 2 ≡ err bad_request
unfolding check_supervisor_release_upgrades
downgrade = refl

upgrade : check_supervisor_release_upgrades lt releases devices (7 ∷ 9 ∷ []) 5 ≡ ok tt
unfolding check_supervisor_release_upgrades
upgrade = refl

no_number : check_id lt releases devices (9 ∷ []) none ≡ err bad_request
no_number = refl

get_supervisor_release_resource-IsBest_example :
    IsBest "1.0.0" 1 releases (get_supervisor_release_resource releases "1.0.0" 1)
get_supervisor_release_resource-IsBest_example =
    get_supervisor_release_resource-IsBest releases "1.0.0" 1

set_supervisor_release_resource-by_itself_example :
    set_supervisor_release_resource releases (7 ∷ 8 ∷ 9 ∷ []) "1.0.0" devices
    ≡ map (by_itself releases "1.0.0" (7 ∷ 8 ∷ 9 ∷ [])) devices
set_supervisor_release_resource-by_itself_example =
    set_supervisor_release_resource-by_itself releases "1.0.0" (7 ∷ 8 ∷ 9 ∷ []) devices (
      ((λ e. refl), ((λ e. cc e), ((λ e. cc e), ((λ e. cc e), tt)))),
      (
        ((λ e. cc e), ((λ e. refl), ((λ e. cc e), ((λ e. cc e), tt)))),
        (
          ((λ e. cc e), ((λ e. cc e), ((λ e. refl), ((λ e. cc e), tt)))),
          (((λ e. cc e), ((λ e. cc e), ((λ e. cc e), ((λ e. refl), tt)))), tt),
        ),
      ),
    )
