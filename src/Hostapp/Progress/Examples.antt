-- ===== src/Hostapp/Progress/Examples.antt =====
-- Devices whose host release changes, src/features/hostapp/hooks/target-hostapp.ts.
use open_balena_api.Base.{
  ℕ, ◌≡◌, refl, ltb, str_eq, true, false, Option, none, some, List, [], ◌∷◌, All, String,
  if◌then◌else◌, ok, is_some, arith,
}
use open_balena_api.Hostapp.{
  OsVersion, Semver, Release, Device, get_base_version_from_release_semver_or_tag,
  get_os_release_resource,
}
use open_balena_api.Base.Regex.{test}
use open_balena_api.Releases.Grouping.{group_by_map, group_onto, add_to_group}
use open_balena_api.Hostapp.Upgrades.{check_hostapp_release_upgrades, check-accepts}
use open_balena_api.Hostapp.Progress.{info_of, progress_target_os_release_if_newer}
use open_balena_api.Hostapp.Progress.Laws.{IsDetermined, progress-by_itself}

abbrev version : String → ℕ → OsVersion
version t n = record {
  raw = t;
  major = n;
  minor = 0;
  patch = 0;
  prerelease = "";
  build = "";
  revision = none;
}

abbrev rank : String → ℕ
rank t = if str_eq t "2.0.0" then 2 else 1

abbrev semver : Semver
semver = record {
  parse = λ t. some (version t (rank t));
  gt = λ a b. ltb (rank b) (rank a);
  lt = λ a b. ltb (rank a) (rank b);
}

semver-IsDetermined : IsDetermined semver (λ t. t) []
semver-IsDetermined t u v w h k e = cc (h, k, e)

abbrev release : ℕ → String → Release
release i t = record {
  id = i;
  semver = t;
  semver_major = rank t;
  semver_minor = 0;
  semver_patch = 0;
  semver_prerelease = "";
  semver_build = "";
  revision = none;
  variant = "";
  is_successful = true;
  is_final = true;
  is_invalidated = false;
  created_at = i;
  is_host = true;
  device_type = 3;
  version_tag = none;
  variant_tag = none;
}

abbrev releases : List Release
releases = release 11 "1.0.0" ∷ release 12 "2.0.0" ∷ []

abbrev device : ℕ → String → Option ℕ → Device
device i t target = record {
  id = i;
  device_type = 3;
  os_version = some t;
  os_variant = some "prod";
  target = target;
}

abbrev devices : List Device
devices = device 1 "2.0.0" (some 11) ∷ device 2 "2.0.0" none ∷ device 3 "1.0.0" (some 12) ∷ []

progressed :
    progress_target_os_release_if_newer semver (λ t. t) releases (1 ∷ 2 ∷ 3 ∷ []) devices
    ≡ device 1 "2.0.0" (some 12) ∷ device 2 "2.0.0" (some 12) ∷ device 3 "1.0.0" (some 12) ∷ []
unfolding progress_target_os_release_if_newer group_by_map group_onto
    get_base_version_from_release_semver_or_tag test add_to_group get_os_release_resource
progressed = refl

progress-by_itself_example :
    progress_target_os_release_if_newer semver (λ t. t) releases (1 ∷ 2 ∷ 3 ∷ []) devices
    ≡ device 1 "2.0.0" (some 12) ∷ device 2 "2.0.0" (some 12) ∷ device 3 "1.0.0" (some 12) ∷ []
unfolding get_base_version_from_release_semver_or_tag test get_os_release_resource info_of
progress-by_itself_example =
    progress-by_itself semver (λ t. t) releases semver-IsDetermined devices (1 ∷ 2 ∷ 3 ∷ [])
      (
        (refl, ((λ e. refl), ((λ e. cc e), ((λ e. cc e), tt)))),
        (
          (refl, ((λ e. cc e), ((λ e. refl), ((λ e. cc e), tt)))),
          ((refl, ((λ e. cc e), ((λ e. cc e), ((λ e. refl), tt)))), tt),
        ),
      )

abbrev IsNewest : Device → Type 0
IsNewest d =
    (v : String)
    → d.os_version ≡ some v
    → is_some (semver.parse v) ≡ true
    → semver.lt "2.0.0" v ≡ false

reported : All IsNewest (device 1 "2.0.0" (some 11) ∷ device 3 "1.0.0" (some 12) ∷ [])
reported = ((λ v e h. ground arith), ((λ v e h. ground arith), tt))

accepted : check_hostapp_release_upgrades semver releases devices (1 ∷ 3 ∷ []) 12 false ≡ ok tt
unfolding get_base_version_from_release_semver_or_tag test
accepted =
    check-accepts semver releases devices (1 ∷ 3 ∷ []) 12 false (release 12 "2.0.0") "2.0.0" refl
      refl refl reported

abbrev parse_int : String → Option ℕ
parse_int t = if str_eq t "11" then some 11 else none
