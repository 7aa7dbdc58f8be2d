-- ===== src/State/Target/Examples.antt =====
-- A release that is built for a device, src/features/device-state/routes/state-get-v3.ts.
use open_balena_api.Base.{
  ℕ, ◌≡◌, refl, String, false, Option, none, some, List, [], ◌∷◌, ok, err, other,
}
use open_balena_api.State.Target.{
  Composition, text, ServiceRow, ReleaseImage, Release, Application, Device, TargetRelease,
}
use open_balena_api.State.Target.Build.{
  service_of, build_services, no_composition, build_app_from_release,
}

abbrev service : ServiceRow
service = record { id = 4; service_name = "main"; variables = ("A", "service") ∷ []; labels = [] }

abbrev image : ℕ → List String → ReleaseImage String
image i profiles = record {
  image = record {
    id = i;
    location = "Reg/v2";
    content_hash = some "sha";
    contract = none;
    service = service;
  };
  labels = ("l", "image") ∷ [];
  variables = ("A", "image") ∷ ("B", "image") ∷ [];
  profiles = profiles;
}

abbrev application : Application
application = record {
  id = 2;
  uuid = "app";
  app_name = "fleet";
  is_host = false;
  is_of_class = "fleet";
  variables = ("B", "fleet") ∷ [];
  services = none;
  updater = none;
}

abbrev device : Device
device = record {
  variables = [];
  service_variables = (9, ("A", "other")) ∷ (4, ("A", "device")) ∷ [];
}

abbrev release : Release String
release = record {
  id = 30;
  commit = "abc";
  composition = text "{";
  images = image 7 [] ∷ image 8 ("debug" ∷ []) ∷ [];
}

abbrev same : String → String
same t = t

abbrev unread : String → Option (Option (Composition String))
unread t = none

abbrev target : TargetRelease String
target = record {
  id = 30;
  services =
      (
        "main",
        service_of same unread same (some device) application (no_composition same unread same) []
            [] (image 7 []),
      )
      ∷ [];
  networks = none;
  volumes = none;
}

-- The second image is for a profile that is not active.
built :
    build_app_from_release same unread same (some device) application release [] [] (λ p. false)
    ≡ ok ("abc", target)
unfolding build_app_from_release build_services
built = refl

-- The text of null.
abbrev read_null : String → Option (Option (Composition String))
read_null t = some none

refused :
    build_app_from_release same read_null same (some device) application release [] [] (λ p. false)
    ≡ err (other 1)
unfolding build_app_from_release build_services
refused = refl
