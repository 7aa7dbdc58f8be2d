-- ===== src/State/Target/Build.antt =====
-- `buildAppFromRelease` and `getAppState` of src/features/device-state/routes/state-get-v3.ts: the services of
-- a release, and the apps of a device.
use Prim.Native.String.{◌++◌ as text_append}
use open_balena_api.Base.{
  ℕ, ◌==◌, str_eq, String, Bool, false, not, ◌&&◌, ◌||◌, Option, none, some, List, [], ◌∷◌,
  if◌then◌else◌, Result, ok, err, other,
}
use open_balena_api.State.Config.{Vars}
use open_balena_api.State.Target.{
  Composition, RawComposition, ReleaseImage, Release, Application, Device, Service, TargetRelease,
  put, environment_of, labels_of, is_selected, is_foreign, object, text,
}

-- With `toLowerCase`, `JSON.parse`, which throws or gives null or else an object, and the removal of `build` from the composition of a service.
module _ {J : Type 0} (to_lower_case : String → String)
    (parse_json : String → Option (Option (Composition J))) (without_build : J → J) where
  abbrev pub no_composition : Composition J
  no_composition = record { service = λ n. none; networks = none; volumes = none }

  -- After an exception the composition is `{}`.
  abbrev or_nothing : Option (Option (Composition J)) → Option (Composition J)
  or_nothing none = some no_composition
  or_nothing (some o) = o

  -- `none` is null, which the text "null" gives.
  abbrev pub composition_of : RawComposition J → Option (Composition J)
  composition_of (object c) = some c
  composition_of (text t) = or_nothing (parse_json t)

  -- `composition?.services`
  abbrev pub or_empty : Option (Composition J) → Composition J
  or_empty none = no_composition
  or_empty (some c) = c

  -- `location@hash`
  abbrev pub registry_url : String → Option String → String
  registry_url location none = location
  registry_url location (some hash) = text_append location (text_append "@" hash)

  abbrev pub updater_url : Application → Option String
  updater_url a = elim a.updater [ some u ↦ some (registry_url u.0 u.1) | none ↦ none ]

  abbrev pub built : Option J → Option J
  built none = none
  built (some c) = some (without_build c)

  unfoldable pub service_of :
      Option Device → Application → Composition J → Vars → Vars → ReleaseImage J → Service J
  unfolding environment_of labels_of
  service_of d a c config defaults ipr = record {
    id = ipr.image.service.id;
    image_id = ipr.image.id;
    image = to_lower_case (registry_url ipr.image.location ipr.image.content_hash);
    environment = environment_of d a ipr;
    labels = labels_of defaults config (updater_url a) ipr;
    contract = ipr.image.contract;
    composition = built (c.service ipr.image.service.service_name);
  }

  -- The error of an image of another application's service.
  unfoldable pub build_services :
      Option Device
      → Application
      → Composition J
      → Vars
      → Vars
      → (String → Bool)
      → List (ReleaseImage J)
      → List (String × Service J)
      → Result (List (String × Service J))
  unfolding service_of
  build_services d a c config defaults active [] services = ok services
  build_services d a c config defaults active (ipr ∷ rest) services =
      let skipped = build_services d a c config defaults active rest services in
      let added =
        build_services d a c config defaults active rest
          (put ipr.image.service.service_name (service_of d a c config defaults ipr) services) in
      if not (is_selected active ipr)
      then skipped
      else if is_foreign a ipr.image.service
      then err (other 3)
      else added

  abbrev target_release :
      Release J
      → Option (Composition J)
      → Result (List (String × Service J))
      → Result (String × TargetRelease J)
  target_release r o (err e) = err e
  -- `composition.networks` of null
  target_release r none (ok services) = err (other 1)
  target_release r (some c) (ok services) = ok (
    r.commit,
    record { id = r.id; services = services; networks = c.networks; volumes = c.volumes },
  )

  unfoldable pub build_app_from_release :
      Option Device
      → Application
      → Release J
      → Vars
      → Vars
      → (String → Bool)
      → Result (String × TargetRelease J)
  unfolding build_services
  build_app_from_release d a r config defaults active =
      let c = composition_of r.composition in
      target_release r c (build_services d a (or_empty c) config defaults active r.images [])

  -- The releases of a device with their applications, and the profiles that its fleet activates, each
  -- with the application that it is of.
  pub record Targets : Type 0 where
    pub device : Device
    pub application : Application
    pub running : Option (Release J)
    pub managed : Option (Release J × Application)
    pub operated : Option (Release J × Application)
    pub profiles : List (String × ℕ)

  pub record App : Type 0 where
    pub id : ℕ
    pub name : String
    pub is_host : Bool
    pub class : String
    pub releases : Option (String × TargetRelease J)

  abbrev pub app_with : Application → Option (String × TargetRelease J) → App
  app_with a releases = record {
    id = a.id;
    name = a.app_name;
    is_host = a.is_host;
    class = a.is_of_class;
    releases = releases;
  }

  abbrev put_app :
      Application
      → Result (String × TargetRelease J)
      → List (String × App)
      → Result (List (String × App))
  put_app a (err e) apps = err e
  put_app a (ok r) apps = ok (put a.uuid (app_with a (some r)) apps)

  abbrev pub no_profile_active : String → Bool
  no_profile_active p = false

  abbrev pub is_activated : List (String × ℕ) → ℕ → String → Bool
  is_activated [] i p = false
  is_activated ((q, j) ∷ ps) i p = (j == i && str_eq q p) || is_activated ps i p

  -- `getAppState` of the three fields, each onto the apps so far.
  pub managed_app : Targets → List (String × App) → Result (List (String × App))
  unfolding build_app_from_release
  managed_app t apps = elim t.managed [
    | none ↦ ok apps
    | some m ↦
        put_app m.1 (build_app_from_release (some t.device) m.1 m.0 [] [] no_profile_active) apps
  ]

  pub operated_app : Targets → List (String × App) → Result (List (String × App))
  unfolding build_app_from_release
  operated_app t apps = elim t.operated [
    | none ↦ ok apps
    | some m ↦
        put_app m.1
          (build_app_from_release (some t.device) m.1 m.0 []
            (("io.balena.image.store", "root") ∷ []) (is_activated t.profiles m.1.id))
          apps
  ]

  pub running_app : Vars → Targets → List (String × App) → Result (List (String × App))
  unfolding build_app_from_release
  running_app config t apps = elim t.running [
    | none ↦ ok (put t.application.uuid (app_with t.application none) apps)
    | some r ↦
        put_app t.application
          (build_app_from_release (some t.device) t.application r config [] no_profile_active) apps
  ]

  abbrev pub then_apps :
      Result (List (String × App))
      → (List (String × App) → Result (List (String × App)))
      → Result (List (String × App))
  then_apps (err e) f = err e
  then_apps (ok apps) f = f apps

  -- The apps of `getStateV3`: a later one replaces one of the same uuid.
  pub apps_of : Vars → Targets → Result (List (String × App))
  unfolding managed_app operated_app running_app
  apps_of config t =
      then_apps (then_apps (managed_app t []) (operated_app t)) (running_app config t)

  -- `getFleetAppsForState`: the app of a fleet, without a device.
  pub fleet_apps : Vars → Application → Option (Release J) → Result (List (String × App))
  unfolding build_app_from_release
  fleet_apps config a none = ok ((a.uuid, app_with a none) ∷ [])
  fleet_apps config a (some r) =
      put_app a (build_app_from_release none a r config [] no_profile_active) []
