-- ===== src/State/Target.antt =====
-- src/features/device-state/routes/state-get-v3.ts: the rows of a release and its device, and the
-- environment and labels of a service. `J` stands for JSON.
mod Build
mod Laws
mod Examples
use open_balena_api.Base.{
  ℕ, ◌==◌, str_eq, String, Bool, true, false, not, ◌||◌, Option, none, some, List, [], ◌∷◌, ◌++◌,
  map, keep, is_some, if◌then◌else◌,
}
use open_balena_api.State.Config.{Vars, lookup, assign, var_list_insert}

-- The parts of a composition that are looked at.
pub record Composition (J : Type 0) : Type 0 where
  pub service : String → Option J
  pub networks : Option J
  pub volumes : Option J

-- How a release has it: as an object, or as a text.
pub data RawComposition (J : Type 0) : Type 0 where
  object : Composition J → RawComposition J
  text : String → RawComposition J

pub record ServiceRow : Type 0 where
  pub id : ℕ
  pub service_name : String
  pub variables : List (String × String)
  pub labels : List (String × String)

pub record Image (J : Type 0) : Type 0 where
  pub id : ℕ
  pub location : String
  pub content_hash : Option String
  pub contract : Option J
  pub service : ServiceRow

pub record ReleaseImage (J : Type 0) : Type 0 where
  pub image : Image J
  pub labels : List (String × String)
  pub variables : List (String × String)
  pub profiles : List String

pub record Release (J : Type 0) : Type 0 where
  pub id : ℕ
  pub commit : String
  pub composition : RawComposition J
  pub images : List (ReleaseImage J)

pub record Application : Type 0 where
  pub id : ℕ
  pub uuid : String
  pub app_name : String
  pub is_host : Bool
  pub is_of_class : String
  pub variables : List (String × String)
  -- the ids of its services, where they were asked for
  pub services : Option (List ℕ)
  -- the location and hash of the image of its updater
  pub updater : Option (String × Option String)

pub record Device : Type 0 where
  pub variables : List (String × String)
  pub service_variables : List (ℕ × (String × String))

pub record Service (J : Type 0) : Type 0 where
  pub id : ℕ
  pub image_id : ℕ
  pub image : String
  pub environment : Vars
  pub labels : Vars
  pub contract : Option J
  pub composition : Option J

pub record TargetRelease (J : Type 0) : Type 0 where
  pub id : ℕ
  pub services : List (String × Service J)
  pub networks : Option J
  pub volumes : Option J

-- `obj[k]` and `obj[k] = v`
abbrev pub get : {A : Type 0} → String → List (String × A) → Option A
get k [] = none
get k ((j, v) ∷ r) = if str_eq j k then some v else get k r

abbrev pub put : {A : Type 0} → String → A → List (String × A) → List (String × A)
put k v [] = (k, v) ∷ []
put k v ((j, w) ∷ r) = if str_eq j k then (j, v) ∷ r else (j, w) ∷ put k v r

abbrev pub insert_all : List (String × String) → Vars → Vars
insert_all l m = var_list_insert (λ _. true) l m

abbrev pub of_service : ℕ → List (ℕ × (String × String)) → List (String × String)
of_service i l = map (λ e. e.1) (keep (λ e. e.0 == i) l)

abbrev device_environment : Option Device → ℕ → Vars → Vars
device_environment none i env = env
device_environment (some d) i env =
    insert_all (of_service i d.service_variables) (insert_all d.variables env)

-- The order in which the variables are set: those set later win.
pub environment_of : {J : Type 0} → Option Device → Application → ReleaseImage J → Vars
environment_of d a ipr =
    device_environment d ipr.image.service.id (
      insert_all ipr.image.service.variables (insert_all a.variables (insert_all ipr.variables [])))

abbrev pub has_key : String → Vars → Bool
has_key k m = is_some (lookup k m)

-- A configuration variable as a label, where there is none yet.
abbrev pub label_from_config : Vars → String → String → Vars → Vars
label_from_config config label name labels =
    if has_key label labels
    then labels
    else elim (lookup name config) [ some v ↦ assign label v labels | none ↦ labels ]

-- `ConfigurationVarsToLabels`
abbrev pub labels_from_config : Vars → Vars → Vars
labels_from_config config labels =
    label_from_config config "io.resin.update.handover-timeout" "RESIN_SUPERVISOR_HANDOVER_TIMEOUT"
      (label_from_config config "io.resin.update.strategy" "RESIN_SUPERVISOR_UPDATE_STRATEGY"
        labels)

abbrev pub updater_label : String
updater_label = "io.balena.private.updater"

abbrev pub with_updater : Option String → Vars → Vars
with_updater none labels = labels
with_updater (some url) labels = assign updater_label url labels

pub labels_of : {J : Type 0} → Vars → Vars → Option String → ReleaseImage J → Vars
labels_of defaults config updater ipr =
    with_updater updater
      (labels_from_config config (insert_all (ipr.labels ++ ipr.image.service.labels) defaults))

abbrev pub no_profile : List String → Bool
no_profile [] = true
no_profile (p ∷ ps) = false

abbrev pub any_active : (String → Bool) → List String → Bool
any_active active [] = false
any_active active (p ∷ ps) = active p || any_active active ps

-- The image is for every device, or for one of the profiles that are active.
abbrev pub is_selected : {J : Type 0} → (String → Bool) → ReleaseImage J → Bool
is_selected active ipr = no_profile ipr.profiles || any_active active ipr.profiles

abbrev pub has_id : ℕ → List ℕ → Bool
has_id i [] = false
has_id i (j ∷ js) = j == i || has_id i js

-- A fleet asks for its services, and then each image has to be of one of them.
abbrev pub is_foreign : Application → ServiceRow → Bool
is_foreign a s = elim a.services [ some is ↦ not (has_id s.id is) | none ↦ false ]
