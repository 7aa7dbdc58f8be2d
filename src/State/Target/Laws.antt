-- ===== src/State/Target/Laws.antt =====
-- What a device is told of its services, src/features/device-state/routes/state-get-v3.ts.
use Prim.Native.String.{◌++◌ as text_append}
use open_balena_api.Base.{
  ℕ, ◌==◌, str_eq, String, Bool, true, false, ◌&&◌, ◌||◌, Option, none, some, List, [], ◌∷◌,
  if◌then◌else◌,
}
use open_balena_api.State.Config.{Vars}
use open_balena_api.State.Target.{
  Composition, ReleaseImage, Application, Device, Service, environment_of, labels_of,
}
use open_balena_api.State.Target.Build.{updater_url}

-- The value that the last variable of this name for this service has, or else another.
abbrev pub value_for : ℕ → String → List (ℕ × (String × String)) → Option String → Option String
value_for i k [] old = old
value_for i k ((j, (n, v)) ∷ l) old = value_for i k l (if j == i && str_eq n k then some v else old)

-- One of these profiles is active.
abbrev pub one_of : (String → Bool) → List String → Bool
one_of active [] = false
one_of active (p ∷ ps) = active p || one_of active ps

-- An image with profiles is for a device where one of them is active, one without for every device.
abbrev pub is_for : (String → Bool) → List String → Bool
is_for active [] = true
is_for active (p ∷ ps) = one_of active (p ∷ ps)

module _ {J : Type 0} (to_lower_case : String → String)
    (parse_json : String → Option (Option (Composition J))) (without_build : J → J)
    (d : Option Device) (a : Application) (c : Composition J) (config defaults : Vars)
    (active : String → Bool) where
  -- `location@hash`, where there is a hash.
  abbrev pub located : String → Option String → String
  located l none = l
  located l (some h) = text_append l (text_append "@" h)

  abbrev pub without_builds : Option J → Option J
  without_builds none = none
  without_builds (some j) = some (without_build j)

  -- The service that is made of an image: the location in lower case with the hash, the variables and
  -- labels, and the part of the composition without `build`.
  abbrev pub service_for : ReleaseImage J → Service J
  service_for ipr = record {
    id = ipr.image.service.id;
    image_id = ipr.image.id;
    image = to_lower_case (located ipr.image.location ipr.image.content_hash);
    environment = environment_of d a ipr;
    labels = labels_of defaults config (updater_url to_lower_case parse_json without_build a) ipr;
    contract = ipr.image.contract;
    composition = without_builds (c.service ipr.image.service.service_name);
  }

  -- The last image of a service that is for every device or for an active profile.
  abbrev pub last_service : String → List (ReleaseImage J) → Option (Service J) → Option (Service J)
  last_service n [] old = old
  last_service n (ipr ∷ rest) old = last_service n rest (
      if is_for active ipr.profiles && str_eq ipr.image.service.service_name n
      then some (service_for ipr)
      else old)
