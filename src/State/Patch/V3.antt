-- ===== src/State/Patch/V3.antt =====
-- src/features/device-state/routes/state-patch-v3.ts: a report of several devices, checked against
-- what the request may read, becomes the updates of one transaction. The rows that the request
-- may read are the record `Directory`; the address of the client, which only hooks use, is left out.
pub mod Handler
pub mod Access
pub mod Updates
pub mod Status
pub mod Releases
use open_balena_api.Base.{
  ℕ, ◌==◌, str_eq, String, Bool, true, false, not, ◌&&◌, ◌||◌, Option, none, some, List, [], ◌∷◌,
  ◌++◌, map, member, length, keep, includes, if◌then◌else◌, Result, ok, err, unauthorized,
}
use open_balena_api.State.Reports.{Progress}
use open_balena_api.State.Patch.Transaction.{and_then}
use open_balena_api.State.Truncate.{Text, split}
use open_balena_api.State.Patch.{UpdateStatus, Object, same_units}

-- `StatePatchV3Body`
pub record ServiceReport : Type 0 where
  pub image : Text
  pub status : Option String
  pub download_progress : Progress

pub record ReleaseReport : Type 0 where
  pub update_status : Option UpdateStatus
  pub services : Option (List (String × ServiceReport))

pub record AppReport : Type 0 where
  pub release_uuid : Option String
  pub releases : Option (List (String × ReleaseReport))

abbrev pub Apps : Type 0
Apps = List (String × AppReport)

pub record DeviceReport : Type 0 where
  pub fields : Object
  pub apps : Option Apps

abbrev pub Body : Type 0
Body = List (String × DeviceReport)

-- What stands for `undefined` in a loop.
abbrev pub entries {ℓ} : {A : Type ℓ} → Option (List A) → List A
entries none = []
entries (some l) = l

-- What a report says of the releases and images of an application.
pub record Criteria : Type 0 where
  pub release_uuids : List String
  pub image_locations : List Text

abbrev pub AppCriteria : Type 0
AppCriteria = List (String × Criteria)

-- `Set.prototype.add`
abbrev pub add : String → List String → List String
add u us = if includes us u then us else us ++ u ∷ []

abbrev pub locations_of : List (String × ServiceReport) → List Text
locations_of services = map (λ s. s.1.image) services

unfoldable pub add_releases : List (String × ReleaseReport) → Criteria → Criteria
add_releases [] c = c
add_releases ((uuid, r) ∷ rs) c = add_releases rs (record {
  release_uuids = add uuid c.release_uuids;
  image_locations = c.image_locations ++ locations_of (entries r.services);
})

-- The running release is added unless it is missing or empty.
abbrev pub add_running : Option String → Criteria → Criteria
add_running none c = c
add_running (some uuid) c =
    if str_eq uuid "" then c else record c { release_uuids = add uuid c.release_uuids }

abbrev pub no_criteria : Criteria
no_criteria = record { release_uuids = []; image_locations = [] }

-- The criteria of an application are added to those that there are.
unfoldable pub add_app : String → AppReport → AppCriteria → AppCriteria
unfolding add_releases
add_app uuid a [] =
    (uuid, add_releases (entries a.releases) (add_running a.release_uuid no_criteria)) ∷ []
add_app uuid a ((u, c) ∷ cs) =
    if str_eq u uuid
    then (u, add_releases (entries a.releases) (add_running a.release_uuid c)) ∷ cs
    else (u, c) ∷ add_app uuid a cs

unfoldable pub add_apps : Apps → AppCriteria → AppCriteria
unfolding add_app
add_apps [] cs = cs
add_apps ((uuid, a) ∷ rest) cs = add_apps rest (add_app uuid a cs)

-- `appReleasesCriteria`
unfoldable pub criteria_of : Body → AppCriteria → AppCriteria
unfolding add_apps
criteria_of [] cs = cs
criteria_of ((uuid, d) ∷ ds) cs = criteria_of ds (add_apps (entries d.apps) cs)

pub record Image : Type 0 where
  pub id : ℕ
  pub location : Text
  pub content_hash : Text

pub record Release : Type 0 where
  pub id : ℕ
  pub commit : String
  pub application : String
  pub is_success : Bool
  pub images : List Image

pub record Device : Type 0 where
  pub id : ℕ
  pub uuid : String
  pub application : String

pub record Directory : Type 0 where
  pub devices : List Device
  pub releases : List Release

-- `s.split('@')`: what stands first, and what stands second.
abbrev first_of : List Text → Text
first_of [] = []
first_of (t ∷ ts) = t

abbrev second_of : List Text → Text
second_of (t ∷ (u ∷ ts)) = u
second_of ts = []

abbrev pub location_of : Text → Text
location_of image = first_of (split b'@' image)

abbrev pub hash_of : Text → Text
hash_of image = second_of (split b'@' image)

abbrev is_nil : Text → Bool
is_nil [] = true
is_nil (c ∷ t) = false

-- `imgLocationFilter`: an empty hash is not compared.
abbrev pub is_at : Text → Image → Bool
is_at image i =
    same_units i.location (location_of image)
    && (is_nil (hash_of image) || same_units i.content_hash (hash_of image))

abbrev pub is_at_any : List Text → Image → Bool
is_at_any [] i = false
is_at_any (l ∷ ls) i = is_at l i || is_at_any ls i

-- A successful release of the application that the report names.
abbrev pub is_asked : String → List String → Release → Bool
is_asked app uuids r = includes uuids r.commit && r.is_success && str_eq r.application app

-- The images that the locations ask for, of all releases.
abbrev pub images_at : List Text → List Release → List Image
images_at locations [] = []
images_at locations (r ∷ rs) = keep (is_at_any locations) r.images ++ images_at locations rs

-- What is read for one application, or for all.
pub record Found : Type 0 where
  pub images : List Image
  pub releases : List (String × List Release)

abbrev pub found_app : String → Criteria → List Release → Result Found
found_app app c rs =
    if not (length rs == length c.release_uuids)
    then err unauthorized
    else if length c.image_locations == 0
    then ok (record { images = []; releases = (app, rs) ∷ [] })
    else if length c.image_locations == length (images_at c.image_locations rs)
    then ok (record { images = images_at c.image_locations rs; releases = (app, rs) ∷ [] })
    else err unauthorized

-- Where no release is named none is read.
unfoldable pub fetch_app : List Release → String → Criteria → Result Found
fetch_app rs app c =
    if length c.release_uuids == 0
    then ok (record { images = []; releases = (app, []) ∷ [] })
    else found_app app c (keep (is_asked app c.release_uuids) rs)

unfoldable pub fetch_apps : List Release → AppCriteria → Result Found
unfolding fetch_app
fetch_apps rs [] = ok (record { images = []; releases = [] })
fetch_apps rs ((app, c) ∷ cs) = and_then (fetch_app rs app c) (λ a.
    and_then (fetch_apps rs cs)
      (λ b. ok (record { images = a.images ++ b.images; releases = a.releases ++ b.releases })))

pub record Fetched : Type 0 where
  pub devices : List Device
  pub found : Found

-- `fetchData`: each device and each release has to be one that the request may read.
unfoldable pub fetch_data : Directory → List ℕ → AppCriteria → Result Fetched
unfolding fetch_apps
fetch_data dir ids cs =
    let ds = keep (λ d. member d.id ids) dir.devices in
    if not (length ds == length ids)
    then err unauthorized
    else and_then (fetch_apps dir.releases cs) (λ f. ok (record { devices = ds; found = f }))
