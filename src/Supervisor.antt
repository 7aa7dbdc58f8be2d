-- ===== src/Supervisor.antt =====
-- src/features/supervisor-app/hooks/supervisor-app.ts: the supervisor release that manages a device.
-- The package balena-semver and `parseInt` of the id are parameters; a slug stands for the name of an
-- application. Rows that the query orders alike keep their order.
mod Order
mod Best
mod Rows
mod Laws
mod Upgrades
mod Examples
use open_balena_api.Base.{
  ℕ, ◌==◌, ltb, str_eq, String, Bool, true, false, not, ◌&&◌, ◌||◌, Option, none, some, List, [],
  ◌∷◌, map, member, length, keep, is_some, if◌then◌else◌, Result, ok, err, bad_request,
}
use open_balena_api.Names.{starts_with}
use open_balena_api.Releases.Grouping.{group_by_map}

pub record Release : Type 0 where
  pub id : ℕ
  pub raw_version : String
  pub semver : String
  pub is_successful : Bool
  pub is_invalidated : Bool
  pub is_final : Bool
  pub revision : Option ℕ
  pub created_at : ℕ
  pub application_slug : String
  pub is_public : Bool
  pub is_host : Bool
  pub cpu_architecture : ℕ

pub record Device : Type 0 where
  pub id : ℕ
  pub supervisor_version : Option String
  pub should_be_managed_by : Option ℕ
  pub cpu_architecture : ℕ

-- `slug.endsWith(suffix)`
abbrev pub ends_with : String → String → Bool
ends_with suffix String.[] = str_eq String.[] suffix
ends_with suffix (String.◌∷◌ c s) = str_eq (String.◌∷◌ c s) suffix || ends_with suffix s

abbrev pub is_supervisor_of : String → ℕ → Release → Bool
is_supervisor_of version arch r =
    str_eq r.semver version
    && r.is_successful
    && starts_with "balena_os/" r.application_slug
    && ends_with "-supervisor" r.application_slug
    && r.is_public
    && not r.is_host
    && r.cpu_architecture == arch

-- Whether the first of two revisions stands strictly before the second in descending order, where
-- a missing one is first.
abbrev pub revision_before : Option ℕ → Option ℕ → Bool
revision_before none none = false
revision_before none (some b) = true
revision_before (some a) none = false
revision_before (some a) (some b) = ltb b a

abbrev pub same_revision : Option ℕ → Option ℕ → Bool
same_revision none none = true
same_revision (some a) (some b) = a == b
same_revision a b = false

abbrev pub same_bool : Bool → Bool → Bool
same_bool a b = if a then b else not b

-- The order of the query: final releases, then revisions, then times.
pub before : Release → Release → Bool
before a b =
    (a.is_final && not b.is_final)
    || (same_bool a.is_final b.is_final
        && (revision_before a.revision b.revision
            || (same_revision a.revision b.revision && ltb b.created_at a.created_at)))

abbrev pub first_of : Option Release → Release → Release
first_of none r = r
first_of (some q) r = if before q r then q else r

unfoldable pub top : List Release → Option Release
unfolding before
top [] = none
top (r ∷ rs) = some (first_of (top rs) r)

-- `getSupervisorReleaseResource` for an architecture.
unfoldable pub get_supervisor_release_resource : List Release → String → ℕ → Option Release
unfolding top
get_supervisor_release_resource rs version arch = top (keep (is_supervisor_of version arch) rs)

-- The hook of POST, where the version and the architecture of the device type are given.
pub on_post : List Release → Device → Device
unfolding get_supervisor_release_resource
on_post rs d = elim d.supervisor_version [
  | none ↦ d
  | some v ↦ elim (get_supervisor_release_resource rs v d.cpu_architecture) [
    | none ↦ d
    | some r ↦ record d { should_be_managed_by = some r.id }
  ]
]

abbrev pub ids_of : List Device → List ℕ
ids_of ds = map (λ d. d.id) ds

-- The patch of one group.
abbrev pub managed : Option Release → List ℕ → Device → Device
managed none ids d = d
managed (some r) ids d =
    if member d.id ids then record d { should_be_managed_by = some r.id } else d

unfoldable pub patch_groups :
    List Release → String → List (ℕ × List Device) → List Device → List Device
unfolding get_supervisor_release_resource
patch_groups rs version [] rows = rows
patch_groups rs version ((arch, ds) ∷ gs) rows =
    patch_groups rs version gs
      (map (managed (get_supervisor_release_resource rs version arch) (ids_of ds)) rows)

-- A device that has reported a version before keeps its release.
abbrev pub is_fresh : List ℕ → Device → Bool
is_fresh ids d = member d.id ids && not (is_some d.supervisor_version)

-- `setSupervisorReleaseResource`, by which the hook of PATCH answers a version.
unfoldable pub set_supervisor_release_resource :
    List Release → List ℕ → String → List Device → List Device
unfolding patch_groups group_by_map
set_supervisor_release_resource rs ids version rows =
    patch_groups rs version
      (group_by_map (λ a b. a == b) (λ d. d.cpu_architecture) (keep (is_fresh ids) rows)) rows

-- The releases that manage a device of the request.
abbrev pub manages : Option ℕ → Release → Bool
manages none r = false
manages (some i) r = r.id == i

abbrev pub manages_any : List Device → Release → Bool
manages_any [] r = false
manages_any (d ∷ ds) r = manages d.should_be_managed_by r || manages_any ds r

abbrev pub release_with : ℕ → List Release → Option Release
release_with i [] = none
release_with i (r ∷ rs) = if r.id == i && not r.is_invalidated then some r else release_with i rs

module _ (lt : String → String → Bool) where
  unfoldable pub check_versions : String → List Release → Result (Unit {0})
  check_versions version [] = ok tt
  check_versions version (r ∷ rs) =
      let rest = check_versions version rs in
      if lt version r.raw_version then err bad_request else rest

  abbrev pub check_release : Option Release → List Release → Result (Unit {0})
  check_release none old = err bad_request
  check_release (some r) old = check_versions r.raw_version old

  -- `checkSupervisorReleaseUpgrades`
  unfoldable pub check_supervisor_release_upgrades :
      List Release → List Device → List ℕ → ℕ → Result (Unit {0})
  unfolding check_versions
  check_supervisor_release_upgrades rs rows ids new =
      let ds = keep (λ d. member d.id ids) rows in
      if length ids == 0
      then ok tt
      else if length (keep (λ d. not (is_some d.supervisor_version)) ds) == length ids
      then ok tt
      else check_release (release_with new rs) (keep (manages_any ds) rs)

  abbrev pub check_id : List Release → List Device → List ℕ → Option ℕ → Result (Unit {0})
  check_id rs rows ids none = err bad_request
  check_id rs rows ids (some i) = check_supervisor_release_upgrades rs rows ids i
