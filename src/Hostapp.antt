-- ===== src/Hostapp.antt =====
-- src/features/hostapp/hooks/target-hostapp.ts: the host release that a device should run, and how
-- it is chosen when the device reports a version. The package balena-semver is the record `Semver`;
-- `normalizeOsVersion`, a few replacements in a text, is a parameter.
pub mod Upgrades
pub mod Progress
use open_balena_api.Base.{
  ℕ, ◌==◌, ltb, str_eq, Bool, true, false, not, ◌&&◌, ◌||◌, Option, none, some, List, [], ◌∷◌, keep,
  if◌then◌else◌, String,
}
use open_balena_api.Base.Regex.{all_of, at_start, literal, test}

-- A version that balena-semver has parsed; prerelease and build are joined with dots.
pub record OsVersion : Type 0 where
  pub raw : String
  pub major : ℕ
  pub minor : ℕ
  pub patch : ℕ
  pub prerelease : String
  pub build : String
  pub revision : Option ℕ

pub record Semver : Type 0 where
  pub parse : String → Option OsVersion
  pub gt : String → String → Bool
  pub lt : String → String → Bool

-- A release, with its application and its tags `version` and `variant`.
pub record Release : Type 0 where
  pub id : ℕ
  pub semver : String
  pub semver_major : ℕ
  pub semver_minor : ℕ
  pub semver_patch : ℕ
  pub semver_prerelease : String
  pub semver_build : String
  pub revision : Option ℕ
  pub variant : String
  pub is_successful : Bool
  pub is_final : Bool
  pub is_invalidated : Bool
  pub created_at : ℕ
  pub is_host : Bool
  pub device_type : ℕ
  pub version_tag : Option String
  pub variant_tag : Option String

pub record Device : Type 0 where
  pub id : ℕ
  pub device_type : ℕ
  pub os_version : Option String
  pub os_variant : Option String
  -- should_be_operated_by__release
  pub target : Option ℕ

-- `semver.startsWith('0.0.0')`
abbrev starts_with_zeros : String → Bool
starts_with_zeros v = test (all_of (at_start ∷ literal "0.0.0" ∷ [])) v

pub get_base_version_from_release_semver_or_tag : Release → Option String
get_base_version_from_release_semver_or_tag r =
    if starts_with_zeros r.semver then r.version_tag else some r.semver

abbrev pub find_release : ℕ → List Release → Option Release
find_release i [] = none
find_release i (r ∷ rs) = if r.id == i then some r else find_release i rs

abbrev pub parse_os_variant : Option String → Option String
parse_os_variant none = none
parse_os_variant (some v) = if str_eq v "dev" || str_eq v "prod" then some v else none

abbrev pub normalize_variant_to_long_form : String → String
normalize_variant_to_long_form v =
    if str_eq v "prod" then "production" else if str_eq v "dev" then "development" else v

abbrev pub has_text : Option String → String → Bool
has_text none t = false
has_text (some s) t = str_eq s t

abbrev is_revision : Option ℕ → Option ℕ → Bool
is_revision given none = true
is_revision none (some n) = n == 0
is_revision (some m) (some n) = n == m

-- By the fields of the version, or by the tags of a release that has none.
pub matches : (String → String) → ℕ → OsVersion → String → Release → Bool
matches normalize_os_version dt v variant r =
    r.is_successful
    && r.is_host
    && r.device_type == dt
    && ((r.semver_major == v.major
          && r.semver_minor == v.minor
          && r.semver_patch == v.patch
          && str_eq r.semver_prerelease v.prerelease
          && str_eq r.semver_build v.build
          && is_revision v.revision r.revision
          && (str_eq r.variant variant || str_eq r.variant ""))
        || (has_text r.version_tag (normalize_os_version v.raw) && elim r.variant_tag [
          | none ↦ true
          | some t ↦ str_eq t (normalize_variant_to_long_form variant)
        ]))

-- The order of the query: the greater major, then the final one, then the newest.
pub precedes : Release → Release → Bool
precedes r s =
    if ltb s.semver_major r.semver_major
    then true
    else if ltb r.semver_major s.semver_major
    then false
    else if r.is_final && not s.is_final
    then true
    else if not r.is_final && s.is_final
    then false
    else ltb s.created_at r.created_at

abbrev pub first_of : Option Release → List Release → Option Release
first_of o [] = o
first_of none (r ∷ rs) = first_of (some r) rs
first_of (some s) (r ∷ rs) = first_of (some (if precedes r s then r else s)) rs

pub get_os_release_resource :
    (String → String) → List Release → ℕ → OsVersion → String → Option Release
unfolding matches precedes
get_os_release_resource normalize_os_version rs dt v variant =
    first_of none (keep (matches normalize_os_version dt v variant) rs)

-- The PATCH of a device type: without a release of its own it clears the target.
pub cleared_target : Option ℕ → Option (Option ℕ) → Option (Option ℕ)
cleared_target (some dt) none = some none
cleared_target dt target = target

abbrev created_target : Option ℕ → Option Release → Option ℕ
created_target given none = given
created_target given (some r) = some r.id

abbrev target_with : (OsVersion → Option Release) → Option ℕ → Option OsVersion → Option ℕ
target_with find given none = given
target_with find given (some v) = created_target given (find v)

-- The target of a new device that reports its version, variant and type; else the one that it is given.
pub target_of_new :
    Semver
    → (String → String)
    → List Release
    → Option String
    → Option String
    → Option ℕ
    → Option ℕ
    → Option ℕ
unfolding get_os_release_resource
target_of_new s normalize_os_version rs (some v) (some variant) (some dt) given =
    target_with (λ w. get_os_release_resource normalize_os_version rs dt w variant) given
      (s.parse v)
target_of_new s normalize_os_version rs v variant dt given = given
