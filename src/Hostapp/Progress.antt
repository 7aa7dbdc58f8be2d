-- ===== src/Hostapp/Progress.antt =====
-- The target follows the version that is reported, src/features/hostapp/hooks/target-hostapp.ts,
-- `progressTargetOSReleaseIfNewer`.
mod Lists
mod Rows
mod Infos
pub mod Laws
mod Examples
use open_balena_api.Base.{
  ℕ, ◌==◌, str_eq, Bool, true, false, not, ◌&&◌, ◌||◌, Option, none, some, List, [], ◌∷◌, ◌++◌,
  keep, map, if◌then◌else◌, is_some, String,
}
use open_balena_api.Releases.Grouping.{group_by_map}
use open_balena_api.Hostapp.{
  OsVersion, Semver, Release, Device, get_base_version_from_release_semver_or_tag, find_release,
  parse_os_variant, get_os_release_resource,
}
use open_balena_api.Base.{member}

-- What is known of a device that may have to be changed.
pub record DeviceInfo : Type 0 where
  pub id : ℕ
  pub device_type : ℕ
  pub version : OsVersion
  pub variant : String
  pub target : Option Release

-- The values of a PATCH of devices that the hook looks at.
pub record Values : Type 0 where
  pub os_version : Option String
  pub os_variant : Option String

abbrev pub is_nil : List ℕ → Bool
is_nil [] = true
is_nil (x ∷ xs) = false

-- The key of the groups.
abbrev pub same_info : DeviceInfo → DeviceInfo → Bool
same_info a b =
    a.device_type == b.device_type
    && str_eq a.version.raw b.version.raw
    && str_eq a.variant b.variant

-- The patch of the target, by the ids of the devices, without the hook that checks upgrades.
pub set_target : List ℕ → Option ℕ → List Device → List Device
set_target is target ds = map (λ d. if member d.id is then record d { target = target } else d) ds

module _ (s : Semver) (normalize_os_version : String → String) (rs : List Release) where
  open s use {parse, gt}

  abbrev release_of : Option ℕ → Option Release
  release_of none = none
  release_of (some i) = find_release i rs

  abbrev pub info_with : Device → Option OsVersion → Option String → Option DeviceInfo
  info_with d none variant = none
  info_with d (some v) none = none
  info_with d (some v) (some variant) = some (record {
    id = d.id;
    device_type = d.device_type;
    version = v;
    variant = variant;
    target = release_of d.target;
  })

  abbrev pub parsed_version : Option String → Option OsVersion
  parsed_version none = none
  parsed_version (some v) = parse v

  -- The device's version and variant, if both can be read.
  pub info_of : Device → Option DeviceInfo
  info_of d = info_with d (parsed_version d.os_version) (parse_os_variant d.os_variant)

  abbrev is_newer_than : String → Option String → Bool
  is_newer_than v none = true
  is_newer_than v (some w) = gt v w

  -- The device has no target, or one whose version is unknown or lower.
  abbrev pub is_behind : DeviceInfo → Bool
  is_behind i = elim i.target [
    | none ↦ true
    | some r ↦ is_newer_than i.version.raw (get_base_version_from_release_semver_or_tag r)
  ]

  abbrev pub behind : Option DeviceInfo → List DeviceInfo
  behind none = []
  behind (some i) = if is_behind i then i ∷ [] else []

  pub infos_to_update : List Device → List DeviceInfo
  unfolding info_of
  infos_to_update [] = []
  infos_to_update (d ∷ ds) = behind (info_of d) ++ infos_to_update ds

  abbrev pub found : DeviceInfo → Option Release
  found i = get_os_release_resource normalize_os_version rs i.device_type i.version i.variant

  abbrev pub ids : List DeviceInfo → List ℕ
  ids is = map (λ i. i.id) is

  abbrev pub id_of : Option Release → Option ℕ
  id_of none = none
  id_of (some r) = some r.id

  -- Without a release, the devices that have a target lose it.
  abbrev pub to_patch : Option Release → List DeviceInfo → List DeviceInfo
  to_patch (some r) is = is
  to_patch none is = keep (λ i. is_some i.target) is

  -- One group: the first of it gives the key.
  pub update_group : DeviceInfo → List DeviceInfo → List Device → List Device
  unfolding set_target
  update_group key is ds = set_target (ids (to_patch (found key) is)) (id_of (found key)) ds

  pub update_groups : List (DeviceInfo × List DeviceInfo) → List Device → List Device
  unfolding update_group
  update_groups [] ds = ds
  update_groups ((key, is) ∷ gs) ds = update_groups gs (update_group key is ds)

  pub progress_target_os_release_if_newer : List ℕ → List Device → List Device
  unfolding infos_to_update update_groups
  progress_target_os_release_if_newer affected ds =
      update_groups
        (group_by_map same_info (λ i. i) (infos_to_update (keep (λ d. member d.id affected) ds))) ds

  -- The hook, once the PATCH is done.
  pub on_device_patch : Values → List ℕ → List Device → List Device
  unfolding progress_target_os_release_if_newer
  on_device_patch v affected ds =
      if is_some v.os_version && not (is_some (parsed_version v.os_version))
      then ds
      else if is_some v.os_version || is_some (parse_os_variant v.os_variant)
      then progress_target_os_release_if_newer affected ds
      else ds
