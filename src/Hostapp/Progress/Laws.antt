-- ===== src/Hostapp/Progress/Laws.antt =====
-- The groups of devices against each device by itself, src/features/hostapp/hooks/target-hostapp.ts.
use open_balena_api.Base.{
  ℕ, ◌≡◌, refl, ap, sym, subst, ◌∙◌, true, false, ◌&&◌, some, List, [], ◌∷◌, keep, map,
  if◌then◌else◌, All, All-mono, String, arith, eq_iff,
}
use open_balena_api.Releases.Grouping.{group_by_map, AllGrouped, group_by_map-AllGrouped}
use open_balena_api.Hostapp.{OsVersion, Semver, Release, Device}
use open_balena_api.Base.{member}
use open_balena_api.Hostapp.Progress.{
  DeviceInfo, same_info, infos_to_update, progress_target_os_release_if_newer,
}
use open_balena_api.Hostapp.Progress.Lists.{member-keep}
use open_balena_api.Base.{map-All, All-keep}
use open_balena_api.Hostapp.Progress.Rows.{
  group_ids, rows_of, update_groups-map, member-group_onto, decided, Same, rows_of-decided,
  rows_none, release_for,
}
use open_balena_api.Hostapp.Progress.Infos.{
  needs, settle, IsInfoOf, needs-IsInfoOf, is_needy, IsOnly, member-infos, All-IsInfoOf, IsParsed,
  IsKeyParsed, group_onto-IsKeyParsed, infos-IsParsed,
}

module _ (s : Semver) (normalize_os_version : String → String) (rs : List Release) where
  -- What balena-semver promises: the raw text of a parsed version determines the rest of it.
  abbrev pub IsDetermined : Type 0
  IsDetermined =
      (t u : String) (v w : OsVersion)
      → s.parse t ≡ some v
      → s.parse u ≡ some w
      → v.raw ≡ w.raw
      → v ≡ w

  SameIf : ℕ → DeviceInfo → DeviceInfo → DeviceInfo → Type 0
  SameIf n i0 k i =
      (IsParsed s normalize_os_version rs) k → (Same s normalize_os_version rs) n i0 k i

  module _ (determined : IsDetermined) where
    same-release :
        (j i : DeviceInfo)
        → (IsParsed s normalize_os_version rs) j
        → (IsParsed s normalize_os_version rs) i
        → same_info j i ≡ true
        → (release_for s normalize_os_version rs) j ≡ (release_for s normalize_os_version rs) i
    unfolding IsParsed
    same-release j i (t, p) (u, q) h =
        let raws : j.version.raw ≡ i.version.raw =
          (eq_iff j.version.raw i.version.raw).0 (ground (arith, h)) in
        let variants : j.variant ≡ i.variant = (eq_iff j.variant i.variant).0 (ground (arith, h)) in
        let types : j.device_type ≡ i.device_type = ground (arith, h) in
        let versions = determined t u j.version i.version p q raws in cc (versions, variants, types)

    abbrev first_or : DeviceInfo → List DeviceInfo → DeviceInfo
    first_or i [] = i
    first_or i (j ∷ js) = j

    -- In every group, what is known of the device is what is known of it alone.
    infos-SameIf :
        (d : Device) (i0 : DeviceInfo) (is : List DeviceInfo)
        → (needs s normalize_os_version rs) d ≡ i0 ∷ []
        → All (λ i. i.id ≡ d.id → (needs s normalize_os_version rs) d ≡ i ∷ []) is
        → All (IsParsed s normalize_os_version rs) is
        → All
            (λ i.
              ((j : DeviceInfo) → same_info j i ≡ true → SameIf d.id i0 j i) × SameIf d.id i0 i i)
            is
    unfolding SameIf Same
    infos-SameIf d i0 [] e h p = tt
    infos-SameIf d i0 (i ∷ is) e (f, h) (p, ps) = (
      (
        λ j g q k. (same-release j i q p g, ap (λ l. first_or i0 l) (sym (f k) ∙ e)),
        λ q k. (refl, ap (λ l. first_or i0 l) (sym (f k) ∙ e)),
      ),
      infos-SameIf d i0 is e h ps,
    )

    keys-Same :
        (n : ℕ) (i0 : DeviceInfo) (gs : List (DeviceInfo × List DeviceInfo))
        → (IsKeyParsed s normalize_os_version rs) gs
        → AllGrouped same_info (SameIf n i0) gs
        → AllGrouped same_info ((Same s normalize_os_version rs) n i0) gs
    unfolding IsKeyParsed SameIf
    keys-Same n i0 [] p h = tt
    keys-Same n i0 ((k, is) ∷ gs) (p, ps) (h, hs) =
        (All-mono (λ i f. f p) is h, keys-Same n i0 gs ps hs)

    module _ (ds : List Device) (affected : List ℕ) where
      abbrev affected_rows : List Device
      affected_rows = keep (λ d. member d.id affected) ds

      abbrev infos : List DeviceInfo
      infos = infos_to_update s normalize_os_version rs affected_rows

      abbrev groups : List (DeviceInfo × List DeviceInfo)
      groups = group_by_map same_info (λ i. i) infos

      groups-Same :
          (d : Device) (i0 : DeviceInfo)
          → (needs s normalize_os_version rs) d ≡ i0 ∷ []
          → All ((IsOnly s normalize_os_version rs) d) ds
          → AllGrouped same_info ((Same s normalize_os_version rs) d.id i0) groups
      unfolding group_by_map IsKeyParsed
      groups-Same d i0 e h =
          let only =
            All-keep ((IsOnly s normalize_os_version rs) d) (λ x. member x.id affected) ds h in
          keys-Same d.id i0 groups
            ((group_onto-IsKeyParsed s normalize_os_version rs) infos []
              ((infos-IsParsed s normalize_os_version rs) affected_rows) tt)
            (group_by_map-AllGrouped same_info (SameIf d.id i0) (λ i. i) infos
              (infos-SameIf d i0 infos e
                ((All-IsInfoOf s normalize_os_version rs) d affected_rows only)
                ((infos-IsParsed s normalize_os_version rs) affected_rows)))

      -- The device alone, if it is affected.
      abbrev pub by_itself : Device → Device
      by_itself d =
          if member d.id affected
          then (settle s normalize_os_version rs) ((needs s normalize_os_version rs) d) d
          else d

      member-groups :
          (d : Device)
          → member d.id (map (λ e. e.id) ds) ≡ true
          → All ((IsOnly s normalize_os_version rs) d) ds
          → member d.id ((group_ids s normalize_os_version rs) groups) ≡ (
              member d.id affected
              && (is_needy s normalize_os_version rs) ((needs s normalize_os_version rs) d))
      unfolding group_by_map group_ids
      member-groups d m h =
          let only =
            All-keep ((IsOnly s normalize_os_version rs) d) (λ x. member x.id affected) ds h in
          ground (
            arith,
            (member-group_onto s normalize_os_version rs) d.id infos [],
            (member-infos s normalize_os_version rs) d affected_rows only,
            member-keep d.id affected ds,
            m,
          )

      rows_of-settle :
          (d : Device) (is : List DeviceInfo)
          → (needs s normalize_os_version rs) d ≡ is
          → member d.id (map (λ e. e.id) ds) ≡ true
          → All ((IsOnly s normalize_os_version rs) d) ds
          → (rows_of s normalize_os_version rs) groups d
            ≡ (if member d.id affected then (settle s normalize_os_version rs) is d else d)
      rows_of-settle d [] e m h =
          let out : member d.id ((group_ids s normalize_os_version rs) groups) ≡ false =
            ground
              (arith, member-groups d m h, ap (λ l. (is_needy s normalize_os_version rs) l) e) in
          ground (arith, (rows_none s normalize_os_version rs) groups d out)
      rows_of-settle d (i0 ∷ is) e m h =
          let infos_of_d =
            subst (λ l. All ((IsInfoOf s normalize_os_version rs) d l) l) e
              ((needs-IsInfoOf s normalize_os_version rs) d) in
          let one : (needs s normalize_os_version rs) d ≡ i0 ∷ [] = e ∙ infos_of_d.0.1 in
          let rows =
            (rows_of-decided s normalize_os_version rs) d.id i0 groups d (groups-Same d i0 one h)
              refl in
          let found_in : member d.id ((group_ids s normalize_os_version rs) groups)
              ≡ member d.id affected =
            ground
              (arith, member-groups d m h, ap (λ l. (is_needy s normalize_os_version rs) l) e) in
          rows ∙ ap (λ b. if b then (decided s normalize_os_version rs) i0 d else d) found_in

      -- With unique ids, to patch the devices in groups with one query each is the same as to look up the
      -- release of each affected device by itself.
      pub progress-by_itself :
          All
            (λ d.
              (member d.id (map (λ e. e.id) ds) ≡ true)
              × All ((IsOnly s normalize_os_version rs) d) ds)
            ds
          → progress_target_os_release_if_newer s normalize_os_version rs affected ds
            ≡ map (λ d. by_itself d) ds
      unfolding progress_target_os_release_if_newer
      progress-by_itself h =
          (update_groups-map s normalize_os_version rs) groups ds
          ∙ map-All (λ d. (rows_of s normalize_os_version rs) groups d) (λ d. by_itself d) ds
              (All-mono (λ d k. rows_of-settle d ((needs s normalize_os_version rs) d) refl k.0 k.1)
                ds h)
