-- ===== src/Hostapp/Progress/Infos.antt =====
-- What is known of the devices, src/features/hostapp/hooks/target-hostapp.ts.
use open_balena_api.Base.{
  ℕ, ◌==◌, ◌≡◌, refl, ap, sym, subst, ◌∙◌, inl, inr, Bool, true, false, ◌&&◌, ◌||◌, Bool-cases,
  Option, none, some, List, [], ◌∷◌, ◌++◌, map, if◌then◌else◌, All, All-append, All-mono, String,
  arith,
}
use open_balena_api.Releases.Grouping.{add_to_group, group_onto}
use open_balena_api.Hostapp.{OsVersion, Semver, Release, Device, parse_os_variant}
use open_balena_api.Base.{member}
use open_balena_api.Hostapp.Progress.{
  DeviceInfo, same_info, info_with, parsed_version, info_of, is_behind, behind, infos_to_update,
}
use open_balena_api.Base.{member-append, map-append}
use open_balena_api.Hostapp.Progress.Rows.{decided, info_ids}

module _ (s : Semver) (normalize_os_version : String → String) (rs : List Release) where
  -- The device is one that is changed, and this is what is known of it.
  abbrev pub needs : Device → List DeviceInfo
  needs d = behind s normalize_os_version rs (info_of s normalize_os_version rs d)

  -- One device by itself.
  abbrev pub settle : List DeviceInfo → Device → Device
  settle [] d = d
  settle (i ∷ is) d = (decided s normalize_os_version rs) i d

  abbrev pub IsInfoOf : Device → List DeviceInfo → DeviceInfo → Type 0
  IsInfoOf d is i = (i.id ≡ d.id) × (is ≡ i ∷ [])

  behind-IsInfoOf :
      (d : Device) (o : Option DeviceInfo)
      → ((i : DeviceInfo) → o ≡ some i → i.id ≡ d.id)
      → All (IsInfoOf d (behind s normalize_os_version rs o)) (behind s normalize_os_version rs o)
  behind-IsInfoOf d none h = tt
  behind-IsInfoOf d (some i) h = elim (Bool-cases (is_behind s normalize_os_version rs i)) [
    | inl e ↦
        subst (λ b. All (IsInfoOf d (if b then i ∷ [] else [])) (if b then i ∷ [] else [])) (sym e)
          ((h i refl, refl), tt)
    | inr e ↦
        subst (λ b. All (IsInfoOf d (if b then i ∷ [] else [])) (if b then i ∷ [] else [])) (sym e)
          tt
  ]

  abbrev id_or : ℕ → Option DeviceInfo → ℕ
  id_or n none = n
  id_or n (some i) = i.id

  info_with-id :
      (d : Device) (v : Option OsVersion) (t : Option String) (i : DeviceInfo)
      → info_with s normalize_os_version rs d v t ≡ some i
      → i.id ≡ d.id
  info_with-id d none t i h = cc
  info_with-id d (some v) none i h = cc
  info_with-id d (some v) (some t) i h = sym (ap (id_or d.id) h)

  pub needs-IsInfoOf : (d : Device) → All (IsInfoOf d (needs d)) (needs d)
  unfolding info_of
  needs-IsInfoOf d = behind-IsInfoOf d (info_of s normalize_os_version rs d) (
      info_with-id d (parsed_version s normalize_os_version rs d.os_version)
        (parse_os_variant d.os_variant))

  abbrev pub is_needy : List DeviceInfo → Bool
  is_needy [] = false
  is_needy (i ∷ is) = true

  member-one :
      (n : ℕ) (d : Device) (is : List DeviceInfo)
      → All (IsInfoOf d is) is
      → member n ((info_ids s normalize_os_version rs) is) ≡ (d.id == n && is_needy is)
  member-one n d [] h = ground arith
  member-one n d (i ∷ is) ((e, f), h) =
      subst (λ js. member n ((info_ids s normalize_os_version rs) js) ≡ (d.id == n && is_needy js))
        (sym f) (ground (arith, e))

  -- No other device of the list has the id of this one.
  abbrev pub IsOnly : Device → Device → Type 0
  IsOnly d e = e.id ≡ d.id → e ≡ d

  pub member-infos :
      (d : Device) (ds : List Device)
      → All (IsOnly d) ds
      → member d.id
          ((info_ids s normalize_os_version rs) (infos_to_update s normalize_os_version rs ds))
        ≡ (member d.id (map (λ e. e.id) ds) && is_needy (needs d))
  unfolding infos_to_update
  member-infos d [] h = refl
  member-infos d (e ∷ ds) (f, h) =
      let one = member-one d.id e (needs e) (needs-IsInfoOf e) in
      let rest = infos_to_update s normalize_os_version rs ds in
      let split : (info_ids s normalize_os_version rs) (needs e ++ rest)
          ≡ (info_ids s normalize_os_version rs) (needs e)
            ++ (info_ids s normalize_os_version rs) rest =
        map-append (λ (i : DeviceInfo). i.id) (needs e) rest in
      let app : member d.id ((info_ids s normalize_os_version rs) (needs e ++ rest)) ≡ (
          member d.id ((info_ids s normalize_os_version rs) (needs e))
          || member d.id ((info_ids s normalize_os_version rs) rest)) =
        ap (λ x. member d.id x) split
        ∙ member-append d.id ((info_ids s normalize_os_version rs) (needs e))
            ((info_ids s normalize_os_version rs) rest) in
      elim (Bool-cases (e.id == d.id)) [
        | inl g ↦
            let same : is_needy (needs e) ≡ is_needy (needs d) =
              ap (λ x. is_needy (needs x)) (f (ground arith)) in
            ground (arith, one, app, same, member-infos d ds h)
        | inr g ↦ ground (arith, one, app, member-infos d ds h)
      ]

  pub All-IsInfoOf :
      (d : Device) (ds : List Device)
      → All (IsOnly d) ds
      → All (λ i. i.id ≡ d.id → needs d ≡ i ∷ []) (infos_to_update s normalize_os_version rs ds)
  unfolding infos_to_update
  All-IsInfoOf d [] h = tt
  All-IsInfoOf d (e ∷ ds) (f, h) =
      All-append (λ (i : DeviceInfo). i.id ≡ d.id → needs d ≡ i ∷ []) (needs e)
        (infos_to_update s normalize_os_version rs ds)
        (All-mono (λ i k j. sym (ap (λ x. needs x) (f (sym k.0 ∙ j))) ∙ k.1) (needs e)
          (needs-IsInfoOf e))
        (All-IsInfoOf d ds h)

  -- The version was read from a text.
  unfoldable pub IsParsed : DeviceInfo → Type 0
  IsParsed i = (t : String) × (s.parse t ≡ some i.version)

  unfoldable pub IsKeyParsed : List (DeviceInfo × List DeviceInfo) → Type 0
  IsKeyParsed gs = All (λ g. IsParsed g.0) gs

  add_to_group-IsKeyParsed :
      (i : DeviceInfo) (gs : List (DeviceInfo × List DeviceInfo))
      → IsParsed i
      → IsKeyParsed gs
      → IsKeyParsed (add_to_group same_info i i gs)
  unfolding add_to_group IsKeyParsed
  add_to_group-IsKeyParsed i [] p h = (p, tt)
  add_to_group-IsKeyParsed i ((j, is) ∷ gs) p (q, h) = elim (Bool-cases (same_info j i)) [
    | inl e ↦
        subst
          (λ b.
            All (λ (g : DeviceInfo × List DeviceInfo). IsParsed g.0)
              (if b then (j, is ++ i ∷ []) ∷ gs else (j, is) ∷ add_to_group same_info i i gs))
          (sym e) (q, h)
    | inr e ↦
        subst
          (λ b.
            All (λ (g : DeviceInfo × List DeviceInfo). IsParsed g.0)
              (if b then (j, is ++ i ∷ []) ∷ gs else (j, is) ∷ add_to_group same_info i i gs))
          (sym e) (q, add_to_group-IsKeyParsed i gs p h)
  ]

  pub group_onto-IsKeyParsed :
      (is : List DeviceInfo) (gs : List (DeviceInfo × List DeviceInfo))
      → All IsParsed is
      → IsKeyParsed gs
      → IsKeyParsed (group_onto same_info (λ i. i) is gs)
  unfolding group_onto
  group_onto-IsKeyParsed [] gs h q = q
  group_onto-IsKeyParsed (i ∷ is) gs (p, h) q =
      group_onto-IsKeyParsed is (add_to_group same_info i i gs) h
        (add_to_group-IsKeyParsed i gs p q)

  abbrev version_or : OsVersion → Option DeviceInfo → OsVersion
  version_or v none = v
  version_or v (some i) = i.version

  info_with-version :
      (d : Device) (o : Option OsVersion) (t : Option String) (i : DeviceInfo)
      → info_with s normalize_os_version rs d o t ≡ some i
      → o ≡ some i.version
  info_with-version d none t i h = cc
  info_with-version d (some v) none i h = cc
  info_with-version d (some v) (some t) i h = ap (λ o. some (version_or v o)) h

  parsed_version-IsParsed :
      (o : Option String) (i : DeviceInfo)
      → parsed_version s normalize_os_version rs o ≡ some i.version
      → IsParsed i
  unfolding IsParsed
  parsed_version-IsParsed none i h = cc
  parsed_version-IsParsed (some t) i h = (t, h)

  behind-IsParsed :
      (o : Option DeviceInfo)
      → ((i : DeviceInfo) → o ≡ some i → IsParsed i)
      → All IsParsed (behind s normalize_os_version rs o)
  behind-IsParsed none h = tt
  behind-IsParsed (some i) h = elim (Bool-cases (is_behind s normalize_os_version rs i)) [
    | inl e ↦ subst (λ b. All IsParsed (if b then i ∷ [] else [])) (sym e) (h i refl, tt)
    | inr e ↦ subst (λ b. All IsParsed (if b then i ∷ [] else [])) (sym e) tt
  ]

  pub infos-IsParsed :
      (ds : List Device) → All IsParsed (infos_to_update s normalize_os_version rs ds)
  unfolding infos_to_update info_of
  infos-IsParsed [] = tt
  infos-IsParsed (d ∷ ds) =
      All-append IsParsed (needs d) (infos_to_update s normalize_os_version rs ds)
        (behind-IsParsed (info_of s normalize_os_version rs d) (λ i h.
          parsed_version-IsParsed d.os_version i (
            info_with-version d (parsed_version s normalize_os_version rs d.os_version)
              (parse_os_variant d.os_variant) i h)))
        (infos-IsParsed ds)
