-- ===== src/Hostapp/Upgrades.antt =====
-- The check of an upgrade of the host, src/features/hostapp/hooks/target-hostapp.ts, `checkHostappReleaseUpgrades`.
use open_balena_api.Base.{
  ℕ, ◌≡◌, refl, inl, inr, Bool, true, false, not, ◌&&◌, ◌||◌, Bool-cases, Option, none, some, List,
  [], ◌∷◌, keep, if◌then◌else◌, is_some, All, String, Result, ok, err, bad_request, arith, member,
}
use open_balena_api.Hostapp.{
  Semver, Release, Device, get_base_version_from_release_semver_or_tag, find_release,
}

module _ (s : Semver) where
  open s use {parse, gt, lt}

  abbrev pub greater_of : Option String → String → Option String
  greater_of none v = some v
  greater_of (some m) v = if gt v m then some v else some m

  abbrev pub max_with : Option String → Option String → Option String
  max_with m none = m
  max_with m (some v) = if is_some (parse v) then greater_of m v else m

  pub max_os_version : Option String → List Device → Option String
  max_os_version m [] = m
  max_os_version m (d ∷ ds) = max_os_version (max_with m d.os_version) ds

  abbrev pub not_older : String → Option String → Result (Unit {0})
  not_older m none = err bad_request
  not_older m (some v) = if lt v m then err bad_request else ok tt

  abbrev pub check_release : Bool → String → Option Release → Result (Unit {0})
  check_release allow_invalidated m none = err bad_request
  check_release allow_invalidated m (some r) =
      if not r.is_successful || (not allow_invalidated && r.is_invalidated)
      then err bad_request
      else not_older m (get_base_version_from_release_semver_or_tag r)

  abbrev check_from : List Release → ℕ → Bool → Option String → Result (Unit {0})
  check_from rs i allow_invalidated none = ok tt
  check_from rs i allow_invalidated (some m) = check_release allow_invalidated m (find_release i rs)

  pub check_hostapp_release_upgrades :
      List Release → List Device → List ℕ → ℕ → Bool → Result (Unit {0})
  unfolding max_os_version
  check_hostapp_release_upgrades rs ds affected i allow_invalidated =
      check_from rs i allow_invalidated (max_os_version none (keep (λ d. member d.id affected) ds))

  -- What a PATCH does with the release: whether it sets the device type, and the value that is given.
  pub data Value : Type 0 where
    undefined null : Value
    number : ℕ → Value
    text : String → Value

  abbrev pub cleared : Bool → Value → Value
  cleared true undefined = null
  cleared sets_type v = v

  -- `POSTPARSE`, where `parse_int` is none for NaN: the value stays as it was given.
  abbrev pub post_parse : (String → Option ℕ) → Bool → Value → Result Value
  post_parse parse_int sets_type (text t) =
      if is_some (parse_int t) then ok (text t) else err bad_request
  post_parse parse_int sets_type v = ok (cleared sets_type v)

  -- `POSTRUN` looks at numbers only.
  abbrev pub post_run : List Release → List Device → List ℕ → Bool → Value → Result (Unit {0})
  post_run rs ds affected allow_invalidated (number i) =
      check_hostapp_release_upgrades rs ds affected i allow_invalidated
  post_run rs ds affected allow_invalidated v = ok tt

  -- The two hooks of a PATCH.
  pub patch_device :
      (String → Option ℕ)
      → List Release
      → List Device
      → List ℕ
      → Bool
      → Bool
      → Value
      → Result (Unit {0})
  patch_device parse_int rs ds affected allow_invalidated sets_type v =
      elim (post_parse parse_int sets_type v) [
        | err e ↦ err e
        | ok u ↦ post_run rs ds affected allow_invalidated u
      ]

  -- What the package promises: `lt` is `gt` the other way round, and `gt` is the order of a sorting.
  pub record IsOrdered : Type 0 where
    pub lt-gt : (a b : String) → lt a b ≡ gt b a
    pub asym : (a b : String) → gt a b ≡ true → gt b a ≡ false
    pub trans : (a b c : String) → gt a b ≡ false → gt b c ≡ false → gt a c ≡ false

  -- The version is no newer than the one that was found.
  IsTopped : String → Option String → Type 0
  IsTopped v o = (m : String) × (o ≡ some m) × (gt v m ≡ false)

  module _ (ordered : IsOrdered) where
    -- The device reports a version that is no newer than the one found.
    abbrev IsBounded : Option String → Device → Type 0
    IsBounded o d = (v : String) → d.os_version ≡ some v → is_some (parse v) ≡ true → IsTopped v o

    -- The version of the release with this id.
    abbrev pub version_of : List Release → ℕ → Option String
    version_of rs i = elim (find_release i rs) [
      | some r ↦ get_base_version_from_release_semver_or_tag r
      | none ↦ none
    ]

    -- The version of the new release is known, and it is not lower than the one that is reported.
    pub IsNoDowngrade : List Release → ℕ → Device → Type 0
    IsNoDowngrade rs i d =
        (v : String)
        → d.os_version ≡ some v
        → is_some (parse v) ≡ true
        → (w : String) × (version_of rs i ≡ some w) × (lt w v ≡ false)

    module _ (rs : List Release) (ds : List Device) (affected : List ℕ) (i : ℕ)
        (allow_invalidated : Bool) where
      abbrev affected_devices : List Device
      affected_devices = keep (λ d. member d.id affected) ds

  module _ (P : String → Type 0) where
    -- A reported version that can be read is one of these.
    abbrev IsReported : Device → Type 0
    IsReported d = (v : String) → d.os_version ≡ some v → is_some (parse v) ≡ true → P v

    WhereSome : Option String → Type 0
    WhereSome none = Unit
    WhereSome (some v) = P v

    max_with-WhereSome :
        (o n : Option String)
        → ((v : String) → n ≡ some v → is_some (parse v) ≡ true → P v)
        → WhereSome o
        → WhereSome (max_with o n)
    unfolding WhereSome
    max_with-WhereSome o none h p = p
    max_with-WhereSome none (some v) h p = elim (Bool-cases (is_some (parse v))) [
      | inl e ↦ simp e (h v refl e)
      | inr e ↦ simp e p
    ]
    max_with-WhereSome (some m) (some v) h p = elim (Bool-cases (is_some (parse v))) [
      | inl e ↦ elim (Bool-cases (gt v m)) [
        | inl g ↦ simp (e, g) (h v refl e)
        | inr g ↦ simp (e, g) p
      ]
      | inr e ↦ simp e p
    ]

    max-WhereSome :
        (ds : List Device) (o : Option String)
        → All IsReported ds
        → WhereSome o
        → WhereSome (max_os_version o ds)
    unfolding max_os_version
    max-WhereSome [] o h p = p
    max-WhereSome (d ∷ ds) o (h, hs) p =
        max-WhereSome ds (max_with o d.os_version) hs (max_with-WhereSome o d.os_version h p)

  -- A change of the host release is accepted if there is such a release, successful, valid or asked for
  -- by the platform itself, with a version that is not lower than any version of an affected device that can be read.
  pub check-accepts :
      (rs : List Release) (ds : List Device) (affected : List ℕ) (i : ℕ) (allow_invalidated : Bool)
      (r : Release) (w : String)
      → find_release i rs ≡ some r
      → (r.is_successful && (allow_invalidated || not r.is_invalidated)) ≡ true
      → get_base_version_from_release_semver_or_tag r ≡ some w
      → All (IsReported (λ v. lt w v ≡ false)) (keep (λ d. member d.id affected) ds)
      → check_hostapp_release_upgrades rs ds affected i allow_invalidated ≡ ok tt
  unfolding check_hostapp_release_upgrades WhereSome
  check-accepts rs ds affected i b r w f g h a =
      let ds2 = keep (λ d. member d.id affected) ds in
      accepted (max_os_version none ds2) (max-WhereSome (λ v. lt w v ≡ false) ds2 none a tt)
    where
      accepted :
          (o : Option String) → WhereSome (λ v. lt w v ≡ false) o → check_from rs i b o ≡ ok tt
      accepted none p = refl
      accepted (some m) p =
          let valid : (not r.is_successful || (not b && r.is_invalidated)) ≡ false =
            ground (arith, g) in
          cc (f, valid, h, p)
