-- ===== src/Hostapp/Progress/Rows.antt =====
-- What the groups do to one row, src/features/hostapp/hooks/target-hostapp.ts.
use open_balena_api.Base.{
  ℕ, ◌==◌, ◌≡◌, refl, ap, ◌∙◌, inl, inr, true, false, ◌&&◌, ◌||◌, Bool-cases, Option, none, some,
  List, [], ◌∷◌, ◌++◌, map, if◌then◌else◌, is_some, All, String, arith,
}
use open_balena_api.Releases.Grouping.{add_to_group, group_onto, AllGrouped}
use open_balena_api.Hostapp.{Semver, Release, Device}
use open_balena_api.Base.{member}
use open_balena_api.Hostapp.Progress.{
  DeviceInfo, same_info, found, ids, id_of, to_patch, update_groups,
}
use open_balena_api.Base.{member-append, map-append, map-map}

module _ (s : Semver) (normalize_os_version : String → String) (rs : List Release) where
  abbrev pub release_for : DeviceInfo → Option Release
  release_for = found s normalize_os_version rs

  abbrev pub info_ids : List DeviceInfo → List ℕ
  info_ids = ids s normalize_os_version rs

  -- What the groups have of ids.
  unfoldable pub group_ids : List (DeviceInfo × List DeviceInfo) → List ℕ
  group_ids [] = []
  group_ids ((k, is) ∷ gs) = info_ids is ++ group_ids gs

  -- The groups on one row.
  abbrev row_of : DeviceInfo → List DeviceInfo → Device → Device
  row_of k is d =
      if member d.id (info_ids (to_patch s normalize_os_version rs (release_for k) is))
      then record d { target = id_of s normalize_os_version rs (release_for k) }
      else d

  pub rows_of : List (DeviceInfo × List DeviceInfo) → Device → Device
  rows_of [] d = d
  rows_of ((k, is) ∷ gs) d = rows_of gs (row_of k is d)

  pub update_groups-map :
      (gs : List (DeviceInfo × List DeviceInfo)) (ds : List Device)
      → update_groups s normalize_os_version rs gs ds ≡ map (λ d. rows_of gs d) ds
  unfolding update_groups rows_of
  update_groups-map [] [] = refl
  update_groups-map [] (d ∷ ds) = ap (λ t. d ∷ t) (update_groups-map [] ds)
  update_groups-map ((k, is) ∷ gs) ds =
      update_groups-map gs (map (λ d. row_of k is d) ds)
      ∙ map-map (λ d. rows_of gs d) (λ d. row_of k is d) ds

  member-add_to_group :
      (n : ℕ) (k i : DeviceInfo) (gs : List (DeviceInfo × List DeviceInfo))
      → member n (group_ids (add_to_group same_info k i gs))
        ≡ (member n (group_ids gs) || i.id == n)
  unfolding group_ids add_to_group
  member-add_to_group n k i [] = ground arith
  member-add_to_group n k i ((j, is) ∷ gs) = ground (
    arith,
    member-add_to_group n k i gs,
    map-append (λ (x : DeviceInfo). x.id) is (i ∷ []),
    member-append n (info_ids is) (i.id ∷ []),
    member-append n (info_ids is) (group_ids gs),
    member-append n (info_ids (is ++ i ∷ [])) (group_ids gs),
    member-append n (info_ids is) (group_ids (add_to_group same_info k i gs)),
  )

  pub member-group_onto :
      (n : ℕ) (is : List DeviceInfo) (gs : List (DeviceInfo × List DeviceInfo))
      → member n (group_ids (group_onto same_info (λ i. i) is gs))
        ≡ (member n (group_ids gs) || member n (info_ids is))
  unfolding group_onto
  member-group_onto n [] gs = ground arith
  member-group_onto n (i ∷ is) gs =
      ground (
        arith,
        member-group_onto n is (add_to_group same_info i i gs),
        member-add_to_group n i i gs,
      )

  -- What one device gets by itself.
  abbrev pub decided : DeviceInfo → Device → Device
  decided i d =
      if is_some (release_for i) || is_some i.target
      then record d { target = id_of s normalize_os_version rs (release_for i) }
      else d

  module _ (n : ℕ) (i0 : DeviceInfo) where
    -- In a group with this key, the device with the number `n` is only `i0`, and the release is its own.
    unfoldable pub Same : DeviceInfo → DeviceInfo → Type 0
    Same k i = i.id ≡ n → (release_for k ≡ release_for i) × (i ≡ i0)

    member-to_patch :
        (o : Option Release) (k : DeviceInfo) (is : List DeviceInfo)
        → All (Same k) is
        → member n (info_ids (to_patch s normalize_os_version rs o is))
          ≡ (member n (info_ids is) && (is_some o || is_some i0.target))
    unfolding Same
    member-to_patch (some r) k is h = ground arith
    member-to_patch none k [] h = refl
    member-to_patch none k (i ∷ is) (f, h) = elim (Bool-cases (i.id == n)) [
      | inl e ↦
          let same : is_some i.target ≡ is_some i0.target =
            ap (λ (x : DeviceInfo). is_some x.target) (f (ground arith)).1 in
          ground (arith, same, member-to_patch none k is h)
      | inr e ↦ ground (arith, member-to_patch none k is h)
    ]

    member-release :
        (k : DeviceInfo) (is : List DeviceInfo)
        → All (Same k) is
        → member n (info_ids is) ≡ true
        → release_for k ≡ release_for i0
    unfolding Same
    member-release k [] h m = cc
    member-release k (i ∷ is) (f, h) m = elim (Bool-cases (i.id == n)) [
      | inl e ↦ let (a, b) = f (ground arith) in a ∙ ap (λ x. release_for x) b
      | inr e ↦ member-release k is h (ground arith)
    ]

    row_of-decided :
        (k : DeviceInfo) (is : List DeviceInfo) (d : Device)
        → All (Same k) is
        → d.id ≡ n
        → row_of k is d ≡ (if member n (info_ids is) then decided i0 d else d)
    row_of-decided k is d h e =
        let m = member-to_patch (release_for k) k is h in
        let at : member d.id (info_ids (to_patch s normalize_os_version rs (release_for k) is))
            ≡ (member n (info_ids is) && (is_some (release_for k) || is_some i0.target)) =
          ap (λ x. member x (info_ids (to_patch s normalize_os_version rs (release_for k) is))) e
          ∙ m in
        elim (Bool-cases (member n (info_ids is))) [
          | inr f ↦ simp (at, f) refl
          | inl f ↦
              simp (at, f)
                (ap
                  (λ o.
                    if is_some o || is_some i0.target
                    then record d { target = id_of s normalize_os_version rs o }
                    else d)
                  (member-release k is h f))
        ]

    decided-id : (d : Device) → (decided i0 d).id ≡ d.id
    decided-id d = elim (Bool-cases (is_some (release_for i0) || is_some i0.target)) [
      | inl e ↦ simp e refl
      | inr e ↦ simp e refl
    ]

    decided-twice : (d : Device) → decided i0 (decided i0 d) ≡ decided i0 d
    decided-twice d = elim (Bool-cases (is_some (release_for i0) || is_some i0.target)) [
      | inl e ↦ simp e refl
      | inr e ↦ simp e refl
    ]

    pub rows_of-decided :
        (gs : List (DeviceInfo × List DeviceInfo)) (d : Device)
        → AllGrouped same_info Same gs
        → d.id ≡ n
        → rows_of gs d ≡ (if member n (group_ids gs) then decided i0 d else d)
    unfolding rows_of group_ids
    rows_of-decided [] d h e = refl
    rows_of-decided ((k, is) ∷ gs) d (f, h) e =
        let row = row_of-decided k is d f e in
        let app = member-append n (info_ids is) (group_ids gs) in
        elim (Bool-cases (member n (info_ids is))) [
          | inl m ↦
              let there : row_of k is d ≡ decided i0 d = cc (row, m) in
              let rest = rows_of-decided gs (decided i0 d) h (decided-id d ∙ e) in
              elim (Bool-cases (member n (group_ids gs))) [
                | inl g ↦ cc (app, m, g, there, rest, decided-twice d)
                | inr g ↦ cc (app, m, g, there, rest)
              ]
          | inr m ↦
              let there : row_of k is d ≡ d = cc (row, m) in
              cc (app, m, there, rows_of-decided gs d h e)
        ]

  member-patched :
      (n : ℕ) (o : Option Release) (is : List DeviceInfo)
      → member n (info_ids is) ≡ false
      → member n (info_ids (to_patch s normalize_os_version rs o is)) ≡ false
  member-patched n (some r) is h = h
  member-patched n none [] h = refl
  member-patched n none (i ∷ is) h = ground (arith, h, member-patched n none is)

  pub rows_none :
      (gs : List (DeviceInfo × List DeviceInfo)) (d : Device)
      → member d.id (group_ids gs) ≡ false
      → rows_of gs d ≡ d
  unfolding rows_of group_ids
  rows_none [] d h = refl
  rows_none ((k, is) ∷ gs) d h =
      let app = member-append d.id (info_ids is) (group_ids gs) in
      let out = member-patched d.id (release_for k) is (ground (arith, app, h)) in
      let row : row_of k is d ≡ d = cc out in cc (row, rows_none gs d (ground (arith, app, h)))
