-- ===== src/Supervisor/Laws.antt =====
-- The groups of devices by architecture against each device by itself, `setSupervisorReleaseResource` of
-- src/features/supervisor-app/hooks/supervisor-app.ts.
use open_balena_api.Base.{
  ℕ, ◌≡◌, refl, ap, ◌∙◌, inl, inr, ◌==◌, true, ◌&&◌, Bool-cases, List, [], ◌∷◌, ◌||◌, not, is_some,
  keep, map, member, String, if◌then◌else◌, All, All-mono, map-All, All-keep, map-append,
  member-append, arith,
}
use open_balena_api.Releases.Grouping.{
  group_by_map, group_onto, add_to_group, group_by_map-AllGrouped,
}
use open_balena_api.Supervisor.{
  Release, Device, ids_of, is_fresh, get_supervisor_release_resource,
  set_supervisor_release_resource,
}
use open_balena_api.Supervisor.Rows.{
  assigned, same_arch, group_ids, row, patch_groups-map, IsArch, row-IsArch,
}

group_ids-add_to_group :
    (n k : ℕ) (d : Device) (gs : List (ℕ × List Device))
    → group_ids (add_to_group same_arch k d gs) n ≡ (group_ids gs n || d.id == n)
unfolding group_ids add_to_group
group_ids-add_to_group n k d [] = ground arith
group_ids-add_to_group n k d ((j, ds) ∷ gs) = ground (
  arith,
  group_ids-add_to_group n k d gs,
  map-append (λ (x : Device). x.id) ds (d ∷ []),
  member-append n (ids_of ds) (d.id ∷ []),
)

group_ids-group_onto :
    (n : ℕ) (ds : List Device) (gs : List (ℕ × List Device))
    → group_ids (group_onto same_arch (λ d. d.cpu_architecture) ds gs) n
      ≡ (group_ids gs n || member n (ids_of ds))
unfolding group_onto
group_ids-group_onto n [] gs = ground arith
group_ids-group_onto n (d ∷ ds) gs = ground (
  arith,
  group_ids-group_onto n ds (add_to_group same_arch d.cpu_architecture d gs),
  group_ids-add_to_group n d.cpu_architecture d gs,
)

-- No other row has the id of the device.
abbrev pub IsOnly : Device → Device → Type 0
IsOnly d e = e.id ≡ d.id → e ≡ d

member-fresh :
    (ids : List ℕ) (d : Device) (rows : List Device)
    → All (IsOnly d) rows
    → member d.id (ids_of (keep (is_fresh ids) rows))
      ≡ (member d.id (ids_of rows) && is_fresh ids d)
member-fresh ids d [] h = refl
member-fresh ids d (e ∷ rows) (f, h) = elim (Bool-cases (e.id == d.id)) [
  | inl q ↦
      let same : is_fresh ids e ≡ is_fresh ids d = ap (is_fresh ids) (f (ground (arith, q))) in
      ground (arith, q, same, member-fresh ids d rows h)
  | inr q ↦ ground (arith, q, member-fresh ids d rows h)
]

All-both :
    (P Q : Device → Type 0) (rows : List Device)
    → All P rows
    → All Q rows
    → All (λ d. P d × Q d) rows
All-both P Q [] h k = tt
All-both P Q (d ∷ rows) (p, h) (q, k) = ((p, q), All-both P Q rows h k)

ids_of-All : (rows : List Device) → All (λ d. member d.id (ids_of rows) ≡ true) rows
ids_of-All [] = tt
ids_of-All (d ∷ rows) = (ground arith, All-mono (λ e h. ground (arith, h)) rows (ids_of-All rows))

module _ (rs : List Release) (version : String) (ids : List ℕ) where
  -- What the device gets by itself.
  abbrev pub by_itself : Device → Device
  by_itself d =
      if member d.id ids && not (is_some d.supervisor_version)
      then assigned (get_supervisor_release_resource rs version d.cpu_architecture) d
      else d

  fresh-IsArch :
      (d : Device) (ds : List Device)
      → All (IsOnly d) ds
      → All
          (λ a.
            ((j : ℕ) → same_arch j a.cpu_architecture ≡ true → IsArch rs version d j a)
            × IsArch rs version d a.cpu_architecture a)
          ds
  unfolding same_arch
  fresh-IsArch d [] h = tt
  fresh-IsArch d (e ∷ ds) (f, h) = (
    (
      λ j q k. ground (arith, q, ap (λ x. x.cpu_architecture) (f k)),
      λ k. ap (λ x. x.cpu_architecture) (f k),
    ),
    fresh-IsArch d ds h,
  )

  abbrev groups : List Device → List (ℕ × List Device)
  groups rows = group_by_map same_arch (λ d. d.cpu_architecture) (keep (is_fresh ids) rows)

  member-groups :
      (rows : List Device) (d : Device)
      → All (IsOnly d) rows
      → member d.id (ids_of rows) ≡ true
      → group_ids (groups rows) d.id ≡ is_fresh ids d
  unfolding group_by_map group_ids
  member-groups rows d h m =
      ground (
        arith,
        group_ids-group_onto d.id (keep (is_fresh ids) rows) [],
        member-fresh ids d rows h,
        m,
      )

  row-by_itself :
      (rows : List Device) (d : Device)
      → All (IsOnly d) rows
      → member d.id (ids_of rows) ≡ true
      → row rs version (groups rows) d ≡ by_itself d
  row-by_itself rows d h m =
      row-IsArch rs version d d (groups rows)
        (group_by_map-AllGrouped same_arch (IsArch rs version d) (λ e. e.cpu_architecture)
          (keep (is_fresh ids) rows)
          (fresh-IsArch d (keep (is_fresh ids) rows) (All-keep (IsOnly d) (is_fresh ids) rows h)))
        refl
      ∙ ap
          (λ b.
            if b
            then assigned (get_supervisor_release_resource rs version d.cpu_architecture) d
            else d)
          (member-groups rows d h m)

  -- With unique ids, to patch the devices of each architecture at once is the same as to look up the
  -- release of each device by itself: one of the request that has no version yet gets the supervisor
  -- release of its own architecture, if there is one, and the others are left as they are.
  pub set_supervisor_release_resource-by_itself :
      (rows : List Device)
      → All (λ d. All (IsOnly d) rows) rows
      → set_supervisor_release_resource rs ids version rows ≡ map by_itself rows
  unfolding set_supervisor_release_resource same_arch
  set_supervisor_release_resource-by_itself rows h =
      patch_groups-map rs version (groups rows) rows
      ∙ map-All (row rs version (groups rows)) by_itself rows (
          All-mono (λ d k. row-by_itself rows d k.0 k.1) rows
            (All-both _ _ rows h (ids_of-All rows)))
