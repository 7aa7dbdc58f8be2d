-- ===== src/Supervisor/Rows.antt =====
-- What the patches of the groups make of one device, `setSupervisorReleaseResource` of
-- src/features/supervisor-app/hooks/supervisor-app.ts.
use open_balena_api.Base.{
  ℕ, ◌≡◌, refl, ap, sym, ◌∙◌, inl, inr, ◌==◌, Bool, true, false, Bool-cases, Option, none, some,
  List, [], ◌∷◌, ◌||◌, map, member, String, if◌then◌else◌, All, map-map, arith,
}
use open_balena_api.Releases.Grouping.{AllGrouped}
use open_balena_api.Supervisor.{
  Release, Device, managed, ids_of, patch_groups, get_supervisor_release_resource,
}

if-true : {A : Type 0} → {b : Bool} {x : A} (y : A) → b ≡ true → (if b then x else y) ≡ x
if-true {x = x} y e = ap (λ b. if b then x else y) e

if-false : {A : Type 0} → {b : Bool} (x : A) {y : A} → b ≡ false → (if b then x else y) ≡ y
if-false x {y = y} e = ap (λ b. if b then x else y) e

or-true : {a : Bool} (b : Bool) → a ≡ true → (a || b) ≡ true
or-true b e = ap (λ a. a || b) e

-- The device with the release that was found.
abbrev pub assigned : Option Release → Device → Device
assigned none d = d
assigned (some r) d = record d { should_be_managed_by = some r.id }

assigned-id : (o : Option Release) (d : Device) → (assigned o d).id ≡ d.id
assigned-id none d = refl
assigned-id (some r) d = refl

assigned-twice :
    (b : Bool) (o : Option Release) (d : Device)
    → (if b then assigned o (assigned o d) else assigned o d) ≡ assigned o d
assigned-twice true none d = refl
assigned-twice true (some r) d = refl
assigned-twice false o d = refl

managed-in :
    (o : Option Release) (d : Device) (ids : List ℕ)
    → member d.id ids ≡ true
    → managed o ids d ≡ assigned o d
managed-in none d ids m = refl
managed-in (some r) d ids m = if-true _ m

managed-out :
    (o : Option Release) (d : Device) (ids : List ℕ) → member d.id ids ≡ false → managed o ids d ≡ d
managed-out none d ids m = refl
managed-out (some r) d ids m = if-false _ m

unfoldable pub same_arch : ℕ → ℕ → Bool
same_arch a b = a == b

unfoldable pub group_ids : List (ℕ × List Device) → ℕ → Bool
group_ids [] n = false
group_ids ((k, ds) ∷ gs) n = member n (ids_of ds) || group_ids gs n

module _ (rs : List Release) (version : String) where
  abbrev found : ℕ → Option Release
  found arch = get_supervisor_release_resource rs version arch

  pub row : List (ℕ × List Device) → Device → Device
  row [] d = d
  row ((arch, ds) ∷ gs) d = row gs (managed (found arch) (ids_of ds) d)

  pub patch_groups-map :
      (gs : List (ℕ × List Device)) (rows : List Device)
      → patch_groups rs version gs rows ≡ map (row gs) rows
  unfolding patch_groups row
  patch_groups-map [] [] = refl
  patch_groups-map [] (d ∷ rows) = ap (λ t. d ∷ t) (patch_groups-map [] rows)
  patch_groups-map ((arch, ds) ∷ gs) rows =
      patch_groups-map gs (map (managed (found arch) (ids_of ds)) rows)
      ∙ map-map (row gs) (managed (found arch) (ids_of ds)) rows

  -- A device of the group has the architecture of the group.
  abbrev pub IsArch : Device → ℕ → Device → Type 0
  IsArch d k e = e.id ≡ d.id → k ≡ d.cpu_architecture

  IsArch-member :
      (d : Device) (k : ℕ) (ds : List Device)
      → All (IsArch d k) ds
      → member d.id (ids_of ds) ≡ true
      → k ≡ d.cpu_architecture
  IsArch-member d k [] h m = ground (arith, m)
  IsArch-member d k (e ∷ ds) (f, h) m = elim (Bool-cases (e.id == d.id)) [
    | inl q ↦ f (ground (arith, q))
    | inr q ↦ IsArch-member d k ds h (ground (arith, q, m))
  ]

  row-managed :
      (d x : Device) (k : ℕ) (ds : List Device) (gs : List (ℕ × List Device))
      → All (IsArch d k) ds
      → x.id ≡ d.id
      → managed (found k) (ids_of ds) x
        ≡ (if member d.id (ids_of ds) then assigned (found d.cpu_architecture) x else x)
  row-managed d x k ds gs h e = elim (Bool-cases (member d.id (ids_of ds))) [
    | inl m ↦
        let arch = IsArch-member d k ds h m in
        ap (λ a. managed (found a) (ids_of ds) x) arch
        ∙ managed-in (found d.cpu_architecture) x (ids_of ds) (ap (λ n. member n (ids_of ds)) e ∙ m)
        ∙ sym (if-true _ m)
    | inr m ↦
        managed-out (found k) x (ids_of ds) (ap (λ n. member n (ids_of ds)) e ∙ m)
        ∙ sym (if-false _ m)
  ]

  pub row-IsArch :
      (d x : Device) (gs : List (ℕ × List Device))
      → AllGrouped same_arch (IsArch d) gs
      → x.id ≡ d.id
      → row gs x ≡ (if group_ids gs d.id then assigned (found d.cpu_architecture) x else x)
  unfolding row group_ids
  row-IsArch d x [] h e = refl
  row-IsArch d x ((k, ds) ∷ gs) (h, hs) e = elim (Bool-cases (member d.id (ids_of ds))) [
    | inl m ↦
        ap (row gs) (row-managed d x k ds gs h e ∙ if-true _ m)
        ∙ row-IsArch d (assigned (found d.cpu_architecture) x) gs hs
            (assigned-id (found d.cpu_architecture) x ∙ e)
        ∙ assigned-twice (group_ids gs d.id) (found d.cpu_architecture) x
        ∙ sym (if-true _ (or-true _ m))
    | inr m ↦
        ap (row gs) (row-managed d x k ds gs h e ∙ if-false _ m)
        ∙ row-IsArch d x gs hs e
        ∙ sym (
            ap (λ b. if b || group_ids gs d.id then assigned (found d.cpu_architecture) x else x) m)
  ]
