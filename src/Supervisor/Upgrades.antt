-- ===== src/Supervisor/Upgrades.antt =====
-- The check of a new supervisor release, `checkSupervisorReleaseUpgrades` of
-- src/features/supervisor-app/hooks/supervisor-app.ts.
use open_balena_api.Base.{
  ℕ, ◌≡◌, Bool, true, false, not, Option, none, some, is_some, List, keep, member, String, All,
}
use open_balena_api.Supervisor.Order.{IsIn}
use open_balena_api.Supervisor.{Release, Device, release_with, manages_any}

-- The devices of the request, and those that have not reported a version.
abbrev pub requested : List ℕ → List Device → List Device
requested ids rows = keep (λ d. member d.id ids) rows

abbrev pub unversioned : List Device → List Device
unversioned ds = keep (λ d. not (is_some d.supervisor_version)) ds

version_or : Release → Option Release → String
version_or n none = n.raw_version
version_or n (some m) = m.raw_version

-- No two releases have this id.
abbrev pub IsUnique : ℕ → List Release → Type 0
IsUnique new rs = All (λ r. r.id ≡ new → All (λ q. q.id ≡ new → q ≡ r) rs) rs

module _ (lt : String → String → Bool) where
  -- The release is there, is not invalidated, and is not older than any that manages one of the devices.
  abbrev pub IsUpgrade : List Release → List Device → ℕ → Type 0
  IsUpgrade rs ds new =
      (n : Release) × IsIn n rs
      × (n.id ≡ new)
      × (n.is_invalidated ≡ false)
      × All
          (λ r.
            All (λ d. d.should_be_managed_by ≡ some r.id → lt n.raw_version r.raw_version ≡ false)
              ds)
          rs

  -- By the code's own look-ups.
  abbrev IsFoundUpgrade : List Release → List Device → ℕ → Type 0
  IsFoundUpgrade rs ds new =
      (n : Release) × (release_with new rs ≡ some n)
      × All (λ r. manages_any ds r ≡ true → lt n.raw_version r.raw_version ≡ false) rs
