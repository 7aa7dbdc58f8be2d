-- ===== src/Releases/Tracking/Laws.antt =====
-- The target of an application that follows its releases, src/features/ci-cd/hooks/track-latest-release.ts.
use open_balena_api.Base.{
  ℕ, ◌≤◌, ◌≡◌, ◌⊎◌, ◌==◌, Bool, true, false, not, is_some, ◌&&◌, Option, none, some, List, map, All,
}
use open_balena_api.Releases.Tracking.{TrackedRelease, TrackingApplication, owns_one}

-- Final, with passing tests, valid and successful.
abbrev pub is_usable : TrackedRelease → Bool
is_usable r = is_some r.revision && r.is_passing_tests && not r.is_invalidated && r.is_successful

abbrev pub IsBefore : ℕ → TrackedRelease → TrackedRelease → Type 0
IsBefore a r q = (q.application == a && is_usable q) ≡ true → q.start_timestamp ≤ r.start_timestamp

-- No trackable release of the application started after this one, which is one itself.
abbrev pub IsLatest : ℕ → List TrackedRelease → TrackedRelease → Type 0
IsLatest a rs r = ((r.application == a && is_usable r) ≡ true) × All (IsBefore a r) rs

-- What is found is the latest, and if nothing is then there is none.
IsFound : ℕ → List TrackedRelease → Option TrackedRelease → Type 0
IsFound a rs none = All (λ q. (q.application == a && is_usable q) ≡ false) rs
IsFound a rs (some r) = IsLatest a rs r

-- The application follows its releases, and owns one of these.
abbrev pub is_concerned : List TrackedRelease → List ℕ → TrackingApplication → Bool
is_concerned rs is a = a.should_track_latest_release && owns_one a.id is rs

-- What becomes of an application: one that is concerned targets a latest trackable release, if it has any.
abbrev pub IsUpdated :
    List TrackedRelease → List ℕ → TrackingApplication → TrackingApplication → Type 0
IsUpdated rs is a b =
    (is_concerned rs is a ≡ false → b ≡ a)
    × (is_concerned rs is a ≡ true
        → ((b ≡ a) × All (λ q. (q.application == a.id && is_usable q) ≡ false) rs)
          ⊎ ((r : TrackedRelease) × (b ≡ record a { target = some r.id }) × IsLatest a.id rs r))

-- What becomes of the applications.
abbrev pub AllUpdated :
    List TrackedRelease → List ℕ → List TrackingApplication → List TrackingApplication → Type 0
AllUpdated rs is apps out =
    (f : TrackingApplication → TrackingApplication) × (out ≡ map f apps)
    × ((a : TrackingApplication) → IsUpdated rs is a (f a))
