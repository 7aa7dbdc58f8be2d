-- ===== src/Releases/Tracking/Examples.antt =====
-- An application that follows its releases, src/features/ci-cd/hooks/track-latest-release.ts.
use open_balena_api.Base.{ℕ, ◌≡◌, refl, true, false, none, some, List, [], ◌∷◌}
use open_balena_api.Releases.Tracking.{
  TrackedRelease, TrackingApplication, latest_of, update_latest_release, on_patch_release,
}

abbrev release : ℕ → ℕ → TrackedRelease
release i start = record {
  id = i;
  application = 1;
  start_timestamp = start;
  revision = some 0;
  is_passing_tests = true;
  is_invalidated = false;
  is_successful = true;
}

abbrev releases : List TrackedRelease
releases = release 4 10 ∷ release 5 30 ∷ release 6 20 ∷ []

abbrev applications : List TrackingApplication
applications =
    record { id = 1; should_track_latest_release = true; target = some 4 }
    ∷ record { id = 2; should_track_latest_release = true; target = none }
    ∷ []

followed :
    on_patch_release true releases (6 ∷ []) applications
    ≡ record { id = 1; should_track_latest_release = true; target = some 5 }
      ∷ record { id = 2; should_track_latest_release = true; target = none }
      ∷ []
unfolding on_patch_release update_latest_release latest_of
followed = refl
