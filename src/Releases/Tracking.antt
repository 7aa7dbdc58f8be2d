-- ===== src/Releases/Tracking.antt =====
-- src/features/ci-cd/hooks/track-latest-release.ts: the applications that follow their latest release.
mod Laws
mod Examples
use open_balena_api.Base.{
  ℕ, ltb, ◌==◌, Bool, false, not, ◌&&◌, ◌||◌, Option, none, some, List, [], ◌∷◌, map, is_some,
  if◌then◌else◌,
}

pub record TrackedRelease : Type 0 where
  pub id : ℕ
  pub application : ℕ
  pub start_timestamp : ℕ
  pub revision : Option ℕ
  pub is_passing_tests : Bool
  pub is_invalidated : Bool
  pub is_successful : Bool

pub record TrackingApplication : Type 0 where
  pub id : ℕ
  pub should_track_latest_release : Bool
  pub target : Option ℕ

-- `trackableReleaseFilter`
abbrev pub is_trackable : TrackedRelease → Bool
is_trackable r = is_some r.revision && r.is_passing_tests && not r.is_invalidated && r.is_successful

abbrev pub later_of : TrackedRelease → Option TrackedRelease → TrackedRelease
later_of r none = r
later_of r (some s) = if ltb r.start_timestamp s.start_timestamp then s else r

-- The first of the trackable releases of an application by their start, the latest before.
pub latest_of : ℕ → List TrackedRelease → Option TrackedRelease
latest_of a [] = none
latest_of a (r ∷ rs) =
    let rest = latest_of a rs in
    if r.application == a && is_trackable r then some (later_of r rest) else rest

abbrev pub has_id : ℕ → List ℕ → Bool
has_id i [] = false
has_id i (j ∷ js) = j == i || has_id i js

abbrev pub owns_one : ℕ → List ℕ → List TrackedRelease → Bool
owns_one a is [] = false
owns_one a is (r ∷ rs) = (r.application == a && has_id r.id is) || owns_one a is rs

abbrev pub with_target : Option TrackedRelease → TrackingApplication → TrackingApplication
with_target none a = a
with_target (some r) a = record a { target = some r.id }

-- With no ids, no application owns one of them.
pub update_latest_release :
    List TrackedRelease → List ℕ → List TrackingApplication → List TrackingApplication
unfolding latest_of
update_latest_release rs is apps =
    map
      (λ a.
        if a.should_track_latest_release && owns_one a.id is rs
        then with_target (latest_of a.id rs) a
        else a)
      apps

-- The hook of PATCH, which looks whether a field of the filter is in the values.
pub on_patch_release :
    Bool → List TrackedRelease → List ℕ → List TrackingApplication → List TrackingApplication
on_patch_release sets_state rs affected apps =
    if sets_state then update_latest_release rs affected apps else apps

abbrev pub is_trackable_id : ℕ → List TrackedRelease → Bool
is_trackable_id i [] = false
is_trackable_id i (r ∷ rs) = (r.id == i && is_trackable r) || is_trackable_id i rs

-- The hook of POST.
pub on_post_release : List TrackedRelease → ℕ → List TrackingApplication → List TrackingApplication
on_post_release rs i apps =
    if is_trackable_id i rs then update_latest_release rs (i ∷ []) apps else apps
