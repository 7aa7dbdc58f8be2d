-- ===== src/Releases/Versioning/Selection.antt =====
-- src/features/ci-cd/hooks/release-versioning.ts, `setReleasesToSetRevision` and the PATCH itself:
-- which releases a PATCH gives a revision, and the rows before they are numbered.
pub mod Moves
pub mod Keys
use open_balena_api.Base.{
  ℕ, ltb, ◌==◌, str_eq, String, Bool, true, false, not, ◌&&◌, ◌||◌, Option, none, some, List, [],
  ◌∷◌, map, keep, is_some, if◌then◌else◌,
}
use open_balena_api.Releases.Versioning.{Version, Semver, Key, Release, Table, Values, same_version}

-- `$orderby`: the application, the date, where a missing one is the last, and the id.
abbrev date_before : Option ℕ → Option ℕ → Bool
date_before none d = false
date_before (some a) none = true
date_before (some a) (some b) = ltb a b

abbrev before : Release → Release → Bool
before r s =
    ltb r.key.application s.key.application
    || (r.key.application == s.key.application
        && (date_before r.finalized s.finalized
            || (not (date_before s.finalized r.finalized) && ltb r.id s.id)))

unfoldable pub insert_ordered : Release → Table → Table
insert_ordered r [] = r ∷ []
insert_ordered r (s ∷ ss) = if before r s then r ∷ s ∷ ss else s ∷ insert_ordered r ss

unfoldable pub ordered : Table → Table
ordered [] = []
ordered (r ∷ rs) = insert_ordered r (ordered rs)

-- The filters on what the revision is unique for: a field of them is patched to another value.
abbrev pub other_version : Option Semver → Key → Bool
other_version none k = false
other_version (some v) k = not (same_version v.version k.version)

abbrev pub other_application : Option ℕ → Key → Bool
other_application none k = false
other_application (some a) k = not (k.application == a)

abbrev pub other_variant : Option String → Key → Bool
other_variant none k = false
other_variant (some v) k = not (str_eq k.variant v)

abbrev pub moves : Values → Option Semver → Key → Bool
moves p v k = other_version v k || other_application p.application k || other_variant p.variant k

abbrev pub is_set : Option Bool → Bool
is_set (some true) = true
is_set _ = false

-- The filters of `setReleasesToSetRevision`, any of which selects a release.
unfoldable pub is_selected : Values → Option Semver → Release → Bool
is_selected p v r =
    (is_set p.is_final && not (is_some r.revision)) || (is_some r.revision && moves p v r.key)

abbrev pub has_id : Table → ℕ → Bool
has_id [] i = false
has_id (s ∷ ss) i = s.id == i || has_id ss i

-- The revision of a selected release becomes null. Where no field of the key is patched, the selected
-- releases have none, so that the early return of the source changes nothing.
unfoldable pub clear : Table → Release → Release
clear chosen r = if has_id chosen r.id then record r { revision = none } else r

abbrev pub patched_version : Option Semver → Version → Version
patched_version none w = w
patched_version (some v) w = v.version

abbrev pub patched_build : Option Semver → List String → List String
patched_build none b = b
patched_build (some v) b = v.build

abbrev pub or_else {ℓ} : {A : Type ℓ} → Option A → A → A
or_else none a = a
or_else (some b) a = b

abbrev pub patched_key : Values → Option Semver → Key → Key
patched_key p v k = record {
  application = or_else p.application k.application;
  version = patched_version v k.version;
  variant = or_else p.variant k.variant;
}

-- The PATCH itself, on a row that it affects.
abbrev pub patched : Values → Option Semver → Release → Release
patched p v r = record r { key = patched_key p v r.key; build = patched_build v r.build }

unfoldable pub patch_if : (ℕ → Bool) → Values → Option Semver → Release → Release
patch_if affected p v r = if affected r.id then patched p v r else r

-- The releases that the request gives a revision, and the rows after the PATCH itself.
unfoldable pub chosen : (ℕ → Bool) → Values → Option Semver → Table → Table
unfolding is_selected
chosen affected p v db = ordered (keep (λ r. affected r.id && is_selected p v r) db)

unfoldable pub after_patch : (ℕ → Bool) → Values → Option Semver → Table → Table
unfolding clear patch_if chosen
after_patch affected p v db = map (λ r. patch_if affected p v (clear (chosen affected p v db) r)) db
