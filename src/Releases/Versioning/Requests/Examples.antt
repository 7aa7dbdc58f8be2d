-- ===== src/Releases/Versioning/Requests/Examples.antt =====
-- Concrete requests on releases, src/features/ci-cd/hooks/release-versioning.ts.
use open_balena_api.Base.{
  ℕ, ◌≡◌, refl, subst, ◌==◌, str_eq, String, Bool-cases, inl, inr, Option, none, some, [], ◌∷◌,
  if◌then◌else◌, ok,
}
use open_balena_api.Releases.Grouping.{add_to_group, group_onto, group_by_map}
use open_balena_api.Releases.Versioning.{
  Version, Semver, Key, Release, Table, Values, same_version, latest_revision, get_next_revision,
  any, is_different_revision, set_revision,
}
use open_balena_api.Releases.Versioning.Selection.{
  insert_ordered, ordered, is_selected, clear, patch_if, chosen, after_patch,
}
use open_balena_api.Releases.Versioning.Requests.{
  is_final_to_draft, parse_release_versioning_fields, assign, create, post_release, any_different,
  number_all, number_group, number_variants, number_applications, patch_releases,
}
use open_balena_api.Releases.Versioning.Rows.{IsNumbered, same_version-eq}
use open_balena_api.Releases.Versioning.Requests.Laws.{patch-IsNumbered, post-IsNumbered}

abbrev one : Version
one = record { major = 1; minor = 0; patch = 0; prerelease = "" }

abbrev one_semver : Semver
one_semver = record { version = one; build = [] }

abbrev parse : String → Option Semver
parse t = if str_eq t "1.0.0" then some one_semver else none

abbrev show : ℕ → String
show n = "7"

abbrev semver_of : Release → String
semver_of r = if same_version one r.key.version then "1.0.0" else "other"

reads : (s : Release) (v : Semver) → parse (semver_of s) ≡ some v → v.version ≡ s.key.version
reads s v h = elim (Bool-cases (same_version one s.key.version)) [
  | inl e ↦
      let same : one_semver ≡ v = cc (rw e at h) in
      subst (λ x. x.version ≡ s.key.version) same (same_version-eq one s.key.version e)
  | inr e ↦ cc (rw e at h)
]

abbrev key : ℕ → Key
key a = record { application = a; version = one; variant = "" }

abbrev release : ℕ → ℕ → Option ℕ → Release
release i a n = record { id = i; key = key a; build = []; revision = n; finalized = n }

-- Two releases of the application 5, and one of the application 6.
abbrev table : Table
table = release 1 5 (some 0) ∷ release 2 5 (some 1) ∷ release 3 6 (some 0) ∷ []

table-IsNumbered : IsNumbered table
table-IsNumbered = (((refl, refl), ((refl, refl), tt)), (((refl, refl), tt), (tt, tt)))

abbrev to_five : Values
to_five = record { semver = some "1.0.0"; application = some 5; variant = none; is_final = none }

abbrev moved : Table
moved =
    release 1 5 (some 0)
    ∷ release 2 5 (some 1)
    ∷ record (release 3 5 (some 2)) { finalized = some 0 }
    ∷ []

moved_ok : patch_releases parse show semver_of table (λ i. i == 3) to_five 9 ≡ ok moved
unfolding patch_releases parse_release_versioning_fields is_final_to_draft any chosen ordered
    insert_ordered is_selected after_patch clear patch_if number_applications group_by_map
    group_onto add_to_group number_variants number_group any_different is_different_revision
    get_next_revision latest_revision number_all set_revision
moved_ok = refl

patch-IsNumbered_example : IsNumbered moved
patch-IsNumbered_example =
    patch-IsNumbered parse show semver_of table moved (λ i. i == 3) to_five 9 reads table-IsNumbered
      moved_ok

posted :
    post_release parse show table 4 5 to_five 9
    ≡ ok (record (release 4 5 (some 2)) { finalized = some 9 } ∷ table)
unfolding post_release parse_release_versioning_fields create assign any is_different_revision
    get_next_revision latest_revision set_revision
posted = refl

post-IsNumbered_example : IsNumbered (record (release 4 5 (some 2)) { finalized = some 9 } ∷ table)
post-IsNumbered_example =
    post-IsNumbered parse show table (record (release 4 5 (some 2)) { finalized = some 9 } ∷ table)
      4 5 to_five 9 (refl, (refl, (refl, tt))) table-IsNumbered posted
