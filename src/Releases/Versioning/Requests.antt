-- ===== src/Releases/Versioning/Requests.antt =====
-- src/features/ci-cd/hooks/release-versioning.ts: the hooks of POST and PATCH.
mod Numbering
mod Laws
mod Examples
use open_balena_api.Base.{
  ℕ, ◌+◌, ◌==◌, str_eq, String, Bool, true, false, not, ◌&&◌, ◌||◌, Option, none, some, List, [],
  ◌∷◌, is_some, if◌then◌else◌, Result, ok, err, bad_request,
}
use open_balena_api.Releases.Grouping.{group_by_map}
use open_balena_api.Releases.Versioning.{
  Semver, Key, Release, Table, Values, any, get_next_revision, is_different_revision, set_revision,
}
use open_balena_api.Releases.Versioning.Selection.{is_set, or_else, chosen, after_patch}

abbrev is_unset : Option Bool → Bool
is_unset (some false) = true
is_unset _ = false

-- `preventChangingFinalToDraft`
pub is_final_to_draft : Values → (ℕ → Bool) → Table → Bool
unfolding any
is_final_to_draft p affected db =
    is_unset p.is_final && any (λ r. affected r.id && is_some r.revision) db

-- The date of a release that is finalized by the request.
abbrev new_date : Option Bool → ℕ → Release → Option ℕ
new_date final now r = if is_set final && not (is_some r.finalized) then some now else none

abbrev by_variant : Option String → Table → List (String × Table)
by_variant none rs = group_by_map str_eq (λ r. r.key.variant) rs
by_variant (some variant) rs = (variant, rs) ∷ []

abbrev by_application : Option ℕ → Table → List (ℕ × Table)
by_application none rs = group_by_map (λ (a b : ℕ). a == b) (λ r. r.key.application) rs
by_application (some application) rs = (application, rs) ∷ []

abbrev pub default_semver : Semver
default_semver = record {
  version = record { major = 0; minor = 0; patch = 0; prerelease = "" };
  build = [];
}

module _ (parse : String → Option Semver) (show : ℕ → String) where
  -- The semver of the values of a request, or a `BadRequestError`.
  pub parse_release_versioning_fields : Option String → Result (Option Semver)
  parse_release_versioning_fields none = ok none
  parse_release_versioning_fields (some t) = elim (parse t) [
    | none ↦ err bad_request
    | some v ↦ ok (some v)
  ]

  abbrev numbered : Bool → Table → ℕ → ℕ → Option ℕ → Result Table
  numbered true db i n date = err bad_request
  numbered false db i n date = ok (set_revision db i n date)

  -- Numbers one release, unless its build metadata names another revision.
  pub assign : Table → Key → List String → ℕ → Option ℕ → Result Table
  assign db k build i date =
      let n = get_next_revision db k in numbered (is_different_revision (show n) build) db i n date

  -- The hooks of a POST, for the release that the database creates with this id. A release without a
  -- semver is of the version 0.0.0, which the columns have by default too.
  pub create : Table → ℕ → Key → List String → Bool → ℕ → Result Table
  create db i k build false now =
      ok (record { id = i; key = k; build = build; revision = none; finalized = none } ∷ db)
  create db i k build true now =
      assign (record { id = i; key = k; build = build; revision = none; finalized = none } ∷ db) k
        build i (some now)

  pub post_release : Table → ℕ → ℕ → Values → ℕ → Result Table
  post_release db i application p now = elim (parse_release_versioning_fields p.semver) [
    | err e ↦ err e
    | ok v ↦
        let s = or_else v default_semver in
        let k : Key = record {
          application = application;
          version = s.version;
          variant = or_else p.variant "";
        } in
        create db i k s.build (or_else p.is_final true) now
  ]

  -- With a new semver: the revisions are checked first, and then given one after the other.
  pub any_different : Semver → ℕ → Table → Bool
  any_different v n [] = false
  any_different v n (r ∷ rs) = is_different_revision (show n) v.build || any_different v (n + 1) rs

  pub number_all : Option Bool → ℕ → Table → ℕ → Table → Table
  number_all final now [] n db = db
  number_all final now (r ∷ rs) n db =
      number_all final now rs (n + 1) (set_revision db r.id n (new_date final now r))

  module _ (semver_of : Release → String) (final : Option Bool) (now : ℕ) where
    abbrev read_and_assign : Option Semver → ℕ → String → Release → Table → Result Table
    read_and_assign none application variant r db = err bad_request
    read_and_assign (some v) application variant r db =
        assign db (record { application = application; version = v.version; variant = variant })
          v.build r.id (new_date final now r)

    -- Without one: each has the next revision of the version that it has.
    pub number_each : ℕ → String → Table → Table → Result Table
    number_each application variant [] db = ok db
    number_each application variant (r ∷ rs) db =
        elim (read_and_assign (parse (semver_of r)) application variant r db) [
          | err e ↦ err e
          | ok db' ↦ number_each application variant rs db'
        ]

    -- The releases of one application and variant.
    pub number_group : Option Semver → ℕ → String → Table → Table → Result Table
    number_group none application variant rs db = number_each application variant rs db
    number_group (some v) application variant rs db =
        let k : Key = record {
          application = application;
          version = v.version;
          variant = variant;
        } in
        let n = get_next_revision db k in
        if any_different v n rs then err bad_request else ok (number_all final now rs n db)

    -- The groups have no key in common, so those that the source handles concurrently are handled in
    -- turn.
    pub number_variants : Option Semver → ℕ → List (String × Table) → Table → Result Table
    number_variants v application [] db = ok db
    number_variants v application ((variant, rs) ∷ gs) db =
        elim (number_group v application variant rs db) [
          | err e ↦ err e
          | ok db' ↦ number_variants v application gs db'
        ]

    pub number_applications :
        Option Semver → Option String → List (ℕ × Table) → Table → Result Table
    number_applications v variant [] db = ok db
    number_applications v variant ((application, rs) ∷ gs) db =
        elim (number_variants v application (by_variant variant rs) db) [
          | err e ↦ err e
          | ok db' ↦ number_applications v variant gs db'
        ]

  -- The hooks of a PATCH on the releases whose ids are affected; `semver_of` is the computed term.
  pub patch_releases : (Release → String) → Table → (ℕ → Bool) → Values → ℕ → Result Table
  patch_releases semver_of db affected p now = elim (parse_release_versioning_fields p.semver) [
    | err e ↦ err e
    | ok v ↦
        if is_final_to_draft p affected db
        then err bad_request
        else number_applications semver_of p.is_final now v p.variant
            (by_application p.application (chosen affected p v db)) (after_patch affected p v db)
  ]
