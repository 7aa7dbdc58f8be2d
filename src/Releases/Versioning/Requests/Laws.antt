-- ===== src/Releases/Versioning/Requests/Laws.antt =====
-- The revisions of releases, src/features/ci-cd/hooks/release-versioning.ts.
use open_balena_api.Base.{
  ℕ, ◌≡◌, refl, ap, subst, ◌⊎◌, inl, inr, ◌==◌, String, Bool, true, false, ◌&&◌, Bool-cases, Option,
  none, some, List, [], ◌∷◌, ◌++◌, map, All, All-mono, is_some, Result-cases, ok, err, bad_request,
  arith,
}
use open_balena_api.Releases.Versioning.{
  Semver, Key, Release, Table, Values, same_key, any, latest_revision, get_next_revision,
  set_revision, on_row, number, is_different_revision,
}
use open_balena_api.Releases.Versioning.Selection.{or_else, chosen, after_patch}
use open_balena_api.Releases.Versioning.Requests.{
  parse_release_versioning_fields, assign, create, default_semver, post_release, is_final_to_draft,
  patch_releases,
}
use open_balena_api.Releases.Versioning.Rows.{and_false, IsNumbered, HasKey}
use open_balena_api.Releases.Versioning.Selection.Moves.{after_patch-IsNumbered}
use open_balena_api.Releases.Versioning.Selection.Keys.{chosen-HasKey}
use open_balena_api.Releases.Versioning.Requests.Numbering.{
  assigned, number_applications-IsNumbered,
}

-- A new row, before it is numbered.
abbrev pub row : ℕ → Key → List String → Release
row i k build = record { id = i; key = k; build = build; revision = none; finalized = none }

abbrev pub key_of : ℕ → Semver → Values → Key
key_of application v p = record {
  application = application;
  version = v.version;
  variant = or_else p.variant "";
}

other_id : (i j : ℕ) → i == j ≡ false → j == i ≡ false
other_id i j h = ground arith

next_new :
    (i : ℕ) (k : Key) (build : List String) (db : Table)
    → get_next_revision (row i k build ∷ db) k ≡ get_next_revision db k
unfolding get_next_revision latest_revision
next_new i k build db = elim (Bool-cases (same_key k k)) [ inl e ↦ rw e refl | inr e ↦ rw e refl ]

none_different : (n : String) → is_different_revision n [] ≡ false
unfolding is_different_revision any
none_different n = refl

map-on_row :
    (i : ℕ) (f : Release → Release) (db : Table)
    → All (λ s. i == s.id ≡ false) db
    → map (on_row i f) db ≡ db
map-on_row i f [] h = refl
map-on_row i f (r ∷ rs) (h, hs) =
    let same : on_row i f r ≡ r = rw (other_id i r.id h) refl in
    rw (same, map-on_row i f rs hs) refl

set_new :
    (i n : ℕ) (k : Key) (now : ℕ) (db : Table)
    → All (λ s. i == s.id ≡ false) db
    → set_revision (row i k [] ∷ db) i n (some now) ≡ number n (some now) (row i k []) ∷ db
unfolding set_revision
set_new i n k now db h =
    let hit : i == i ≡ true = ground arith in
    let others = map-on_row i (λ r. number n (some now) r) db h in rw (hit, others) refl

any-append :
    (t : Release → Bool) (before after : Table) (r : Release)
    → t r ≡ true
    → any t (before ++ r ∷ after) ≡ true
unfolding any
any-append t [] after r h = rw h refl
any-append t (b ∷ bs) after r h = ground (arith, any-append t bs after r h)

module _ (parse : String → Option Semver) (show : ℕ → String) where
  -- A PATCH that succeeds, of any of the fields and with any releases affected, leaves no two
  -- releases of one application, version and variant with one revision, if there were none before.
  -- The semver that the table computes has to parse to the version that the row has.
  pub patch-IsNumbered :
      (semver_of : Release → String) (db out : Table) (affected : ℕ → Bool) (p : Values) (now : ℕ)
      → ((s : Release) (v : Semver) → parse (semver_of s) ≡ some v → v.version ≡ s.key.version)
      → IsNumbered db
      → patch_releases parse show semver_of db affected p now ≡ ok out
      → IsNumbered out
  unfolding patch_releases
  patch-IsNumbered semver_of db out affected p now reads n e =
      elim (Result-cases (parse_release_versioning_fields parse show p.semver)) [
        | inr (x, o) ↦ cc (rw (patch_releases, o) at e)
        | inl (v, o) ↦ elim (Bool-cases (is_final_to_draft p affected db)) [
          | inl d ↦ cc (rw (patch_releases, o, d) at e)
          | inr d ↦
              number_applications-IsNumbered parse show semver_of p.is_final now p reads v
                (chosen affected p v db) (after_patch affected p v db) out
                (chosen-HasKey affected p v db n) (after_patch-IsNumbered affected p v db n)
                (rw (patch_releases, o, d) at e)
        ]
      ]

  new-IsNumbered :
      (db : Table) (r : Release)
      → r.revision ≡ none
      → All (λ s. r.id == s.id ≡ false) db
      → IsNumbered db
      → IsNumbered (r ∷ db)
  new-IsNumbered db r e f n =
      (All-mono (λ s d. (d, rw e (and_false (same_key r.key s.key)))) db f, n)

  create-IsNumbered :
      (db out : Table) (i : ℕ) (k : Key) (build : List String) (final : Bool) (now : ℕ)
      → All (λ s. i == s.id ≡ false) db
      → IsNumbered db
      → create parse show db i k build final now ≡ ok out
      → IsNumbered out
  unfolding create
  create-IsNumbered db out i k build false now f n e =
      let same : row i k build ∷ db ≡ out = cc e in
      subst IsNumbered same (new-IsNumbered db (row i k build) refl f n)
  create-IsNumbered db out i k build true now f n e =
      let own : HasKey (row i k build ∷ db) i k = (
        inr refl,
        All-mono {Q = λ s. (s.id == i ≡ false) ⊎ (s.key ≡ k)} (λ s d. inl (other_id i s.id d)) db f,
      ) in
      (assigned parse show (row i k build ∷ db) out k build i (some now) own
        (new-IsNumbered db (row i k build) refl f n) e).0

  -- A POST that succeeds leaves no two releases of one application, version and variant with one
  -- revision, if there were none before and the new id is no other release's.
  pub post-IsNumbered :
      (db out : Table) (i application : ℕ) (p : Values) (now : ℕ)
      → All (λ s. i == s.id ≡ false) db
      → IsNumbered db
      → post_release parse show db i application p now ≡ ok out
      → IsNumbered out
  unfolding post_release
  post-IsNumbered db out i application p now f n e =
      elim (Result-cases (parse_release_versioning_fields parse show p.semver)) [
        | inr (x, o) ↦ cc (rw (post_release, o) at e)
        | inl (v, o) ↦
            create-IsNumbered db out i (key_of application (or_else v default_semver) p)
              (or_else v default_semver).build (or_else p.is_final true) now f n
              (rw (post_release, o) at e)
      ]

  -- A POST of a final release, with a new id and a semver that parses and has no build metadata,
  -- adds it with the revision behind the greatest of its application, version and variant.
  pub post-revision :
      (db : Table) (i application : ℕ) (p : Values) (t : String) (v : Semver) (now : ℕ)
      → All (λ s. i == s.id ≡ false) db
      → p.semver ≡ some t
      → parse t ≡ some v
      → v.build ≡ []
      → or_else p.is_final true ≡ true
      → post_release parse show db i application p now
        ≡ ok (
            number
              (get_next_revision db (key_of application v p))
              (some now)
              (row i (key_of application v p) [])
            ∷ db)
  unfolding post_release create assign parse_release_versioning_fields
  post-revision db i application p t v now f e o b g =
      let k = key_of application v p in
      let n = get_next_revision db k in
      rw (post_release, e, o, g, b, next_new i k [] db, none_different (show n))
        (ap ok (set_new i n k now db f))

  -- A PATCH without a semver that would make a draft of a release with a revision is refused as a bad
  -- request, whichever releases stand around it.
  pub patch-draft :
      (semver_of : Release → String) (before after : Table) (r : Release) (affected : ℕ → Bool)
      (p : Values) (now n : ℕ)
      → p.semver ≡ none
      → p.is_final ≡ some false
      → affected r.id ≡ true
      → r.revision ≡ some n
      → patch_releases parse show semver_of (before ++ r ∷ after) affected p now ≡ err bad_request
  unfolding patch_releases parse_release_versioning_fields is_final_to_draft
  patch-draft semver_of before after r affected p now n e f a h =
      rw
        (
          patch_releases,
          e,
          f,
          any-append (λ s. affected s.id && is_some s.revision) before after r (rw (a, h) refl),
        )
        refl
