-- ===== src/Releases/Versioning/Selection/Moves.antt =====
-- What a PATCH does to the rows before the releases are numbered.
-- src/features/ci-cd/hooks/release-versioning.ts
use open_balena_api.Base.{
  ℕ, ◌≡◌, refl, sym, ap, ◌∙◌, ◌⊎◌, inl, inr, ◌==◌, eq_iff, String, Bool, true, false, not, ◌&&◌,
  ◌||◌, Bool-cases, Option, none, some, [], ◌∷◌, map, keep, All, is_some, arith,
}
use open_balena_api.Releases.Versioning.{Semver, Key, Release, Table, Values, same_key}
use open_balena_api.Releases.Versioning.Selection.{
  before, insert_ordered, ordered, other_version, other_application, other_variant, moves,
  is_selected, is_set, has_id, clear, patched_version, or_else, patched_key, patch_if, chosen,
  after_patch,
}
use open_balena_api.Releases.Versioning.Rows.{
  and_false, same_version-eq, same_revision, Apart, IsNumbered,
}

module _ (P : Release → Type 0) where
  All-insert_ordered : (r : Release) (rs : Table) → P r → All P rs → All P (insert_ordered r rs)
  unfolding insert_ordered
  All-insert_ordered r [] p h = (p, tt)
  All-insert_ordered r (s ∷ ss) p (q, h) = elim (Bool-cases (before r s)) [
    | inl e ↦ rw e (p, (q, h))
    | inr e ↦ rw e (q, All-insert_ordered r ss p h)
  ]

  pub All-ordered : (rs : Table) → All P rs → All P (ordered rs)
  unfolding ordered
  All-ordered [] h = tt
  All-ordered (r ∷ rs) (p, h) = All-insert_ordered r (ordered rs) p (All-ordered rs h)

  pub All-keep :
      (t : Release → Bool) (rs : Table) → All P rs → All (λ r. P r × (t r ≡ true)) (keep t rs)
  All-keep t [] h = tt
  All-keep t (r ∷ rs) (p, h) = elim (Bool-cases (t r)) [
    | inl e ↦ rw e ((p, e), All-keep t rs h)
    | inr e ↦ rw e (All-keep t rs h)
  ]

has_id-insert_ordered :
    (r : Release) (rs : Table) (i : ℕ) → has_id (insert_ordered r rs) i ≡ (r.id == i || has_id rs i)
unfolding insert_ordered
has_id-insert_ordered r [] i = refl
has_id-insert_ordered r (s ∷ ss) i = ground (arith, has_id-insert_ordered r ss i)

has_id-ordered : (rs : Table) (i : ℕ) → has_id (ordered rs) i ≡ has_id rs i
unfolding ordered
has_id-ordered [] i = refl
has_id-ordered (r ∷ rs) i =
    has_id-insert_ordered r (ordered rs) i ∙ ap (λ b. r.id == i || b) (has_id-ordered rs i)

-- Each row passes the test not, or has its id among these.
kept_ids :
    (t : Release → Bool) (others : Table) (rs : Table)
    → ((i : ℕ) → has_id (keep t rs) i ≡ true → has_id others i ≡ true)
    → All (λ r. (t r ≡ false) ⊎ (has_id others r.id ≡ true)) rs
kept_ids t others [] h = tt
kept_ids t others (r ∷ rs) h = elim (Bool-cases (t r)) [
  | inr e ↦ (inl e, kept_ids t others rs (λ i k. h i (rw e k)))
  | inl e ↦ (
    inr (h r.id (rw e (ground arith))),
    kept_ids t others rs (λ i k. h i (rw e (ground (arith, k)))),
  )
]

-- A row loses its revision, or keeps it with its key.
abbrev Quiet : (Release → Release) → Release → Type 0
Quiet f r =
    ((f r).id ≡ r.id)
    × (((f r).revision ≡ none) ⊎ (((f r).revision ≡ r.revision) × ((f r).key ≡ r.key)))

no_revision : (a : Option ℕ) → same_revision a none ≡ false
no_revision none = refl
no_revision (some a) = refl

Quiet-Apart :
    (f : Release → Release) (r s : Release) → Quiet f r → Quiet f s → Apart r s → Apart (f r) (f s)
Quiet-Apart f r s (i, inl e) (j, q) (d, h) =
    rw (i, j, e) (d, and_false (same_key (f r).key (f s).key))
Quiet-Apart f r s (i, inr (e, k)) (j, inl o) (d, h) =
    rw (i, j, o, no_revision (f r).revision) (d, and_false (same_key (f r).key (f s).key))
Quiet-Apart f r s (i, inr (e, k)) (j, inr (o, l)) (d, h) = rw (i, j, e, k, o, l) (d, h)

unmoved_application :
    (o : Option ℕ) (k : Key)
    → other_application o k ≡ false
    → or_else o k.application ≡ k.application
unmoved_application none k h = refl
unmoved_application (some a) k h = ground arith

unmoved_variant :
    (o : Option String) (k : Key) → other_variant o k ≡ false → or_else o k.variant ≡ k.variant
unmoved_variant none k h = refl
unmoved_variant (some a) k h = sym ((eq_iff k.variant a).0 (ground arith))

unmoved_version :
    (v : Option Semver) (k : Key)
    → other_version v k ≡ false
    → patched_version v k.version ≡ k.version
unmoved_version none k h = refl
unmoved_version (some v) k h = same_version-eq v.version k.version (ground arith)

unmoved-key :
    (p : Values) (v : Option Semver) (k : Key) → moves p v k ≡ false → patched_key p v k ≡ k
unmoved-key p v k h =
    let a = unmoved_application p.application k (ground arith) in
    let b = unmoved_version v k (ground arith) in
    let c = unmoved_variant p.variant k (ground arith) in
    λ i. record { application = a i; version = b i; variant = c i }

unselected_revision :
    (a : Bool) (o : Option ℕ) (m : Bool)
    → ((a && not (is_some o)) || (is_some o && m)) ≡ false
    → (o ≡ none) ⊎ (m ≡ false)
unselected_revision a none m h = inl refl
unselected_revision a (some n) m h = inr (ground arith)

module _ (affected : ℕ → Bool) (p : Values) (v : Option Semver) where
  abbrev pub picked : Release → Bool
  picked r = affected r.id && is_selected p v r

  picked_ids :
      (db : Table)
      → All (λ r. (picked r ≡ false) ⊎ (has_id (chosen affected p v db) r.id ≡ true)) db
  unfolding chosen
  picked_ids db =
      kept_ids picked (chosen affected p v db) db (λ i h. has_id-ordered (keep picked db) i ∙ h)

  abbrev pub changed : Table → Release → Release
  changed some_of r = patch_if affected p v (clear some_of r)

  not_picked :
      (some_of : Table) (r : Release)
      → (picked r ≡ false) ⊎ (has_id some_of r.id ≡ true)
      → affected r.id ≡ true
      → has_id some_of r.id ≡ false
      → is_selected p v r ≡ false
  not_picked some_of r (inl h) e o = ground (arith, h)
  not_picked some_of r (inr h) e o = cc (h, o)

  kept_key :
      (r : Release)
      → is_selected p v r ≡ false
      → (r.revision ≡ none) ⊎ ((r.revision ≡ r.revision) × (patched_key p v r.key ≡ r.key))
  unfolding is_selected
  kept_key r h = elim (unselected_revision (is_set p.is_final) r.revision (moves p v r.key) h) [
    | inl n ↦ inl n
    | inr m ↦ inr (refl, unmoved-key p v r.key m)
  ]

  changed-Quiet :
      (some_of : Table) (r : Release)
      → (picked r ≡ false) ⊎ (has_id some_of r.id ≡ true)
      → Quiet (changed some_of) r
  unfolding clear patch_if is_selected
  changed-Quiet some_of r h = elim (Bool-cases (affected r.id)) [
    | inl e ↦ elim (Bool-cases (has_id some_of r.id)) [
      | inl o ↦ rw (o, e) (refl, inl refl)
      | inr o ↦ rw (o, e) (refl, kept_key r (not_picked some_of r h e o))
    ]
    | inr e ↦ elim (Bool-cases (has_id some_of r.id)) [
      | inl o ↦ rw (o, e) (refl, inl refl)
      | inr o ↦ rw (o, e) (refl, inr (refl, refl))
    ]
  ]

  changed-AllApart :
      (some_of : Table) (r : Release) (rs : Table)
      → Quiet (changed some_of) r
      → All (Quiet (changed some_of)) rs
      → All (Apart r) rs
      → All (Apart (changed some_of r)) (map (changed some_of) rs)
  changed-AllApart some_of r [] q h a = tt
  changed-AllApart some_of r (s ∷ ss) q (h, hs) (a, az) =
      (Quiet-Apart (changed some_of) r s q h a, changed-AllApart some_of r ss q hs az)

  changed-IsNumbered :
      (some_of : Table) (db : Table)
      → All (Quiet (changed some_of)) db
      → IsNumbered db
      → IsNumbered (map (changed some_of) db)
  changed-IsNumbered some_of [] h w = tt
  changed-IsNumbered some_of (r ∷ rs) (h, hs) (a, w) =
      (changed-AllApart some_of r rs h hs a, changed-IsNumbered some_of rs hs w)

  AllQuiet :
      (some_of : Table) (db : Table)
      → All (λ r. (picked r ≡ false) ⊎ (has_id some_of r.id ≡ true)) db
      → All (Quiet (changed some_of)) db
  AllQuiet some_of [] h = tt
  AllQuiet some_of (r ∷ rs) (h, hs) = (changed-Quiet some_of r h, AllQuiet some_of rs hs)

  -- The PATCH itself leaves no two rows with one revision: where it moves a row, the revision is gone.
  pub after_patch-IsNumbered :
      (db : Table) → IsNumbered db → IsNumbered (after_patch affected p v db)
  unfolding after_patch
  after_patch-IsNumbered db w =
      let some_of = chosen affected p v db in
      changed-IsNumbered some_of db (AllQuiet some_of db (picked_ids db)) w
