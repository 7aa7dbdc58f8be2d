-- ===== src/Releases/Versioning/Selection/Keys.antt =====
-- The keys of the rows after a PATCH, src/features/ci-cd/hooks/release-versioning.ts.
use open_balena_api.Base.{
  ℕ, ◌≡◌, refl, ap, ◌∙◌, subst, ◌⊎◌, inl, inr, ◌==◌, Bool, true, false, Bool-cases, Option, [], ◌∷◌,
  map, keep, All, All-mono, arith,
}
use open_balena_api.Releases.Versioning.{Semver, Release, Table, Values}
use open_balena_api.Releases.Versioning.Selection.{
  has_id, clear, patched_key, patch_if, chosen, after_patch,
}
use open_balena_api.Releases.Versioning.Rows.{Apart, IsNumbered, HasKey}
use open_balena_api.Releases.Versioning.Selection.Moves.{picked, changed, All-ordered, All-keep}

module _ (affected : ℕ → Bool) (p : Values) (v : Option Semver) where
  changed_id : (some_of : Table) (r : Release) → (changed affected p v some_of r).id ≡ r.id
  unfolding clear patch_if
  changed_id some_of r = elim (Bool-cases (affected r.id)) [
    | inl e ↦ elim (Bool-cases (has_id some_of r.id)) [
      | inl o ↦ rw (o, e) refl
      | inr o ↦ rw (o, e) refl
    ]
    | inr e ↦ elim (Bool-cases (has_id some_of r.id)) [
      | inl o ↦ rw (o, e) refl
      | inr o ↦ rw (o, e) refl
    ]
  ]

  changed_key :
      (some_of : Table) (r : Release)
      → affected r.id ≡ true
      → (changed affected p v some_of r).key ≡ patched_key p v r.key
  unfolding clear patch_if
  changed_key some_of r e = elim (Bool-cases (has_id some_of r.id)) [
    | inl o ↦ rw (o, e) refl
    | inr o ↦ rw (o, e) refl
  ]

  changed_row :
      (some_of : Table) (s r : Release)
      → affected s.id ≡ true
      → (r.id == s.id ≡ false) ⊎ (r.key ≡ s.key)
      → ((changed affected p v some_of r).id == s.id ≡ false)
        ⊎ ((changed affected p v some_of r).key ≡ patched_key p v s.key)
  changed_row some_of s r e (inl d) = inl (rw (changed_id some_of r) d)
  changed_row some_of s r e (inr k) = elim (Bool-cases (r.id == s.id)) [
    | inr d ↦ inl (rw (changed_id some_of r) d)
    | inl d ↦
        let same : s.id ≡ r.id = ground arith in
        let hit = subst (λ i. affected i ≡ true) same e in
        inr (changed_key some_of r hit ∙ ap (patched_key p v) k)
  ]

  changed-HasKey :
      (some_of : Table) (s : Release) (db : Table)
      → affected s.id ≡ true
      → HasKey db s.id s.key
      → HasKey (map (changed affected p v some_of) db) s.id (patched_key p v s.key)
  changed-HasKey some_of s [] e h = tt
  changed-HasKey some_of s (r ∷ rs) e (h, hs) =
      (changed_row some_of s r e h, changed-HasKey some_of s rs e hs)

  apart_ids : (s r : Release) → r.id == s.id ≡ false → s.id == r.id ≡ false
  apart_ids s r h = ground arith

  add_row :
      (r : Release) (rs xs : Table)
      → All (Apart r) xs
      → All (λ s. HasKey rs s.id s.key) xs
      → All (λ s. HasKey (r ∷ rs) s.id s.key) xs
  add_row r rs [] a h = tt
  add_row r rs (x ∷ xs) (a, az) (h, hs) = ((inl a.0, h), add_row r rs xs az hs)

  own_key : (db : Table) → IsNumbered db → All (λ s. HasKey db s.id s.key) db
  own_key [] w = tt
  own_key (r ∷ rs) (a, w) = (
    (
      inr refl,
      All-mono {Q = λ s. (s.id == r.id ≡ false) ⊎ (s.key ≡ r.key)} (λ s q. inl (apart_ids s r q.0))
          rs a,
    ),
    add_row r rs rs a (own_key rs w),
  )

  -- The rows of the chosen releases have their new keys.
  pub chosen-HasKey :
      (db : Table)
      → IsNumbered db
      → All
          (λ s. HasKey (after_patch affected p v db) s.id (patched_key p v s.key))
          (chosen affected p v db)
  unfolding after_patch chosen
  chosen-HasKey db w =
      let some_of = chosen affected p v db in
      All-ordered (λ s. HasKey (map (changed affected p v some_of) db) s.id (patched_key p v s.key))
        (keep (picked affected p v) db)
        (All-mono (λ s q. changed-HasKey some_of s db (ground (arith, q.1)) q.0)
          (keep (picked affected p v) db)
          (All-keep (λ s. HasKey db s.id s.key) (picked affected p v) db (own_key db w)))
