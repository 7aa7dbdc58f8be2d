-- ===== src/Releases/Versioning/Rows.antt =====
-- The table's rule that a release of one application, version and variant has a revision of its
-- own, and what keeps it. src/features/ci-cd/hooks/release-versioning.ts, src/balena.sbvr
use open_balena_api.Base.{
  ℕ, ◌+◌, ◌≤◌, ◌≡◌, refl, ◌∙◌, ◌⊎◌, inl, inr, ltb, ◌==◌, eq_iff, Bool, true, false, ◌&&◌,
  Bool-cases, Option, none, some, [], ◌∷◌, All, arith,
}
use open_balena_api.Releases.Versioning.{
  Version, Key, Release, Table, same_version, same_key, greater, latest_revision, after,
  get_next_revision,
}

pub same_version-eq : (v w : Version) → same_version v w ≡ true → v ≡ w
same_version-eq v w h =
    let a : v.major ≡ w.major = ground arith in
    let b : v.minor ≡ w.minor = ground arith in
    let c : v.patch ≡ w.patch = ground arith in
    let d : v.prerelease ≡ w.prerelease = (eq_iff v.prerelease w.prerelease).0 (ground arith) in
    λ i. record { major = a i; minor = b i; patch = c i; prerelease = d i }

pub same_key-eq : (k l : Key) → same_key k l ≡ true → k ≡ l
same_key-eq k l h =
    let a : k.application ≡ l.application = ground arith in
    let b : k.version ≡ l.version = same_version-eq k.version l.version (ground arith) in
    let c : k.variant ≡ l.variant = (eq_iff k.variant l.variant).0 (ground arith) in
    λ i. record { application = a i; version = b i; variant = c i }

pub same_key_refl : (k : Key) → same_key k k ≡ true
same_key_refl k =
    let p = (eq_iff k.version.prerelease k.version.prerelease).1 refl in
    let v = (eq_iff k.variant k.variant).1 refl in ground (arith, p, v)

abbrev pub same_revision : Option ℕ → Option ℕ → Bool
same_revision none b = false
same_revision (some a) none = false
same_revision (some a) (some b) = a == b

-- Two rows have ids of their own, and not one revision of one key.
abbrev pub Apart : Release → Release → Type 0
Apart r s =
    (r.id == s.id ≡ false) × ((same_key r.key s.key && same_revision r.revision s.revision) ≡ false)

abbrev pub IsNumbered : Table → Type 0
IsNumbered [] = Unit
IsNumbered (r ∷ rs) = All (Apart r) rs × IsNumbered rs

abbrev pub below : Option ℕ → ℕ → Bool
below none n = true
below (some m) n = ltb m n

-- The releases of this key have revisions below this one.
abbrev pub AllBelow : Key → ℕ → Table → Type 0
AllBelow k n db = All (λ r. (same_key r.key k ≡ false) ⊎ (below r.revision n ≡ true)) db

-- The row of this id, if there is one, has this key.
abbrev pub HasKey : Table → ℕ → Key → Type 0
HasKey db i k = All (λ r. (r.id == i ≡ false) ⊎ (r.key ≡ k)) db

same_key_sym : (k l : Key) → same_key k l ≡ false → same_key l k ≡ false
same_key_sym k l h = elim (Bool-cases (same_key l k)) [
  | inr e ↦ e
  | inl e ↦ let same = same_key-eq l k e in cc (h, same_key_refl k, same)
]

pub below_suc : (v : Option ℕ) (n : ℕ) → below v n ≡ true → below v (n + 1) ≡ true
below_suc none n h = refl
below_suc (some m) n h = ground arith

below-max : (v : Option ℕ) (m n : ℕ) → m ≤ n → below v m ≡ true → below v n ≡ true
below-max none m n l h = refl
below-max (some a) m n l h = ground arith

greater-le :
    (a b : Option ℕ) → (after b ≤ after (greater a b)) × (below a (after (greater a b)) ≡ true)
greater-le none b = (omega arith, refl)
greater-le (some a) none = (omega arith, ground arith)
greater-le (some a) (some b) = (ground arith, ground arith)

latest_revision-le :
    (r : Release) (rs : Table) (k : Key)
    → (after (latest_revision rs k) ≤ after (latest_revision (r ∷ rs) k))
      × ((same_key r.key k ≡ false)
          ⊎ (below r.revision (after (latest_revision (r ∷ rs) k)) ≡ true))
unfolding latest_revision
latest_revision-le r rs k = elim (Bool-cases (same_key r.key k)) [
  | inr e ↦ (rw e (omega arith), inl e)
  | inl e ↦ let (l, h) = greater-le r.revision (latest_revision rs k) in (rw e l, inr (rw e h))
]

AllBelow-le : (k : Key) (m n : ℕ) (db : Table) → m ≤ n → AllBelow k m db → AllBelow k n db
AllBelow-le k m n [] l h = tt
AllBelow-le k m n (r ∷ rs) l (inl e, h) = (inl e, AllBelow-le k m n rs l h)
AllBelow-le k m n (r ∷ rs) l (inr e, h) =
    (inr (below-max r.revision m n l e), AllBelow-le k m n rs l h)

-- The next revision of a key is above those of its releases.
pub get_next_revision-AllBelow : (db : Table) (k : Key) → AllBelow k (get_next_revision db k) db
unfolding get_next_revision
get_next_revision-AllBelow [] k = tt
get_next_revision-AllBelow (r ∷ rs) k =
    let (l, h) = latest_revision-le r rs k in
    (h, AllBelow-le k _ _ rs l (get_next_revision-AllBelow rs k))

pub and_false : (b : Bool) → (b && false) ≡ false
and_false true = refl
and_false false = refl

same_revision_sym : (a b : Option ℕ) → same_revision a b ≡ same_revision b a
same_revision_sym none none = refl
same_revision_sym none (some b) = refl
same_revision_sym (some a) none = refl
same_revision_sym (some a) (some b) = ground arith

same_revision-below : (n : ℕ) (b : Option ℕ) → below b n ≡ true → same_revision (some n) b ≡ false
same_revision-below n none h = refl
same_revision-below n (some b) h = ground arith

abbrev pub IsFree : Key → Option ℕ → Key → Option ℕ → Type 0
IsFree k a l b = (same_key k l && same_revision a b) ≡ false

pub IsFree-sym : (k l : Key) (a b : Option ℕ) → IsFree k a l b → IsFree l b k a
IsFree-sym k l a b h = elim (Bool-cases (same_key k l)) [
  | inr e ↦ rw (same_key_sym k l e) refl
  | inl e ↦
      let other : same_revision a b ≡ false = rw e at h in
      let back : same_revision b a ≡ false = (same_revision_sym b a) ∙ other in
      rw back (and_false (same_key l k))
]

Apart-sym : (r s : Release) → Apart r s → Apart s r
Apart-sym r s (d, h) = (ground arith, IsFree-sym r.key s.key r.revision s.revision h)

-- A revision above those of the key is free.
pub below-IsFree :
    (k l : Key) (n : ℕ) (b : Option ℕ)
    → (same_key l k ≡ false) ⊎ (below b n ≡ true)
    → IsFree k (some n) l b
below-IsFree k l n b (inl e) = rw (same_key_sym l k e) refl
below-IsFree k l n b (inr e) = rw (same_revision-below n b e) (and_false (same_key k l))
