-- ===== src/Releases/Versioning/Revisions.antt =====
-- What a new revision of one release makes of the rows, src/features/ci-cd/hooks/release-versioning.ts.
use open_balena_api.Base.{
  ℕ, ◌+◌, ◌≡◌, sym, subst, ◌⊎◌, inl, inr, ◌==◌, true, false, Bool-cases, Option, some, [], ◌∷◌, map,
  All, is_some, if◌then◌else◌, arith,
}
use open_balena_api.Releases.Versioning.{
  Key, Release, Table, same_key, number, on_row, set_revision,
}
use open_balena_api.Releases.Versioning.Rows.{
  below, below_suc, IsFree-sym, below-IsFree, Apart, IsNumbered, AllBelow, HasKey,
}

abbrev bumped : ℕ → ℕ → Option ℕ → Release → Release
bumped i n date r = on_row i (λ r. number n (if is_some date then date else r.finalized) r) r

known_key :
    (i : ℕ) (k : Key) (r : Release)
    → r.id == i ≡ true
    → (r.id == i ≡ false) ⊎ (r.key ≡ k)
    → r.key ≡ k
known_key i k r e (inl o) = cc (e, o)
known_key i k r e (inr o) = o

free_for :
    (k l : Key) (r : Release) (n : ℕ)
    → l ≡ k
    → (same_key r.key k ≡ false) ⊎ (below r.revision n ≡ true)
    → (same_key r.key l ≡ false) ⊎ (below r.revision n ≡ true)
free_for k l r n e h =
    subst (λ m. (same_key r.key m ≡ false) ⊎ (below r.revision n ≡ true)) (sym e) h

free_suc :
    (k : Key) (r : Release) (n : ℕ)
    → (same_key r.key k ≡ false) ⊎ (below r.revision n ≡ true)
    → (same_key r.key k ≡ false) ⊎ (below r.revision (n + 1) ≡ true)
free_suc k r n (inl e) = inl e
free_suc k r n (inr e) = inr (below_suc r.revision n e)

bumped-Apart :
    (i n : ℕ) (date : Option ℕ) (k : Key) (r s : Release)
    → (r.id == i ≡ false) ⊎ (r.key ≡ k)
    → (s.id == i ≡ false) ⊎ (s.key ≡ k)
    → (same_key r.key k ≡ false) ⊎ (below r.revision n ≡ true)
    → (same_key s.key k ≡ false) ⊎ (below s.revision n ≡ true)
    → Apart r s
    → Apart (bumped i n date r) (bumped i n date s)
bumped-Apart i n date k r s p q f g (d, h) = elim (Bool-cases (r.id == i)) [
  | inr e ↦ elim (Bool-cases (s.id == i)) [
    | inr o ↦ rw (e, o) (d, h)
    | inl o ↦
        let own = free_for k s.key r n (known_key i k s o q) f in
        rw (e, o)
          (
            d,
            IsFree-sym s.key r.key (some n) r.revision (below-IsFree s.key r.key n r.revision own),
          )
  ]
  | inl e ↦
      let o : s.id == i ≡ false = ground arith in
      let own = free_for k r.key s n (known_key i k r e p) g in
      rw (e, o) (d, below-IsFree r.key s.key n s.revision own)
]

bumped-AllApart :
    (i n : ℕ) (date : Option ℕ) (k : Key) (r : Release) (db : Table)
    → (r.id == i ≡ false) ⊎ (r.key ≡ k)
    → (same_key r.key k ≡ false) ⊎ (below r.revision n ≡ true)
    → HasKey db i k
    → AllBelow k n db
    → All (Apart r) db
    → All (Apart (bumped i n date r)) (map (bumped i n date) db)
bumped-AllApart i n date k r [] p q h b a = tt
bumped-AllApart i n date k r (s ∷ ss) p q (h, hs) (b, bs) (a, az) =
    (bumped-Apart i n date k r s p h q b a, bumped-AllApart i n date k r ss p q hs bs az)

bumped_free :
    (i n : ℕ) (date : Option ℕ) (k : Key) (r : Release)
    → (same_key r.key k ≡ false) ⊎ (below r.revision n ≡ true)
    → (same_key (bumped i n date r).key k ≡ false)
      ⊎ (below (bumped i n date r).revision (n + 1) ≡ true)
bumped_free i n date k r b = elim (Bool-cases (r.id == i)) [
  | inl e ↦ rw e (inr (ground arith))
  | inr e ↦ rw e (free_suc k r n b)
]

bumped_key :
    (i n : ℕ) (date : Option ℕ) (j : ℕ) (k : Key) (r : Release)
    → (r.id == j ≡ false) ⊎ (r.key ≡ k)
    → ((bumped i n date r).id == j ≡ false) ⊎ ((bumped i n date r).key ≡ k)
bumped_key i n date j k r h = elim (Bool-cases (r.id == i)) [ inl e ↦ rw e h | inr e ↦ rw e h ]

-- A release that is given a free revision leaves the table numbered.
pub set_revision-IsNumbered :
    (db : Table) (i n : ℕ) (date : Option ℕ) (k : Key)
    → HasKey db i k
    → AllBelow k n db
    → IsNumbered db
    → IsNumbered (set_revision db i n date)
unfolding set_revision
set_revision-IsNumbered [] i n date k h b w = tt
set_revision-IsNumbered (r ∷ rs) i n date k (h, hs) (b, bs) (a, w) =
    (bumped-AllApart i n date k r rs h b hs bs a, set_revision-IsNumbered rs i n date k hs bs w)

pub set_revision-AllBelow :
    (db : Table) (i n : ℕ) (date : Option ℕ) (k : Key)
    → AllBelow k n db
    → AllBelow k (n + 1) (set_revision db i n date)
unfolding set_revision
set_revision-AllBelow [] i n date k b = tt
set_revision-AllBelow (r ∷ rs) i n date k (b, bs) =
    (bumped_free i n date k r b, set_revision-AllBelow rs i n date k bs)

-- Keys and ids stay.
pub set_revision-HasKey :
    (db : Table) (i n : ℕ) (date : Option ℕ) (j : ℕ) (k : Key)
    → HasKey db j k
    → HasKey (set_revision db i n date) j k
unfolding set_revision
set_revision-HasKey [] i n date j k h = tt
set_revision-HasKey (r ∷ rs) i n date j k (h, hs) =
    (bumped_key i n date j k r h, set_revision-HasKey rs i n date j k hs)
