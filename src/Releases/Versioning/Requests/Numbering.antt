-- ===== src/Releases/Versioning/Requests/Numbering.antt =====
-- Numbering releases one after the other keeps the table numbered.
-- src/features/ci-cd/hooks/release-versioning.ts
use open_balena_api.Base.{
  ℕ, ◌+◌, ◌≡◌, refl, sym, subst, inl, inr, ◌==◌, str_eq, eq_iff, String, Bool, true, Bool-cases,
  Option, none, some, Option-cases, List, [], ◌∷◌, All, All-mono, Result, ok, err, arith,
}
use open_balena_api.Releases.Grouping.{group_by_map-AllGrouped}
use open_balena_api.Releases.Versioning.{
  Version, Semver, Key, Release, Table, Values, get_next_revision, is_different_revision,
  set_revision,
}
use open_balena_api.Releases.Versioning.Selection.{patched_version, or_else, patched_key}
use open_balena_api.Releases.Versioning.Requests.{
  assign, any_different, number_all, number_each, read_and_assign, number_group, number_variants,
  by_variant, number_applications, by_application, new_date,
}
use open_balena_api.Releases.Versioning.Rows.{
  IsNumbered, AllBelow, HasKey, get_next_revision-AllBelow,
}
use open_balena_api.Releases.Versioning.Revisions.{
  set_revision-IsNumbered, set_revision-AllBelow, set_revision-HasKey,
}

-- The rows keep their keys.
abbrev pub Keeps : Table → Table → Type 0
Keeps db db' = (i : ℕ) (k : Key) → HasKey db i k → HasKey db' i k

abbrev pub Fine : Table → Table → Type 0
Fine db db' = IsNumbered db' × Keeps db db'

Fine-trans : (a b c : Table) → Fine a b → Fine b c → Fine a c
Fine-trans a b c (x, f) (y, g) = (y, λ i k h. g i k (f i k h))

equal_numbers : (a b : ℕ) → (a == b) ≡ true → a ≡ b
equal_numbers a b h = ground arith

bind_ok :
    {A B : Type 0} (m : Result A) (f : A → Result B) (out : B)
    → (elim m [ err e ↦ err e | ok a ↦ f a ]) ≡ ok out
    → (a : A) × (m ≡ ok a) × (f a ≡ ok out)
bind_ok (ok a) f out h = (a, refl, h)
bind_ok (err e) f out h = cc h

pub assigned :
    (parse : String → Option Semver) (show : ℕ → String)
    → (db out : Table) (k : Key) (build : List String) (i : ℕ) (date : Option ℕ) → HasKey db i k
    → IsNumbered db
    → assign parse show db k build i date ≡ ok out
    → Fine db out
unfolding assign
assigned parse show db out k build i date h w e =
    let n = get_next_revision db k in
    elim (Bool-cases (is_different_revision (show n) build)) [
      | inl d ↦ cc (rw d at e)
      | inr d ↦
          let same : set_revision db i n date ≡ out = cc (rw d at e) in
          subst (Fine db) same (
            set_revision-IsNumbered db i n date k h (get_next_revision-AllBelow db k) w,
            λ j l g. set_revision-HasKey db i n date j l g,
          )
    ]

module _ (parse : String → Option Semver) (show : ℕ → String) (final : Option Bool) (now : ℕ) where
  number_all-Fine :
      (rs : Table) (n : ℕ) (db : Table) (k : Key)
      → AllBelow k n db
      → All (λ s. HasKey db s.id k) rs
      → IsNumbered db
      → Fine db (number_all parse show final now rs n db)
  unfolding number_all
  number_all-Fine [] n db k b h w = (w, λ i l g. g)
  number_all-Fine (r ∷ rs) n db k b (h, hs) w =
      let date = new_date final now r in
      let db' = set_revision db r.id n date in
      let keeps : Keeps db db' = λ j l g. set_revision-HasKey db r.id n date j l g in
      Fine-trans db db' _ (set_revision-IsNumbered db r.id n date k h b w, keeps)
        (number_all-Fine rs (n + 1) db' k (set_revision-AllBelow db r.id n date k b)
          (All-mono (λ s g. keeps s.id k g) rs hs) (set_revision-IsNumbered db r.id n date k h b w))

module _ (parse : String → Option Semver) (show : ℕ → String) (semver_of : Release → String)
    (final : Option Bool) (now : ℕ) (p : Values) where
  -- The row of a chosen release has its new key, which has this application and variant.
  abbrev Member : Option Semver → Table → ℕ → String → Release → Type 0
  Member v db a w s =
      HasKey db s.id (patched_key p v s.key)
      × (or_else p.application s.key.application ≡ a)
      × (or_else p.variant s.key.variant ≡ w)

  abbrev Reads : Type 0
  Reads = (s : Release) (v : Semver) → parse (semver_of s) ≡ some v → v.version ≡ s.key.version

  Member-key :
      (v : Option Semver) (db : Table) (a : ℕ) (w : String) (s : Release)
      → Member v db a w s
      → HasKey db s.id
          (record { application = a; version = patched_version v s.key.version; variant = w })
  Member-key v db a w s (h, e, f) =
      let same : patched_key p v s.key
          ≡ record { application = a; version = patched_version v s.key.version; variant = w } =
        λ i. record {
          application = e i;
          version = patched_version v s.key.version;
          variant = f i;
        } in
      subst (HasKey db s.id) same h

  Member-mono :
      (v : Option Semver) (db db' : Table) (a : ℕ) (w : String)
      → Keeps db db'
      → (s : Release) → Member v db a w s
      → Member v db' a w s
  Member-mono v db db' a w keeps s (h, e, f) = (keeps s.id (patched_key p v s.key) h, e, f)

  read_and_assign-Fine :
      (reads : Reads) (a : ℕ) (w : String) (r : Release) (db out : Table)
      → Member none db a w r
      → IsNumbered db
      → read_and_assign parse show semver_of final now (parse (semver_of r)) a w r db ≡ ok out
      → Fine db out
  read_and_assign-Fine reads a w r db out h n e = elim (Option-cases (parse (semver_of r))) [
    | inl o ↦ cc (rw o at e)
    | inr (v, o) ↦
        let key =
          λ (x : Version). HasKey db r.id (record { application = a; version = x; variant = w }) in
        let own = subst key (sym (reads r v o)) (Member-key none db a w r h) in
        assigned parse show db out _ v.build r.id (new_date final now r) own n (rw o at e)
  ]

  number_each-Fine :
      (reads : Reads) (a : ℕ) (w : String) (rs db out : Table)
      → All (Member none db a w) rs
      → IsNumbered db
      → number_each parse show semver_of final now a w rs db ≡ ok out
      → Fine db out
  unfolding number_each
  number_each-Fine reads a w [] db out h n e =
      let same : db ≡ out = cc e in subst (Fine db) same (n, λ i k g. g)
  number_each-Fine reads a w (r ∷ rs) db out (h, hs) n e =
      let (db', now_ok, later_ok) =
        bind_ok _ (number_each parse show semver_of final now a w rs) out e in
      let (n', keeps) = read_and_assign-Fine reads a w r db db' h n now_ok in
      Fine-trans db db' out (n', keeps)
        (number_each-Fine reads a w rs db' out (All-mono (Member-mono none db db' a w keeps) rs hs)
          n' later_ok)

  number_group-Fine :
      (reads : Reads) (v : Option Semver) (a : ℕ) (w : String) (rs db out : Table)
      → All (Member v db a w) rs
      → IsNumbered db
      → number_group parse show semver_of final now v a w rs db ≡ ok out
      → Fine db out
  unfolding number_group
  number_group-Fine reads none a w rs db out h n e = number_each-Fine reads a w rs db out h n e
  number_group-Fine reads (some v) a w rs db out h n e =
      let k : Key = record { application = a; version = v.version; variant = w } in
      let first = get_next_revision db k in
      elim (Bool-cases (any_different parse show v first rs)) [
        | inl d ↦ cc (rw d at e)
        | inr d ↦
            let same : number_all parse show final now rs first db ≡ out = cc (rw d at e) in
            subst (Fine db) same (
              number_all-Fine parse show final now rs first db k (get_next_revision-AllBelow db k)
                (All-mono (Member-key (some v) db a w) rs h) n)
      ]

  abbrev Groups : {K : Type 0} → (K → Release → Type 0) → List (K × Table) → Type 0
  Groups P gs = All (λ g. All (P g.0) g.1) gs

  Groups-mono :
      {K : Type 0} (P Q : K → Release → Type 0)
      → ((k : K) (s : Release) → P k s → Q k s)
      → (gs : List (K × Table)) → Groups P gs
      → Groups Q gs
  Groups-mono P Q f gs h = All-mono (λ g q. All-mono (f g.0) g.1 q) gs h

  number_variants-Fine :
      (reads : Reads) (v : Option Semver) (a : ℕ) (gs : List (String × Table)) (db out : Table)
      → Groups (Member v db a) gs
      → IsNumbered db
      → number_variants parse show semver_of final now v a gs db ≡ ok out
      → Fine db out
  unfolding number_variants
  number_variants-Fine reads v a [] db out h n e =
      let same : db ≡ out = cc e in subst (Fine db) same (n, λ i k g. g)
  number_variants-Fine reads v a ((w, rs) ∷ gs) db out (h, hs) n e =
      let (db', now_ok, later_ok) =
        bind_ok _ (number_variants parse show semver_of final now v a gs) out e in
      let (n', keeps) = number_group-Fine reads v a w rs db db' h n now_ok in
      Fine-trans db db' out (n', keeps)
        (number_variants-Fine reads v a gs db' out
          (Groups-mono (Member v db a) (Member v db' a) (λ x. Member-mono v db db' a x keeps) gs hs)
          n' later_ok)

  -- A release of a group of one application.
  abbrev Owned : Option Semver → Table → ℕ → Release → Type 0
  Owned v db a s =
      HasKey db s.id (patched_key p v s.key) × (or_else p.application s.key.application ≡ a)

  by_variant-Member :
      (v : Option Semver) (db : Table) (a : ℕ) (o : Option String) (rs : Table)
      → p.variant ≡ o
      → All (Owned v db a) rs
      → Groups (Member v db a) (by_variant o rs)
  by_variant-Member v db a none rs e h =
      group_by_map-AllGrouped str_eq (Member v db a) (λ r. r.key.variant) rs
        (All-mono
          (λ s q.
            (λ j o. (q.0, q.1, rw e (sym ((eq_iff j s.key.variant).0 o))), (q.0, q.1, rw e refl)))
          rs h)
  by_variant-Member v db a (some w) rs e h = (All-mono (λ s q. (q.0, q.1, rw e refl)) rs h, tt)

  number_applications-Fine :
      (reads : Reads) (v : Option Semver) (gs : List (ℕ × Table)) (db out : Table)
      → Groups (Owned v db) gs
      → IsNumbered db
      → number_applications parse show semver_of final now v p.variant gs db ≡ ok out
      → Fine db out
  unfolding number_applications
  number_applications-Fine reads v [] db out h n e =
      let same : db ≡ out = cc e in subst (Fine db) same (n, λ i k g. g)
  number_applications-Fine reads v ((a, rs) ∷ gs) db out (h, hs) n e =
      let (db', now_ok, later_ok) =
        bind_ok _ (number_applications parse show semver_of final now v p.variant gs) out e in
      let members = by_variant-Member v db a p.variant rs refl h in
      let (n', keeps) =
        number_variants-Fine reads v a (by_variant p.variant rs) db db' members n now_ok in
      Fine-trans db db' out (n', keeps)
        (number_applications-Fine reads v gs db' out
          (Groups-mono (Owned v db) (Owned v db')
            (λ x s q. (keeps s.id (patched_key p v s.key) q.0, q.1)) gs hs)
          n' later_ok)

  by_application-Owned :
      (v : Option Semver) (db : Table) (o : Option ℕ) (rs : Table)
      → p.application ≡ o
      → All (λ s. HasKey db s.id (patched_key p v s.key)) rs
      → Groups (Owned v db) (by_application o rs)
  by_application-Owned v db none rs e h =
      group_by_map-AllGrouped (λ (a b : ℕ). a == b) (Owned v db) (λ r. r.key.application) rs
        (All-mono
          (λ s q. (λ j o. (q, rw e (sym (equal_numbers j s.key.application o))), (q, rw e refl))) rs
          h)
  by_application-Owned v db (some a) rs e h = (All-mono (λ s q. (q, rw e refl)) rs h, tt)

  -- However the chosen releases are grouped, the table stays numbered.
  pub number_applications-IsNumbered :
      (reads : Reads) (v : Option Semver) (chosen db out : Table)
      → All (λ s. HasKey db s.id (patched_key p v s.key)) chosen
      → IsNumbered db
      → number_applications parse show semver_of final now v p.variant
          (by_application p.application chosen)
          db
        ≡ ok out
      → IsNumbered out
  number_applications-IsNumbered reads v chosen db out h n e =
      (number_applications-Fine reads v (by_application p.application chosen) db out
        (by_application-Owned v db p.application chosen refl h) n e).0
