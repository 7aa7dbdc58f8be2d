-- ===== src/Supervisor/Order.antt =====
-- The choice of a supervisor release, `getSupervisorReleaseResource` of
-- src/features/supervisor-app/hooks/supervisor-app.ts.
use open_balena_api.Base.{
  ℕ, ◌≡◌, refl, ap, sym, subst, inl, inr, ltb, Bool, true, false, not, ◌&&◌, ◌||◌, Bool-cases,
  Option, none, some, List, [], ◌∷◌, ◌++◌, keep, if◌then◌else◌, All, All-mono, arith,
}
use open_balena_api.Supervisor.{
  Release, before, top, first_of, revision_before, same_revision, same_bool,
}

unfoldable pub rest_before : Option ℕ → Option ℕ → ℕ → ℕ → Bool
rest_before a b s t = revision_before a b || (same_revision a b && ltb t s)

rest_asym : (a b : Option ℕ) (s t : ℕ) → rest_before a b s t ≡ true → rest_before b a t s ≡ false
unfolding rest_before
rest_asym none none s t h = ground (arith, h)
rest_asym none (some b) s t h = refl
rest_asym (some a) none s t h = ground (arith, h)
rest_asym (some a) (some b) s t h = ground (arith, h)

rest_trans :
    (a b c : Option ℕ) (s t u : ℕ)
    → rest_before a b s t ≡ false
    → rest_before b c t u ≡ false
    → rest_before a c s u ≡ false
unfolding rest_before
rest_trans none none none s t u h k = ground (arith, h, k)
rest_trans none none (some c) s t u h k = ground (arith, h, k)
rest_trans none (some b) none s t u h k = ground (arith, h, k)
rest_trans none (some b) (some c) s t u h k = ground (arith, h, k)
rest_trans (some a) none none s t u h k = ground (arith, h, k)
rest_trans (some a) none (some c) s t u h k = ground (arith, h, k)
rest_trans (some a) (some b) none s t u h k = ground (arith, h, k)
rest_trans (some a) (some b) (some c) s t u h k = ground (arith, h, k)

unfoldable pub lex : Bool → Bool → Bool → Bool
lex a b x = (a && not b) || (same_bool a b && x)

lex_asym : (a b x y : Bool) → (x ≡ true → y ≡ false) → lex a b x ≡ true → lex b a y ≡ false
unfolding lex
lex_asym true true x y f h = f h
lex_asym true false x y f h = refl
lex_asym false true x y f h = ground (arith, h)
lex_asym false false x y f h = f h

lex_trans :
    (a b c x y z : Bool)
    → (x ≡ false → y ≡ false → z ≡ false)
    → lex a b x ≡ false
    → lex b c y ≡ false
    → lex a c z ≡ false
unfolding lex
lex_trans true true true x y z f h k = f h k
lex_trans true true false x y z f h k = ground (arith, h, k)
lex_trans true false true x y z f h k = ground (arith, h, k)
lex_trans true false false x y z f h k = ground (arith, h, k)
lex_trans false true true x y z f h k = refl
lex_trans false true false x y z f h k = ground (arith, h, k)
lex_trans false false true x y z f h k = refl
lex_trans false false false x y z f h k = f h k

before_asym : (q r : Release) → before q r ≡ true → before r q ≡ false
unfolding before lex rest_before
before_asym q r =
    lex_asym q.is_final r.is_final (rest_before q.revision r.revision q.created_at r.created_at)
      (rest_before r.revision q.revision r.created_at q.created_at)
      (rest_asym q.revision r.revision q.created_at r.created_at)

before_trans : (p q r : Release) → before p q ≡ false → before q r ≡ false → before p r ≡ false
unfolding before lex rest_before
before_trans p q r =
    lex_trans p.is_final q.is_final r.is_final
      (rest_before p.revision q.revision p.created_at q.created_at)
      (rest_before q.revision r.revision q.created_at r.created_at)
      (rest_before p.revision r.revision p.created_at r.created_at)
      (rest_trans p.revision q.revision r.revision p.created_at q.created_at r.created_at)

before_irrefl : (r : Release) → before r r ≡ false
before_irrefl r = elim (Bool-cases (before r r)) [ inl h ↦ before_asym r r h | inr h ↦ h ]

abbrev pub IsIn : Release → List Release → Type 0
IsIn r rs = (xs : List Release) × (ys : List Release) × (rs ≡ xs ++ r ∷ ys)

IsIn-first : (r : Release) (rs : List Release) → IsIn r (r ∷ rs)
IsIn-first r rs = ([], rs, refl)

IsIn-skip : {q : Release} {rs : List Release} (r : Release) → IsIn q rs → IsIn q (r ∷ rs)
IsIn-skip r (xs, ys, e) = (r ∷ xs, ys, ap (λ t. r ∷ t) e)

-- What is found is in the list and has the property, and nothing with the property is before it.
abbrev pub IsFirst : (Release → Bool) → List Release → Option Release → Type 0
IsFirst p rs none = All (λ q. p q ≡ false) rs
IsFirst p rs (some r) = IsIn r rs × (p r ≡ true) × All (λ q. p q ≡ true → before q r ≡ false) rs

IsFirst-skip :
    (p : Release → Bool) (rs : List Release) (r : Release) (o : Option Release)
    → p r ≡ false
    → IsFirst p rs o
    → IsFirst p (r ∷ rs) o
IsFirst-skip p rs r none e h = (e, h)
IsFirst-skip p rs r (some s) e (m, t, h) = (IsIn-skip r m, t, ((λ k. cc (e, k)), h))

IsFirst-first_of :
    (p : Release → Bool) (rs : List Release) (r : Release) (o : Option Release)
    → p r ≡ true
    → IsFirst p rs o
    → IsFirst p (r ∷ rs) (some (first_of o r))
IsFirst-first_of p rs r none e h =
    (IsIn-first r rs, e, ((λ k. before_irrefl r), All-mono (λ q f k. cc (f, k)) rs h))
IsFirst-first_of p rs r (some s) e (m, t, h) = elim (Bool-cases (before s r)) [
  | inl f ↦
      subst (λ b. IsFirst p (r ∷ rs) (some (if b then s else r))) (sym f)
        (IsIn-skip r m, t, ((λ k. before_asym s r f), h))
  | inr f ↦
      subst (λ b. IsFirst p (r ∷ rs) (some (if b then s else r))) (sym f)
        (
          IsIn-first r rs,
          e,
          ((λ k. before_irrefl r), All-mono (λ q g k. before_trans q s r (g k) f) rs h),
        )
]

pub top-IsFirst : (p : Release → Bool) (rs : List Release) → IsFirst p rs (top (keep p rs))
unfolding top
top-IsFirst p [] = tt
top-IsFirst p (r ∷ rs) = elim (Bool-cases (p r)) [
  | inl e ↦
      subst (λ b. IsFirst p (r ∷ rs) (top (if b then r ∷ keep p rs else keep p rs))) (sym e)
        (IsFirst-first_of p rs r (top (keep p rs)) e (top-IsFirst p rs))
  | inr e ↦
      subst (λ b. IsFirst p (r ∷ rs) (top (if b then r ∷ keep p rs else keep p rs))) (sym e)
        (IsFirst-skip p rs r (top (keep p rs)) e (top-IsFirst p rs))
]
