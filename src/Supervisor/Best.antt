-- ===== src/Supervisor/Best.antt =====
-- Which supervisor release `getSupervisorReleaseResource` of
-- src/features/supervisor-app/hooks/supervisor-app.ts finds.
use open_balena_api.Base.{
  ◌≤◌, String, eq_iff, ℕ, ◌≡◌, refl, Bool, true, false, Option, none, some, List, keep, String, All,
  All-mono, arith,
}
use open_balena_api.Names.{starts_with}
use open_balena_api.Supervisor.{
  Release, ends_with, is_supervisor_of, before, top, is_supervisor_of,
  get_supervisor_release_resource,
}
use open_balena_api.Supervisor.Order.{rest_before, lex, IsFirst, IsIn, top-IsFirst}

-- A revision that is no lower in the order of the query, which has a missing one first.
abbrev pub IsNoLower : Option ℕ → Option ℕ → Type 0
IsNoLower none b = Unit
IsNoLower (some a) none = ⊥
IsNoLower (some a) (some b) = b ≤ a

-- The first of the two is final if the other is; between two final ones or two drafts its revision is no
-- lower, and with the same revision it is not older.
abbrev pub IsPreferred : Release → Release → Type 0
IsPreferred r q =
    (q.is_final ≡ true → r.is_final ≡ true)
    × (r.is_final ≡ q.is_final
        → IsNoLower r.revision q.revision × (r.revision ≡ q.revision → q.created_at ≤ r.created_at))

-- A successful release of the version, by a public application that is no host and is named as those of
-- supervisors are, for the architecture.
abbrev pub IsSuitable : String → ℕ → Release → Type 0
IsSuitable version arch r =
    (r.semver ≡ version)
    × (r.is_successful ≡ true)
    × (starts_with "balena_os/" r.application_slug ≡ true)
    × (ends_with "-supervisor" r.application_slug ≡ true)
    × (r.is_public ≡ true)
    × (r.is_host ≡ false)
    × (r.cpu_architecture ≡ arch)

IsSuitable-by :
    (version : String) (arch : ℕ) (r : Release)
    → is_supervisor_of version arch r ≡ true
    → IsSuitable version arch r
IsSuitable-by version arch r h = (
  ground (arith, h, eq_iff r.semver version),
  ground (arith, h),
  ground (arith, h),
  ground (arith, h),
  ground (arith, h),
  ground (arith, h),
  ground (arith, h),
)

by_suitable :
    (version : String) (arch : ℕ) (r : Release)
    → IsSuitable version arch r
    → is_supervisor_of version arch r ≡ true
by_suitable version arch r (a, b, c, d, e, f, g) =
    ground (arith, a, b, c, d, e, f, g, eq_iff r.semver version)

preferred_rest :
    (a b : Option ℕ) (s t : ℕ) → rest_before b a t s ≡ false → IsNoLower a b × (a ≡ b → t ≤ s)
unfolding rest_before
preferred_rest none none s t h = (tt, λ e. ground (arith, h))
preferred_rest none (some b) s t h = (tt, λ e. cc e)
preferred_rest (some a) none s t h = cc h
preferred_rest (some a) (some b) s t h = (ground (arith, h), λ e. ground (arith, h, e))

preferred_lex : (a b x : Bool) → lex b a x ≡ false → (b ≡ true → a ≡ true) × (a ≡ b → x ≡ false)
unfolding lex
preferred_lex true true x h = ((λ e. refl), λ e. h)
preferred_lex true false x h = ((λ e. refl), λ e. cc e)
preferred_lex false true x h = cc h
preferred_lex false false x h = ((λ e. e), λ e. h)

IsPreferred-by : (r q : Release) → before q r ≡ false → IsPreferred r q
unfolding before lex rest_before
IsPreferred-by r q h =
    let (f, g) =
      preferred_lex r.is_final q.is_final
        (rest_before q.revision r.revision q.created_at r.created_at) h in
    (f, λ e. preferred_rest r.revision q.revision r.created_at q.created_at (g e))

-- None is suitable, or a suitable one of the list is preferred to all of them.
abbrev pub IsBest : String → ℕ → List Release → Option Release → Type 0
IsBest version arch rs none = All (λ q. IsSuitable version arch q → ⊥) rs
IsBest version arch rs (some r) =
    IsIn r rs
    × IsSuitable version arch r
    × All (λ q. IsSuitable version arch q → IsPreferred r q) rs

IsBest-by :
    (version : String) (arch : ℕ) (rs : List Release) (o : Option Release)
    → IsFirst (is_supervisor_of version arch) rs o
    → IsBest version arch rs o
IsBest-by version arch rs none h = All-mono (λ q e k. cc (e, by_suitable version arch q k)) rs h
IsBest-by version arch rs (some r) (m, t, h) = (
  m,
  IsSuitable-by version arch r t,
  All-mono (λ q f k. IsPreferred-by r q (f (by_suitable version arch q k))) rs h,
)

-- The supervisor release that is found for a version and an architecture is a successful release of that
-- version by a public application for the architecture that is no host and has the name of one of
-- supervisors, and of all these it is preferred: a final one to a draft, then one without a revision
-- or else with the highest, and then the latest. None is found exactly if there is none.
pub get_supervisor_release_resource-IsBest :
    (rs : List Release) (version : String) (arch : ℕ)
    → IsBest version arch rs (get_supervisor_release_resource rs version arch)
unfolding get_supervisor_release_resource
get_supervisor_release_resource-IsBest rs version arch =
    IsBest-by version arch rs (top (keep (is_supervisor_of version arch) rs))
      (top-IsFirst (is_supervisor_of version arch) rs)
