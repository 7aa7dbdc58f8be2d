-- ===== src/Cache/Examples.antt =====
-- A cache of one entry, src/infra/cache/multi-level-memoizee.ts.
use open_balena_api.Base.{
  ℕ, ◌==◌, ◌≡◌, refl, ap, sym, ◌∙◌, inl, inr, String, str_eq, eq_iff, Bool-cases, false, Option,
  none, some, List, [], ◌∷◌, if◌then◌else◌, arith,
}
use open_balena_api.Cache.{Manager, IsManager, Call, value_of, forget, run, run_plain}
use open_balena_api.Cache.Laws.{IsCacheable, run-run_plain}

abbrev Entry : Type 0
Entry = Option (String × Option ℕ)

abbrev find_entry : String → Entry → Option (Option ℕ)
find_entry k none = none
find_entry k (some (j, v)) = if str_eq j k then some v else none

abbrev manager : Manager Entry (Option ℕ)
manager = record { find = find_entry; keep = λ k v c. some (k, v); del = λ k c. none }

find_entry-eq :
    (k j : String) (v w : Option ℕ) → find_entry j (some (k, v)) ≡ some w → (j ≡ k) × (w ≡ v)
find_entry-eq k j v w h = elim (Bool-cases (str_eq k j)) [
  | inl e ↦ (sym ((eq_iff k j).0 e), cc (rw e at h))
  | inr e ↦ cc (rw e at h)
]

manager-IsManager : IsManager manager
manager-IsManager = record {
  find-keep = λ j k v w c h. inl (find_entry-eq k j v w h);
  find-del = λ j k w c h. cc h;
  find-deleted = λ k c. refl;
}

abbrev value : String → Option ℕ
value a = if str_eq a "nobody" then none else some 3

abbrev or_zero : Option ℕ → ℕ
or_zero none = 0
or_zero (some n) = n

three : (a : String) (v : ℕ) → value a ≡ some v → (v == 9) ≡ false
three a v h = elim (Bool-cases (str_eq a "nobody")) [
  | inl e ↦ cc (rw e at h)
  | inr e ↦ ap (λ n. n == 9) (sym (ap or_zero (rw e at h)))
]

cacheable : IsCacheable manager (λ a b. a == b) (λ a. a) (some 9) value
cacheable = record {
  undefined_same = λ v h. ground arith;
  apart = λ a v w h k. ap (λ n. v == n) (sym (ap or_zero k)) ∙ three a v h;
  keys = λ a b h. ap value h;
}

abbrev calls : List (Call manager (λ a b. a == b) (λ a. a) (some 9))
calls = value_of "nobody" ∷ value_of "nobody" ∷ forget "nobody" ∷ value_of "me" ∷ []

run-run_plain_example :
    run manager (λ a b. a == b) (λ a. a) (some 9) value calls none ≡ none ∷ none ∷ some 3 ∷ []
unfolding run_plain
run-run_plain_example =
    run-run_plain manager (λ a b. a == b) (λ a. a) (some 9) value manager-IsManager cacheable calls
      none (λ a w e. cc e)
