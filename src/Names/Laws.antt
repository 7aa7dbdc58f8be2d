-- ===== src/Names/Laws.antt =====
-- The names that are accepted, by their characters, src/features/vars-schema/env-vars.ts and
-- src/features/tags/validation.ts.
use Prim.Native.Char.{code}
use open_balena_api.Base.{
  ℕ, ◌==◌, ◌≡◌, ◌↔◌, refl, ◌∙◌, String, Bool, true, false, not, ◌&&◌, ◌||◌, includes, ok, err,
  bad_request, arith,
}
use open_balena_api.Base.Regex.{test, digit, lower, upper, word}
use open_balena_api.Base.Regex.Laws.{any_is, first_is, test-start_or_any}
use open_balena_api.Names.{
  reserved_names, reserved_namespaces, starts_with_any, refuse_if, check_config_var_name_validity,
  check_env_var_name_validity, invalid_config_var_regex,
}

-- Every character is of a class.
abbrev pub all_are : (ℕ → Bool) → String → Bool
all_are p String.[] = true
all_are p (String.◌∷◌ c s) = p (code c) && all_are p s

-- A name of letters, digits and underscores, which no digit stands first in; or none at all.
abbrev pub letter : ℕ → Bool
letter c = lower c || upper c || c == b'_'

abbrev pub is_identifier : String → Bool
is_identifier String.[] = true
is_identifier (String.◌∷◌ c s) = letter (code c) && all_are word s

any-not : (p : ℕ → Bool) (s : String) → any_is (λ c. not (p c)) s ≡ not (all_are p s)
any-not p String.[] = refl
any-not p (String.◌∷◌ c s) = rw (any-not p s) (ground arith)

malformed :
    (s : String) → (first_is digit s || any_is (λ c. not (word c)) s) ≡ not (is_identifier s)
malformed String.[] = refl
malformed (String.◌∷◌ c s) = rw (any-not word s) (ground arith)

ok_iff :
    (a b c : Bool)
    → (refuse_if (not a) (refuse_if b (refuse_if c (ok tt))) ≡ ok tt)
      ↔ ((a ≡ true) × (b ≡ false) × (c ≡ false))
ok_iff true false false = ((λ _. (refl, refl, refl)), λ _. refl)
ok_iff false b c = ((λ e. cc), λ h. cc)
ok_iff true true c = ((λ e. cc), λ h. cc)
ok_iff true false true = ((λ e. cc), λ h. cc)

-- The name of an environment variable is accepted exactly if it consists of letters, digits and
-- underscores, does not start with a digit, is not reserved and is in no reserved namespace.
pub check_env_var_name_validity_iff :
    (name : String)
    → (check_env_var_name_validity name ≡ ok tt) ↔ (
        (is_identifier name ≡ true)
        × (includes reserved_names name ≡ false)
        × (starts_with_any reserved_namespaces name ≡ false))
unfolding check_env_var_name_validity
check_env_var_name_validity_iff name =
    rw (test-start_or_any digit (λ c. not (word c)) name ∙ malformed name) (
      ok_iff (is_identifier name) (includes reserved_names name)
        (starts_with_any reserved_namespaces name))

refused : (a b : Bool) → refuse_if a (refuse_if b (err bad_request)) ≡ err bad_request
refused true b = refl
refused false true = refl
refused false false = refl

-- No name is accepted both for an environment variable and for a configuration variable.
pub check_config_var_name_validity-of_env :
    (name : String)
    → check_env_var_name_validity name ≡ ok tt
    → check_config_var_name_validity name ≡ err bad_request
unfolding check_config_var_name_validity
check_config_var_name_validity-of_env name h =
    let outside = ((check_env_var_name_validity_iff name).0 h).2 in
    rw outside (refused (test invalid_config_var_regex name) (includes reserved_names name))
