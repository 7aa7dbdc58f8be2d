-- ===== src/Names.antt =====
-- Which names and values are accepted: src/features/vars-schema/env-vars.ts for variables and
-- src/features/tags/validation.ts for tags. The lists are those of the source, without what other
-- programs add to them.
mod Laws
mod Examples
use Prim.Native.Char.{code}
use Prim.Native.String
use open_balena_api.Base.{
  ℕ, ◌==◌, leb, String, Bool, true, false, not, ◌&&◌, ◌||◌, List, [], ◌∷◌, includes, Result, ok,
  err, bad_request, if◌then◌else◌,
}
use open_balena_api.Base.Regex.{Regex, class, seq, alt, at_start, digit, word, test}

-- `name.startsWith(prefix)`
abbrev pub starts_with : String → String → Bool
starts_with String.[] name = true
starts_with (String.◌∷◌ c p) String.[] = false
starts_with (String.◌∷◌ c p) (String.◌∷◌ d s) = code c == code d && starts_with p s

unfoldable pub reserved_names : List String
reserved_names = "RESIN" ∷ "BALENA" ∷ "USER" ∷ []

unfoldable pub reserved_namespaces : List String
reserved_namespaces = "RESIN_" ∷ "BALENA_" ∷ []

-- Letters, digits, the underscore and the colon.
abbrev pub config_char : ℕ → Bool
config_char c = word c || c == b':'

abbrev pub invalid_env_var_regex : Regex
invalid_env_var_regex = alt (seq at_start (class digit)) (class (λ c. not (word c)))

abbrev pub invalid_config_var_regex : Regex
invalid_config_var_regex =
    alt (seq at_start (class (λ c. digit c || c == b':'))) (class (λ c. not (config_char c)))

abbrev pub invalid_newline_regex : Regex
invalid_newline_regex = alt (class (λ c. c == 13)) (class (λ c. c == 10))

unfoldable pub starts_with_any : List String → String → Bool
starts_with_any [] name = false
starts_with_any (n ∷ ns) name = starts_with n name || starts_with_any ns name

abbrev pub refuse_if : Bool → Result (Unit {0}) → Result (Unit {0})
refuse_if b rest = if b then err bad_request else rest

-- `checkVarName`, given what the check of its format finds.
abbrev pub check_var_name : Bool → String → Result (Unit {0}) → Result (Unit {0})
check_var_name is_malformed name rest =
    refuse_if is_malformed (refuse_if (includes reserved_names name) rest)

unfoldable pub check_config_var_name_validity : String → Result (Unit {0})
check_config_var_name_validity name =
    check_var_name (test invalid_config_var_regex name) name
      (refuse_if (not (starts_with_any reserved_namespaces name)) (ok tt))

unfoldable pub check_env_var_name_validity : String → Result (Unit {0})
check_env_var_name_validity name =
    check_var_name (test invalid_env_var_regex name) name
      (refuse_if (starts_with_any reserved_namespaces name) (ok tt))

pub check_env_var_value_validity : String → Result (Unit {0})
check_env_var_value_validity value = refuse_if (test invalid_newline_regex value) (ok tt)

-- `\s`
abbrev pub white_space : ℕ → Bool
white_space c =
    (leb 9 c && leb c 13)
    || c == 0x20
    || c == 0xa0
    || c == 0x1680
    || (leb 0x2000 c && leb c 0x200a)
    || c == 0x2028
    || c == 0x2029
    || c == 0x202f
    || c == 0x205f
    || c == 0x3000
    || c == 0xfeff

unfoldable pub tag_namespaces : List String
tag_namespaces = "io.resin." ∷ "io.balena." ∷ []

unfoldable pub check_tag_key_validity : String → Result (Unit {0})
check_tag_key_validity key =
    refuse_if (test (class white_space) key)
      (refuse_if (starts_with_any tag_namespaces key) (ok tt))
