-- ===== src/Names/Examples.antt =====
-- Concrete names, src/features/vars-schema/env-vars.ts.
use open_balena_api.Base.{◌≡◌, ◌↔◌, refl, true, false, includes, ok, err, bad_request}
use open_balena_api.Names.{
  reserved_names, reserved_namespaces, starts_with_any, check_env_var_name_validity,
  check_config_var_name_validity,
}
use open_balena_api.Names.Laws.{is_identifier, check_env_var_name_validity_iff}
use open_balena_api.Base.Regex.{test}

check_env_var_name_validity_iff_example : (check_env_var_name_validity "HOST_2" ≡ ok tt) ↔ (
    (is_identifier "HOST_2" ≡ true)
    × (includes reserved_names "HOST_2" ≡ false)
    × (starts_with_any reserved_namespaces "HOST_2" ≡ false))
check_env_var_name_validity_iff_example = check_env_var_name_validity_iff "HOST_2"

digit_first : check_env_var_name_validity "2_HOST" ≡ err bad_request
unfolding check_env_var_name_validity test
digit_first = refl

reserved_prefix : check_env_var_name_validity "BALENA_X" ≡ err bad_request
unfolding check_env_var_name_validity test reserved_names reserved_namespaces starts_with_any
reserved_prefix = refl

colon : check_config_var_name_validity "RESIN_HOST:a" ≡ ok tt
unfolding check_config_var_name_validity test reserved_names reserved_namespaces starts_with_any
colon = refl
