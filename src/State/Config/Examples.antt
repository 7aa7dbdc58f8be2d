-- ===== src/State/Config/Examples.antt =====
-- The configuration of one device.
use open_balena_api.Base.{ℕ, ◌≡◌, refl, String, Option, none, some, List, [], ◌∷◌}
use open_balena_api.Base.Parse.{parse_int}
use open_balena_api.State.Config.{
  lookup, assign, remove, reject_ui_config, var_list_insert, filter_device_config, poll_interval,
  min_poll_interval, set_min_poll_interval, get_config,
}

abbrev show : Option ℕ → String
show none = "NaN"
show (some n) = "number"

abbrev device : List (String × String)
device = ("BALENA_A", "2") ∷ ("RESIN_UI_B", "x") ∷ (poll_interval, "soon") ∷ []

abbrev application : List (String × String)
application = ("BALENA_A", "1") ∷ ("RESIN_HOST_LOG_TO_DISPLAY", "0") ∷ []

get_config_example :
    get_config show 900 (some device) (some application)
    ≡ ("BALENA_A", "2") ∷ (poll_interval, "NaN") ∷ []
unfolding get_config assign remove reject_ui_config var_list_insert filter_device_config
    min_poll_interval set_min_poll_interval lookup parse_int
get_config_example = refl
