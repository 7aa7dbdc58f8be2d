-- ===== src/State/Config.antt =====
-- `getConfig` of src/features/device-state/state-get-utils.ts: the configuration variables that a
-- device is given.
pub mod Laws
mod Examples
use Prim.Native.Nat.{ℕ}
use open_balena_api.Base.{
  str_eq, String, Bool, not, Option, none, some, List, [], ◌∷◌, if◌then◌else◌, max,
}
use open_balena_api.Base.Parse.{parse_int, Signed}
use open_balena_api.Base.Regex.{Regex, at_start, alt, all_of, literal, test}

-- The configuration as an object: the names in the order in which they were set first.
abbrev pub Vars : Type 0
Vars = List (String × String)

unfoldable pub lookup : String → Vars → Option String
lookup k [] = none
lookup k ((j, v) ∷ r) = if str_eq j k then some v else lookup k r

-- `obj[k] = v`
unfoldable pub assign : String → String → Vars → Vars
assign k v [] = (k, v) ∷ []
assign k v ((j, w) ∷ r) = if str_eq j k then (j, v) ∷ r else (j, w) ∷ assign k v r

-- `delete obj[k]`
unfoldable pub remove : String → Vars → Vars
remove k [] = []
remove k ((j, w) ∷ r) = if str_eq j k then remove k r else (j, w) ∷ remove k r

-- /^(BALENA|RESIN)_UI/
abbrev ui_regex : Regex
ui_regex = all_of (at_start ∷ alt (literal "BALENA") (literal "RESIN") ∷ literal "_UI" ∷ [])

pub reject_ui_config : String → Bool
unfolding test
reject_ui_config name = not (test ui_regex name)

pub var_list_insert : (String → Bool) → List (String × String) → Vars → Vars
var_list_insert p [] obj = obj
var_list_insert p ((k, v) ∷ l) obj = var_list_insert p l (if p k then assign k v obj else obj)

abbrev pub log_to_display : String
log_to_display = "RESIN_HOST_LOG_TO_DISPLAY"

pub filter_device_config : Vars → Vars
filter_device_config config = remove log_to_display config

abbrev pub poll_interval : String
poll_interval = "RESIN_SUPERVISOR_POLL_INTERVAL"

abbrev none_list : Option (List (String × String)) → List (String × String)
none_list none = []
none_list (some l) = l

-- The number of a text, if `parseInt` finds one that is not negative.
abbrev natural : Option Signed → Option ℕ
natural none = none
natural (some n) = if n.negative then some 0 else some n.magnitude

-- How a number, or NaN, is written as a text.
module _ (show : Option ℕ → String) (default : ℕ) where
  -- `Math.max(pollInterval, default)`, which is NaN where the text is no number
  pub min_poll_interval : Option String → Option ℕ
  min_poll_interval none = some (max 0 default)
  min_poll_interval (some v) = elim (natural (parse_int v)) [
    | none ↦ none
    | some n ↦ some (max n default)
  ]

  -- The one function of `defaultConfigVariableFns`.
  pub set_min_poll_interval : Vars → Vars
  set_min_poll_interval config =
      assign poll_interval (show (min_poll_interval (lookup poll_interval config))) config

  -- The variables of the application, if there is one, under those of the device.
  pub get_config : Option (List (String × String)) → Option (List (String × String)) → Vars
  get_config device application = set_min_poll_interval (
      filter_device_config (
        var_list_insert reject_ui_config (none_list device)
          (var_list_insert reject_ui_config (none_list application) [])))
