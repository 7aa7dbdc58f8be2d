-- ===== src/Heartbeat/Interval.antt =====
-- `getPollInterval` of src/features/device-heartbeat/index.ts. What the two database queries find
-- is an argument of the function.
use open_balena_api.Base.{
  ℕ, ◌*◌, ◌≤◌, Option, none, some, List, [], ◌∷◌, String, arith, str_eq, if◌then◌else◌,
}
use open_balena_api.Base.Parse.{parse_int, at_least}

abbrev pub Vars : Type 0
Vars = List (String × String)

pub lookup : String → Vars → Option String
lookup k [] = none
lookup k ((j, v) ∷ r) = if str_eq j k then some v else lookup k r

-- `a ?? b`
abbrev pub or_else {ℓ} : {A : Type ℓ} → Option A → Option A → Option A
or_else none b = b
or_else (some a) b = some a

-- The text of the poll interval: from the configuration that the request brought, or else from the
-- device's variable, or else from its application's.
pub poll_interval_string : Option Vars → Option String → Option String → Option String
unfolding lookup
poll_interval_string (some config) device application =
    or_else (lookup "RESIN_SUPERVISOR_POLL_INTERVAL" config)
      (lookup "BALENA_SUPERVISOR_POLL_INTERVAL" config)
poll_interval_string none device application = or_else device application

-- `pollInterval`, before the jitter: at least the default, also where the text is no number.
interval_of : ℕ → Option String → ℕ
interval_of default none = default
interval_of default (some v) = at_least default (parse_int v)

-- `getPollInterval`, in halves of a millisecond: the factor of the jitter is 3 / 2.
unfoldable pub get_poll_interval : ℕ → Option Vars → Option String → Option String → ℕ
unfolding poll_interval_string interval_of
get_poll_interval default config device application =
    3 * interval_of default (poll_interval_string config device application)

interval_of_lower : (default : ℕ) (v : Option String) → default ≤ interval_of default v
unfolding interval_of
interval_of_lower default none = omega arith
interval_of_lower default (some v) = ground (arith)

-- Whatever the variables hold, a device is given at least one and a half times the default interval.
pub get_poll_interval_lower :
    (default : ℕ) (config : Option Vars) (device application : Option String)
    → 3 * default ≤ get_poll_interval default config device application
unfolding get_poll_interval
get_poll_interval_lower default config device application =
    omega (arith, interval_of_lower default (poll_interval_string config device application))
