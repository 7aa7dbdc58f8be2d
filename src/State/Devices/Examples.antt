-- ===== src/State/Devices/Examples.antt =====
-- The middleware of src/features/device-state/middleware.ts on concrete requests.
use open_balena_api.Base.{
  ◌≡◌, refl, ◌≢◌, str_eq, String, true, false, Option, none, some, List, [], ◌∷◌, if◌then◌else◌,
}
use open_balena_api.State.Devices.{
  Device, Codes, next, check, resolve_devices, resolve_or_deny_devices_with_status,
}
use open_balena_api.State.Devices.Laws.{AllActive, resolve-next}

abbrev find : String → Option Device
find u =
    if str_eq u "a"
    then some (record { id = 7; is_frozen = false })
    else if str_eq u "b"
    then some (record { id = 8; is_frozen = true })
    else none

abbrev codes : Codes
codes = record { deleted = 200; frozen = 401 }

abbrev one : List String
one = "a" ∷ []

resolve_one : resolve_or_deny_devices_with_status find codes one ≡ next (7 ∷ [])
unfolding resolve_or_deny_devices_with_status resolve_devices check
resolve_one = refl

resolve-next_example : (one ≢ []) × AllActive find one (7 ∷ [])
resolve-next_example = resolve-next find codes one (7 ∷ []) resolve_one
