-- ===== src/State/Devices.antt =====
-- src/features/device-state/middleware.ts: the devices of a request are resolved before its
-- handler runs. The cached query of a device by its uuid is an argument.
mod Laws
mod Examples
use open_balena_api.Base.{ℕ, String, Bool, Option, none, some, List, [], ◌∷◌, ◌++◌, if◌then◌else◌}

-- What the query selects.
pub record Device : Type 0 where
  pub id : ℕ
  pub is_frozen : Bool

-- The status codes of the responses.
pub record Codes : Type 0 where
  pub deleted : ℕ
  pub frozen : ℕ

-- What the middleware does: it responds with a status, or it hands the ids on to the handler.
pub data Outcome : Type 0 where
  respond : ℕ → Outcome
  next : List ℕ → Outcome

-- One pass of the loop, given what the passes after it do with the device's id.
pub check : Codes → Option Device → (ℕ → Outcome) → Outcome
check codes none rest = respond codes.deleted
check codes (some d) rest = if d.is_frozen then respond codes.frozen else rest d.id

-- The loop over the uuids, with the ids pushed so far.
pub resolve_devices : (String → Option Device) → Codes → List ℕ → List String → Outcome
resolve_devices find codes ids [] = next ids
resolve_devices find codes ids (uuid ∷ uuids) =
    check codes (find uuid) (λ i. resolve_devices find codes (ids ++ i ∷ []) uuids)

-- `resolveOrDenyDevicesWithStatus`
pub resolve_or_deny_devices_with_status : (String → Option Device) → Codes → List String → Outcome
resolve_or_deny_devices_with_status find codes [] = respond codes.deleted
resolve_or_deny_devices_with_status find codes (uuid ∷ uuids) =
    resolve_devices find codes [] (uuid ∷ uuids)
