-- ===== src/Logs/Supervisor.antt =====
-- src/features/device-logs/lib/supervisor.ts: the logs of a request, checked and converted.
mod Laws
mod Examples
use open_balena_api.Base.{
  ℕ, suc, ltb, ◌==◌, str_eq, String, Bool, true, false, not, ◌||◌, Option, none, some, List, [],
  ◌∷◌, length, if◌then◌else◌, Result, ok, err, bad_request,
}
use open_balena_api.Logs.{InternalDeviceLog, plain}

-- A field of a parsed JSON object. A number stands for a time in milliseconds or an id.
pub data Value : Type 0 where
  undefined null : Value
  boolean : Bool → Value
  number : ℕ → Value
  text : String → Value
  object : Value

pub record SupervisorLog : Type 0 where
  pub message : Value
  pub timestamp : Value
  pub is_system : Value
  pub is_std_err : Value
  -- `none` where the key is not in the object
  pub service_id : Option Value
  pub uuid : Value
  -- `is_stderr`, `is_system` and `image_id` of old supervisors
  pub old_is_stderr : Value
  pub old_is_system : Value
  pub old_image_id : Value

abbrev pub max_logs_per_batch : ℕ
max_logs_per_batch = 10

abbrev pub is_truthy : Value → Bool
is_truthy undefined = false
is_truthy null = false
is_truthy (boolean b) = b
is_truthy (number n) = not (n == 0)
is_truthy (text s) = not (str_eq s "")
is_truthy object = true

-- `v != null`
abbrev pub is_given : Value → Bool
is_given undefined = false
is_given null = false
is_given _ = true

-- `v === true`
abbrev is_true : Value → Bool
is_true (boolean b) = b
is_true _ = false

infixl 5 ◌>>=◌
abbrev ◌>>=◌ {ℓ κ} : {A : Type ℓ} {B : Type κ} → Result A → (A → Result B) → Result B
ok a >>= f = f a
err e >>= f = err e

-- `typeof v !== 'string'` throws
abbrev as_string : Value → Result String
as_string (text s) = ok s
as_string _ = err bad_request

abbrev as_number : Value → Result ℕ
as_number (number n) = ok n
as_number _ = err bad_request

abbrev as_service : Option Value → Result (Option ℕ)
as_service none = ok none
as_service (some v) = do n ← as_number v; ok (some n)

pub is_old_log : SupervisorLog → Bool
is_old_log l = is_given l.old_is_stderr || is_given l.old_is_system || is_given l.old_image_id

-- The log of a dependent device is passed over.
pub convert_log : ℕ → SupervisorLog → Result (Option InternalDeviceLog)
convert_log nano l = if is_truthy l.uuid then ok none else (do
  message ← as_string l.message
  timestamp ← as_number l.timestamp
  service ← as_service l.service_id
  ok (
      some (record {
        nano_timestamp = nano;
        timestamp = timestamp;
        is_system = is_true l.is_system;
        is_std_err = is_true l.is_std_err;
        service_id = service;
        message = plain message;
      })))

convert_any_log : ℕ → SupervisorLog → Result (Option InternalDeviceLog)
convert_any_log nano l = if is_old_log l then err bad_request else convert_log nano l

abbrev pub prepend : Option InternalDeviceLog → List InternalDeviceLog → List InternalDeviceLog
prepend none ls = ls
prepend (some l) ls = l ∷ ls

-- `logs.values().map(convertAnyLog).filter(…).toArray()`. The clock gives the time of each call.
convert_each : (ℕ → ℕ) → ℕ → List SupervisorLog → Result (List InternalDeviceLog)
convert_each clock i [] = ok []
convert_each clock i (l ∷ ls) =
    let rest = convert_each clock (suc i) ls in
    do first ← convert_any_log (clock i) l; others ← rest; ok (prepend first others)

unfoldable pub convert_logs : (ℕ → ℕ) → List SupervisorLog → Result (List InternalDeviceLog)
unfolding convert_each convert_any_log convert_log is_old_log
convert_logs clock ls =
    if ltb max_logs_per_batch (length ls) then err bad_request else convert_each clock 0 ls
