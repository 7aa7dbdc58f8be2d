-- ===== src/Logs.antt =====
-- src/features/device-logs/lib/struct.ts: the records of the logs of a device.
pub mod Supervisor
pub mod Reader
pub mod Redis
pub mod Writer
use open_balena_api.Base.{ℕ, Bool, Option, String}

-- The text of a log: as it came, or a warning that names a count of messages.
pub data Text : Type 0 where
  plain : String → Text
  slow_reading rate_limiting : ℕ → Text

pub record InternalDeviceLog : Type 0 where
  pub nano_timestamp : ℕ
  pub timestamp : ℕ
  pub is_system : Bool
  pub is_std_err : Bool
  pub service_id : Option ℕ
  pub message : Text

pub record OutputDeviceLog : Type 0 where
  pub created_at : ℕ
  pub timestamp : ℕ
  pub is_system : Bool
  pub is_std_err : Bool
  pub service_id : Option ℕ
  pub message : Text

pub data StreamState : Type 0 where
  buffering flushing writable saturated closed : StreamState
