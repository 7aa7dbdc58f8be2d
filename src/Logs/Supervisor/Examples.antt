-- ===== src/Logs/Supervisor/Examples.antt =====
-- Batches of logs.
use open_balena_api.Base.{◌≡◌, refl, ◌≤◌, ◌↔◌, true, false, none, List, [], ◌∷◌, length, All, ok}
use open_balena_api.Logs.{InternalDeviceLog, plain}
use open_balena_api.Logs.Supervisor.{
  undefined, boolean, number, text, SupervisorLog, convert_logs, max_logs_per_batch,
}
use open_balena_api.Logs.Supervisor.Laws.{IsAccepted, convert_logs_iff}

abbrev plain_log : SupervisorLog
plain_log = record {
  message = text "hello";
  timestamp = number 5;
  is_system = undefined;
  is_std_err = boolean true;
  service_id = none;
  uuid = undefined;
  old_is_stderr = undefined;
  old_is_system = undefined;
  old_image_id = undefined;
}

abbrev batch : List SupervisorLog
batch = plain_log ∷ record plain_log { uuid = text "d" } ∷ []

abbrev converted : List InternalDeviceLog
converted =
    record {
      nano_timestamp = 0;
      timestamp = 5;
      is_system = false;
      is_std_err = true;
      service_id = none;
      message = plain "hello";
    }
    ∷ []

convert_logs_example : convert_logs (λ i. i) batch ≡ ok converted
unfolding convert_logs
convert_logs_example = refl

convert_logs_iff_example :
    ((o : List InternalDeviceLog) × (convert_logs (λ i. i) batch ≡ ok o))
    ↔ ((length batch ≤ max_logs_per_batch) × All IsAccepted batch)
convert_logs_iff_example = convert_logs_iff (λ i. i) batch
