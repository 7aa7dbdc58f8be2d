-- ===== src/Logs/Redis/Examples.antt =====
-- Logs that are published and read, src/features/device-logs/lib/backends/redis.ts.
use open_balena_api.Base.{ℕ, ◌≡◌, refl, true, false, Option, none, some, List, [], ◌∷◌, ok}
use open_balena_api.Base.Parse.{parse_int}
use open_balena_api.Logs.{plain, InternalDeviceLog}
use open_balena_api.Logs.Redis.{
  RedisDeviceLog, finite, of_nat, Store, Codec, to_redis_log, from_redis_log, get_count,
  get_history, history, publish, lrange, newest, publish_logs, to_redis_logs, from_redis_logs,
}
use open_balena_api.Logs.Redis.Laws.{
  output, IsLossless, from_redis_log-to_redis_log, history-publish,
}
use open_balena_api.Logs.Redis.Subscriptions.{Event, arrive, leave, connection}

-- A codec that wraps a record, with a mark on what is compressed.
data Payload : Type 0 where
  raw : RedisDeviceLog → Payload
  packed : Payload → Payload

abbrev unpack : Payload → Option Payload
unpack (raw r) = none
unpack (packed p) = some p

abbrev read : Payload → Option RedisDeviceLog
read (raw r) = some r
read (packed p) = none

abbrev codec : Codec Payload
codec = record {
  encode = λ r. some (raw r);
  decode = read;
  compress = λ p. some (packed p);
  uncompress = unpack;
  size = λ p. 4;
  is_compression_enabled = true;
}

lossless : IsLossless codec
lossless = record { decodes = λ r p h. cc h; uncompresses = λ p q h. cc h }

abbrev log : ℕ → InternalDeviceLog
log n = record {
  nano_timestamp = n;
  timestamp = 3;
  is_system = false;
  is_std_err = true;
  service_id = some 8;
  message = plain "started";
}

abbrev payload : Payload
payload = packed (
    raw (record {
      version = 1;
      created_at = 5;
      timestamp = 3;
      is_system = false;
      is_std_err = true;
      service_id = some 8;
      message = plain "started";
    }))

from_redis_log-to_redis_log_example : from_redis_log codec payload ≡ some (output (log 5000001))
unfolding to_redis_log
from_redis_log-to_redis_log_example =
    from_redis_log-to_redis_log codec lossless (log 5000001) payload refl

abbrev empty : Store Payload
empty = record { logs = []; bytes_written = 0; subscribers = none; channel = [] }

abbrev kept : Store Payload
kept = record { logs = payload ∷ []; bytes_written = 8; subscribers = none; channel = [] }

-- Two logs are published where one is retained.
published : publish codec true 1 (log 1000000 ∷ log 5000001 ∷ []) empty ≡ ok kept
unfolding publish to_redis_logs to_redis_log publish_logs newest
published = refl

history-publish_example :
    history codec true (finite (of_nat 10)) 2 kept ≡ ok (output (log 5000001) ∷ [])
unfolding from_redis_logs newest
history-publish_example =
    history-publish codec lossless (log 1000000 ∷ log 5000001 ∷ []) 1 10 2 [] empty kept refl
      published

-- A count below zero skips the oldest logs and reads the rest.
negative : get_history codec true (get_count (some "-5") 7) 2 kept ≡ ok []
unfolding get_history get_count history lrange from_redis_logs parse_int
negative = refl

-- A client comes while Redis is away, and leaves.
abbrev turned_away : List Event
turned_away = arrive 1 ∷ connection true ∷ leave 1 ∷ []
