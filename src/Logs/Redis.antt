-- ===== src/Logs/Redis.antt =====
-- src/features/device-logs/lib/backends/redis.ts: the logs of one device that Redis keeps, with
-- `getCount` and `getHistory` of src/features/device-logs/lib/read.ts. The Lua scripts are functions on the
-- keys of the device. A payload is what the packages avsc and snappy give, which are parameters.
mod Laws
pub mod Subscriptions
mod Examples
use open_balena_api.Base.{
  ℕ, suc, ◌+◌, ◌-◌, ◌/◌, min, ◌==◌, leb, str_eq, Bool, false, not, Option, none, some, List, [],
  ◌∷◌, ◌++◌, length, drop, is_some, if◌then◌else◌, String, Result, ok, err, bad_request,
  unavailable, other,
}
use open_balena_api.Base.Parse.{Signed, parse_int}
use open_balena_api.Logs.{Text, InternalDeviceLog, OutputDeviceLog}

-- The record of the schema.
pub record RedisDeviceLog : Type 0 where
  pub version : ℕ
  pub created_at : ℕ
  pub timestamp : ℕ
  pub is_system : Bool
  pub is_std_err : Bool
  pub service_id : Option ℕ
  pub message : Text

-- A count of logs: `Infinity`, or a number.
pub data Count : Type 0 where
  infinity : Count
  finite : Signed → Count

abbrev pub log_version : ℕ
log_version = 1

-- LOGS_DEFAULT_RETENTION_LIMIT
abbrev pub default_retention_limit : ℕ
default_retention_limit = 1000

abbrev pub of_nat : ℕ → Signed
of_nat n = record { negative = false; magnitude = n }

-- `Math.min`
abbrev pub at_most : ℕ → Signed → Signed
at_most n s = if s.negative then s else of_nat (min s.magnitude n)

abbrev pub parsed_or : ℕ → Option Signed → Signed
parsed_or d none = of_nat d
parsed_or d (some s) = s

pub get_count : Option String → ℕ → Signed
get_count none d = at_most default_retention_limit (of_nat d)
get_count (some t) d =
    if str_eq t "all"
    then of_nat default_retention_limit
    else at_most default_retention_limit (parsed_or d (parse_int t))

-- The newest entries of a list, as `ltrim` and `lrange` find them from the index `-n`; -0 is 0.
pub newest : {A : Type 0} → ℕ → List A → List A
newest n xs = if n == 0 then xs else drop (length xs - n) xs

-- `lrange key start -1` with the index that `-count` is.
pub lrange : {A : Type 0} → Count → List A → List A
unfolding newest
lrange infinity xs = xs
lrange (finite s) xs = if s.negative then drop s.magnitude xs else newest s.magnitude xs

-- The keys of a device.
pub record Store (P : Type 0) : Type 0 where
  pub logs : List P
  pub bytes_written : ℕ
  pub subscribers : Option ℕ
  -- what was published to the channel of the device, oldest first
  pub channel : List P

pub publish_logs : {P : Type 0} → List P → ℕ → ℕ → Store P → Result (Store P)
unfolding newest
publish_logs [] bytes limit s = err (other 0)
publish_logs (p ∷ ps) bytes limit s = ok (record s {
  logs = newest limit (s.logs ++ p ∷ ps);
  bytes_written = s.bytes_written + bytes;
  channel = if is_some s.subscribers then s.channel ++ p ∷ ps else s.channel;
})

-- The script of `incr`: a missing key counts as 0.
pub incr_subscribers : {P : Type 0} → Store P → Store P
incr_subscribers s = record s {
  subscribers = elim s.subscribers [ some n ↦ some (suc n) | none ↦ some 1 ];
}

-- The script of `decr`: the key is deleted at 0 and below.
pub decr_subscribers : {P : Type 0} → Store P → Store P
decr_subscribers s = record s {
  subscribers = elim s.subscribers [
    | some n ↦ if leb n 1 then none else some (n - 1)
    | none ↦ none
  ];
}

abbrev pub filtered : ℕ → List (Option OutputDeviceLog) → List OutputDeviceLog
filtered start [] = []
filtered start (none ∷ ls) = filtered start ls
filtered start (some l ∷ ls) =
    if leb start l.created_at then l ∷ filtered start ls else filtered start ls

abbrev pub total : List ℕ → ℕ
total [] = 0
total (n ∷ ns) = n + total ns

-- With the two packages, and REDIS_LOGS_COMPRESSION_ENABLED.
pub record Codec (P : Type 0) : Type 0 where
  pub encode : RedisDeviceLog → Option P
  pub decode : P → Option RedisDeviceLog
  pub compress : P → Option P
  pub uncompress : P → Option P
  pub size : P → ℕ
  pub is_compression_enabled : Bool

module _ {P : Type 0} (c : Codec P) where
  open c use {encode, decode, compress, uncompress, size, is_compression_enabled}

  abbrev compressed : Option P → Result P
  compressed none = err bad_request
  compressed (some p) = ok p

  abbrev encoded : Option P → Result P
  encoded none = err bad_request
  encoded (some p) = if is_compression_enabled then compressed (compress p) else ok p

  pub to_redis_log : InternalDeviceLog → Result P
  to_redis_log l = encoded (
      encode (record {
        version = log_version;
        created_at = l.nano_timestamp / 1000000;
        timestamp = l.timestamp;
        is_system = l.is_system;
        is_std_err = l.is_std_err;
        service_id = l.service_id;
        message = l.message;
      }))

  -- A payload that does not decompress is taken as it is.
  abbrev or_as_is : P → Option P → P
  or_as_is p none = p
  or_as_is p (some q) = q

  abbrev versioned : Option RedisDeviceLog → Option OutputDeviceLog
  versioned none = none
  versioned (some r) =
      if r.version == log_version
      then some (record {
        created_at = r.created_at;
        timestamp = r.timestamp;
        is_system = r.is_system;
        is_std_err = r.is_std_err;
        service_id = r.service_id;
        message = r.message;
      })
      else none

  pub from_redis_log : P → Option OutputDeviceLog
  from_redis_log p =
      versioned (decode (if is_compression_enabled then or_as_is p (uncompress p) else p))

  pub from_redis_logs : List P → List (Option OutputDeviceLog)
  unfolding from_redis_log
  from_redis_logs [] = []
  from_redis_logs (p ∷ ps) = from_redis_log p ∷ from_redis_logs ps

  pub to_redis_logs : List InternalDeviceLog → Result (List P)
  unfolding to_redis_log
  to_redis_logs [] = ok []
  to_redis_logs (l ∷ ls) = elim (to_redis_log l) [
    | err e ↦ err e
    | ok p ↦ elim (to_redis_logs ls) [ err e ↦ err e | ok ps ↦ ok (p ∷ ps) ]
  ]

  abbrev sizes : List P → List ℕ
  sizes [] = []
  sizes (p ∷ ps) = size p ∷ sizes ps

  -- `publish`, with the retention limit of the context.
  pub publish : Bool → ℕ → List InternalDeviceLog → Store P → Result (Store P)
  publish is_connected limit ls s =
      if not is_connected then err unavailable else elim (to_redis_logs ls) [
        | err e ↦ err e
        | ok ps ↦ publish_logs ps (total (sizes ps)) limit s
      ]

  pub history : Bool → Count → ℕ → Store P → Result (List OutputDeviceLog)
  unfolding lrange from_redis_logs
  history is_connected count start s =
      if not is_connected
      then err unavailable
      else ok (filtered start (from_redis_logs (lrange count s.logs)))

  -- `getHistory`: no history is asked for where the count is zero.
  pub get_history : Bool → Signed → ℕ → Store P → Result (List OutputDeviceLog)
  get_history is_connected count start s =
      if count.magnitude == 0 then ok [] else history is_connected (finite count) start s
