-- ===== src/Logs/Reader.antt =====
-- src/features/device-logs/lib/read.ts, `handleStreamingRead`: one client that follows the logs of a
-- device. The answers of `res.write`, false under back-pressure, are a function of the number of the
-- write; the throttled flush of the response is left out.
mod Laws
mod Examples
use open_balena_api.Base.{
  ℕ, ◌+◌, ◌-◌, ltb, ◌==◌, Bool, true, false, not, ◌&&◌, Option, none, some, List, [], ◌∷◌, ◌++◌,
  length, drop, last, if◌then◌else◌,
}
use open_balena_api.Logs.{
  OutputDeviceLog, slow_reading, StreamState, buffering, flushing, writable, saturated, closed,
}

pub data Chunk : Type 0 where
  line : OutputDeviceLog → Chunk
  blank : Chunk

pub record Reader : Type 0 where
  pub state : StreamState
  pub dropped : ℕ
  pub buffer : List OutputDeviceLog
  -- what `res.write` was given, oldest first
  pub sent : List Chunk
  pub subscribed : Bool
  pub beating : Bool

abbrev pub state_eq : StreamState → StreamState → Bool
state_eq buffering buffering = true
state_eq flushing flushing = true
state_eq writable writable = true
state_eq saturated saturated = true
state_eq closed closed = true
state_eq _ _ = false

-- The warning about the messages that were dropped.
abbrev pub warning : ℕ → ℕ → OutputDeviceLog
warning now n = record {
  created_at = now;
  timestamp = now;
  is_system = true;
  is_std_err = true;
  service_id = none;
  message = slow_reading n;
}

-- A new client: it is subscribed before its history is asked for.
abbrev pub connected : Reader
connected = record {
  state = buffering;
  dropped = 0;
  buffer = [];
  sent = [];
  subscribed = true;
  beating = true;
}

-- The logs of the buffer that are newer than the history: from the first such log on.
pub newer : ℕ → List OutputDeviceLog → List OutputDeviceLog
newer after [] = []
newer after (l ∷ ls) = if ltb after l.created_at then l ∷ ls else newer after ls

abbrev pub created_or_zero : Option OutputDeviceLog → ℕ
created_or_zero none = 0
created_or_zero (some l) = l.created_at

-- `logs.splice(0, logs.length - limit)` where there is a limit and more logs than that
pub retain : ℕ → List OutputDeviceLog → List OutputDeviceLog
retain limit logs =
    if not (limit == 0) && ltb limit (length logs) then drop (length logs - limit) logs else logs

-- The history and what came since, cut to the retention limit.
pub merge : ℕ → List OutputDeviceLog → List OutputDeviceLog → List OutputDeviceLog
unfolding newer retain
merge limit history buffer = retain limit (history ++ newer (created_or_zero (last history)) buffer)

-- What happens to a client besides the arrival of its history, before it or after.
pub data Event : Type 0 where
  arrives : OutputDeviceLog → Event
  drains : ℕ → Event
  beats finishes : Event

module _ (accepts : ℕ → Bool) where
  abbrev pub write : Chunk → Reader → Reader
  write c r = record r { sent = r.sent ++ c ∷ [] }

  -- A log of the subscription. The answer of the write counts in the state `writable` only.
  pub on_log : OutputDeviceLog → Reader → Reader
  on_log l r = elim r.state [
    | buffering ↦ record r { buffer = r.buffer ++ l ∷ [] }
    | saturated ↦ record r { dropped = r.dropped + 1 }
    | closed ↦ r
    | flushing ↦ write (line l) r
    | writable ↦
        if accepts (length r.sent)
        then write (line l) r
        else record (write (line l) r) { state = saturated }
  ]

  abbrev pub unsaturated : StreamState → StreamState
  unsaturated saturated = writable
  unsaturated st = st

  -- The listener of `drain`.
  pub on_drain : ℕ → Reader → Reader
  unfolding on_log
  on_drain now r =
      if state_eq r.state closed
      then r
      else (let r' : Reader = record r { state = unsaturated r.state } in
          if r.dropped == 0
          then r'
          else (let r'' : Reader = on_log (warning now r.dropped) r' in record r'' { dropped = 0 }))

  pub close : Reader → Reader
  close r =
      if state_eq r.state closed
      then record r { beating = false }
      else record r { state = closed; subscribed = false; beating = false }

  -- The heartbeat, while its timer is set.
  pub on_heartbeat : Reader → Reader
  unfolding close
  on_heartbeat r =
      if r.beating then (if state_eq r.state closed then close r else write blank r) else r

  pub send_each : List OutputDeviceLog → Reader → Reader
  unfolding on_log
  send_each [] r = r
  send_each (l ∷ ls) r = send_each ls (on_log l r)

  -- The history has come, or failed to; what has been buffered goes out behind it.
  pub on_history : ℕ → Option (List OutputDeviceLog) → Reader → Reader
  unfolding merge send_each
  on_history limit history r =
      if state_eq r.state closed
      then r
      else (let logs = merge limit (elim history [ none ↦ [] | some h ↦ h ]) r.buffer in
          record (send_each logs (record r { state = flushing; buffer = [] })) { state = writable })

  pub step : Reader → Event → Reader
  unfolding on_log on_drain on_heartbeat close
  step r (arrives l) = on_log l r
  step r (drains now) = on_drain now r
  step r beats = on_heartbeat r
  step r finishes = close r

  pub run : Reader → List Event → Reader
  unfolding step
  run r [] = r
  run r (e ∷ es) = run (step r e) es
