-- ===== src/Logs/Writer.antt =====
-- src/features/device-logs/lib/store.ts, `handleStreamingWrite`: the logs that a device streams are
-- buffered and published in batches. The parsed lines of the request come in as `DeviceLog`s that
-- `convertLog` has accepted. Only the primary backend is modelled: the secondary one's errors are
-- caught, and it is given the same logs.
mod Laws
mod Examples
use open_balena_api.Base.{
  ℕ, ◌+◌, ◌-◌, leb, ltb, ◌==◌, Bool, true, false, not, ◌||◌, ◌&&◌, none, List, [], ◌∷◌, ◌++◌,
  length, drop, min, if◌then◌else◌,
}
use open_balena_api.Logs.{InternalDeviceLog, rate_limiting}

pub record Writer : Type 0 where
  pub buffer : List InternalDeviceLog
  pub publish_scheduled : Bool
  -- timers of `schedule` that have not fired
  pub timers : ℕ
  -- batches given to the backend and awaited
  pub in_flight : ℕ
  pub paused : Bool
  -- whether a publish has failed, and the request was answered with its error
  pub failed : Bool
  -- the batches that the backend was given, oldest first; whether it published them is not kept
  pub handed_over : List (List InternalDeviceLog)

-- `Math.min(LOGS_WRITE_BUFFER_LIMIT, ctx.retention_limit)`
pub buffer_limit : ℕ → ℕ → ℕ
buffer_limit write_limit retention = min write_limit retention

pub started : Writer
started = record {
  buffer = [];
  publish_scheduled = false;
  timers = 0;
  in_flight = 0;
  paused = false;
  failed = false;
  handed_over = [];
}

pub schedule : Writer → Writer
schedule w =
    if w.publish_scheduled then w else record w { publish_scheduled = true; timers = w.timers + 1 }

-- The warning in place of the first `n` logs, with the times of the oldest.
abbrev pub warning : ℕ → InternalDeviceLog → InternalDeviceLog
warning n first = record {
  nano_timestamp = first.nano_timestamp;
  timestamp = first.timestamp;
  is_system = true;
  is_std_err = true;
  service_id = none;
  message = rate_limiting n;
}

-- `buffer.splice(0, deleteCount, warning)` where the buffer is longer than the limit
pub trim : ℕ → List InternalDeviceLog → List InternalDeviceLog
trim limit [] = []
trim limit (l ∷ ls) =
    if ltb limit (length (l ∷ ls))
    then warning (length (l ∷ ls) - limit) l ∷ drop (length (l ∷ ls) - limit) (l ∷ ls)
    else l ∷ ls

abbrev is_empty {ℓ} : {A : Type ℓ} → List A → Bool
is_empty [] = true
is_empty (x ∷ xs) = false

-- After a publish, and where there was nothing to publish.
pub reschedule : Writer → Writer
unfolding schedule
reschedule w =
    let w' : Writer = record w { publish_scheduled = false } in
    if is_empty w.buffer then w' else schedule w'

-- What happens to a stream: a log arrives, a timer fires, or the backend answers; the first two with
-- whether the backend is available.
pub data Event : Type 0 where
  line : Bool → InternalDeviceLog → Event
  timer : Bool → Event
  answer : Bool → Event

module _ (limit : ℕ) where
  -- A log of the stream, with whether the backend is available.
  pub on_data : Bool → InternalDeviceLog → Writer → Writer
  unfolding schedule
  on_data available l w =
      let w' : Writer = if is_empty w.buffer then schedule w else w in
      let full = leb limit (length w.buffer + 1) || not available in
      record w' { buffer = w.buffer ++ l ∷ []; paused = if full then true else w'.paused }

  -- The timer fires: `tryPublish` up to the wait for the backend.
  pub try_publish : Bool → Writer → Writer
  unfolding reschedule trim
  try_publish available w =
      let w' : Writer = record w { timers = w.timers - 1 } in
      if not (is_empty w.buffer) && available
      then record w' {
        handed_over = w.handed_over ++ trim limit w.buffer ∷ [];
        buffer = [];
        paused = false;
        in_flight = w.in_flight + 1;
      }
      else reschedule w'

  -- The backend has answered. After an error the flag stays set, and nothing is scheduled again.
  pub on_published : Bool → Writer → Writer
  unfolding reschedule
  on_published succeeded w =
      let w' : Writer = record w { in_flight = w.in_flight - 1 } in
      if succeeded then reschedule w' else record w' { failed = true }

  -- A timer fires if one is set, and the backend answers if it was asked.
  pub step : Writer → Event → Writer
  unfolding on_data try_publish on_published
  step w (line available l) = on_data available l w
  step w (timer available) = if w.timers == 0 then w else try_publish available w
  step w (answer succeeded) = if w.in_flight == 0 then w else on_published succeeded w

  pub run : Writer → List Event → Writer
  unfolding step
  run w [] = w
  run w (e ∷ es) = run (step w e) es
