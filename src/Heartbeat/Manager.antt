-- ===== src/Heartbeat/Manager.antt =====
-- `consume`, `captureEventFor` and the listener of `start` in
-- src/features/device-heartbeat/index.ts.
pub mod Polls
pub mod Single
pub mod Expiries
mod Examples
use open_balena_api.Base.{
  ℕ, ◌+◌, ◌/◌, ltb, Bool, true, false, Option, none, some, String, ◌||◌, not, if◌then◌else◌, ok,
  Error, other, ◌>>=◌, ◌>>◌, pure, throw, catch, detach, is_some,
}
use open_balena_api.Heartbeat.{
  DeviceOnlineStates, timeout, offline, online, state_eq, Message, Expiry, Config, Services,
  Handler, on_cache, on_queue, capture_exception, update_device_model, get_device_online_state,
  schedule_change_of_state,
}

-- Redis has nothing that spares the write: the device is not online there, or the time of the last
-- write is unknown or too long ago.
pub needs_update : Config → ℕ → Option Message → Bool
needs_update c now none = true
needs_update c now (some m) = not (state_eq m.current_state online) || elim c.update_cache_timeout [
  | none ↦ false
  | some limit ↦ elim m.updated_at [ none ↦ true | some t ↦ ltb (t + limit) now ]
]

-- Seconds, rounded up, from halves of a millisecond.
abbrev pub ceil_seconds : ℕ → ℕ
ceil_seconds t = (t + 1999) / 2000

-- RSMQ_READ_TIMEOUT
abbrev read_timeout : ℕ
read_timeout = 30

-- The error of an unexpected target state.
abbrev pub unexpected_state : Error
unexpected_state = other 1

module _ (s : Services) (c : Config) where
  open s use {get, set, del, send_message, receive_message, delete_message}

  -- Writes the state, if that is needed, and says when it did so.
  refresh : ℕ → Option Message → Handler s (Option ℕ)
  unfolding needs_update
  refresh d previous w =
      if needs_update c w.now previous
      then (do
        update_device_model s d online
        pure (if is_some c.update_cache_timeout then some w.now else none))
          w
      else (ok none, w)

  -- `captureEventFor` where the feature is on, its timeout in halves of a millisecond.
  poll : ℕ → ℕ → Handler s (Unit {0})
  poll d t = do
    previous ← get_device_online_state s d
    updated ← refresh d previous
    schedule_change_of_state s c d previous online timeout (ceil_seconds t) updated

  pub capture_event_for : ℕ → ℕ → Handler s (Unit {0})
  capture_event_for d t w = if c.enabled then poll d t w else (ok tt, w)

  -- The timeout of a message: the new state is scheduled by a call that nobody awaits.
  expire : ℕ → Handler s (Unit {0})
  expire d = do
    update_device_model s d timeout
    previous ← get_device_online_state s d
    detach (schedule_change_of_state s c d previous timeout offline c.timeout_seconds none)

  go_offline : ℕ → Handler s (Unit {0})
  go_offline d = do update_device_model s d offline; on_cache s (λ k. del k d)

  change_state : Expiry → DeviceOnlineStates → Handler s (Unit {0})
  unfolding expire go_offline
  change_state e timeout = expire e.device_id
  change_state e offline = go_offline e.device_id
  change_state e _ = throw unexpected_state

  -- A message that was received: its error is captured, and then it stays in the queue.
  pub process : String → Expiry → Handler s (Unit {0})
  unfolding change_state
  process id e =
      catch (do change_state e e.next_state; on_queue s (λ q. delete_message q id))
        (capture_exception s)

  process_received : Option (String × Expiry) → Handler s (Unit {0})
  process_received none = pure tt
  process_received (some (id, e)) = process id e

  -- One round of `consume`, without the wait for the next message.
  pub consume : Handler s (Unit {0})
  unfolding process_received
  consume =
      catch
        (do received ← on_queue s (λ q. receive_message q read_timeout); process_received received)
        (capture_exception s)

  -- The listener of `get-state`: the key of the request, if it is a text, whether it is a device's
  -- key, and the poll interval. An error on the way is captured.
  pub on_get_state :
      ℕ → Option String → (String → Handler s Bool) → Handler s ℕ → Handler s (Unit {0})
  on_get_state d none is_device_key interval = pure tt
  on_get_state d (some key) is_device_key interval =
      catch
        (do
          device_key ← is_device_key key
          (if device_key then (do t ← interval; capture_event_for d t) else pure tt))
        (capture_exception s)
