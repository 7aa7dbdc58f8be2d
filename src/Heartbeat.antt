-- ===== src/Heartbeat.antt =====
-- src/features/device-heartbeat/index.ts: the poll interval of a device and the manager that turns
-- its polls, and their absence, into its API heartbeat state.
-- Redis, RSMQ and the database are the parameter `Services`. A record that the code writes as JSON
-- is stored as the record. Time is a field of the world and stands still while a handler runs.
pub mod Interval
pub mod Manager
pub mod Schedule
use open_balena_api.Base.{
  ℕ, ◌+◌, String, Bool, true, false, Option, none, some, List, ◌∷◌, if◌then◌else◌, Result, ok, err,
  Error, Eff, ◌>>=◌, ◌>>◌, pure, throw, catch,
}

pub data DeviceOnlineStates : Type 0 where
  unknown timeout offline online : DeviceOnlineStates

abbrev pub state_eq : DeviceOnlineStates → DeviceOnlineStates → Bool
state_eq unknown unknown = true
state_eq timeout timeout = true
state_eq offline offline = true
state_eq online online = true
state_eq _ _ = false

-- `DeviceOnlineStateManagerMessage`, what Redis keeps of a device.
pub record Message : Type 0 where
  pub id : String
  pub current_state : DeviceOnlineStates
  pub updated_at : Option ℕ

-- The message that waits in the queue of expired heartbeats.
pub record Expiry : Type 0 where
  pub device_id : ℕ
  pub next_state : DeviceOnlineStates

pub record Config : Type 0 where
  pub enabled : Bool
  -- API_HEARTBEAT_STATE_TIMEOUT_SECONDS
  pub timeout_seconds : ℕ
  -- API_HEARTBEAT_STATE_ONLINE_UPDATE_CACHE_TIMEOUT
  pub update_cache_timeout : Option ℕ

-- What the manager calls: Redis under the key of a device, the queue `expired`, and the PATCH of
-- `api_heartbeat_state` on a device that is not in that state already, with the change's date.
pub record Services : Type 1 where
  pub Cache : Type 0
  pub Queue : Type 0
  pub Table : Type 0
  pub get : Cache → ℕ → Result (Option Message)
  pub set : Cache → ℕ → Message → ℕ → Result (Unit {0}) × Cache
  pub del : Cache → ℕ → Result (Unit {0}) × Cache
  pub send_message : Queue → Expiry → ℕ → Result String × Queue
  pub receive_message : Queue → ℕ → Result (Option (String × Expiry)) × Queue
  pub delete_message : Queue → String → Result (Unit {0}) × Queue
  pub patch : Table → ℕ → DeviceOnlineStates → ℕ → Result (Unit {0}) × Table

-- The arguments of the event `change`.
pub record Change : Type 0 where
  pub device_id : ℕ
  pub new_state : DeviceOnlineStates
  pub failure : Option Error

module _ (s : Services) where
  open s use {
    Cache, Queue, Table, get, set, del, send_message, receive_message, delete_message, patch,
  }

  pub record World : Type 0 where
    pub cache : Cache
    pub queue : Queue
    pub table : Table
    pub now : ℕ
    -- newest first
    pub changes : List Change
    -- what `captureException` was given, newest first
    pub captured : List Error

  abbrev pub Handler : Type 0 → Type 0
  Handler A = Eff World A

  abbrev on_cache : {A : Type 0} → (Cache → Result A × Cache) → Handler A
  on_cache f w = let r = f w.cache in (r.0, record w { cache = r.1 })

  abbrev on_queue : {A : Type 0} → (Queue → Result A × Queue) → Handler A
  on_queue f w = let r = f w.queue in (r.0, record w { queue = r.1 })

  abbrev on_table : {A : Type 0} → (Table → Result A × Table) → Handler A
  on_table f w = let r = f w.table in (r.0, record w { table = r.1 })

  abbrev capture_exception : Error → Handler (Unit {0})
  capture_exception e w = (ok tt, record w { captured = e ∷ w.captured })

  abbrev emit_change : ℕ → DeviceOnlineStates → Option Error → Handler (Unit {0})
  emit_change d st e w = (
    ok tt,
    record w { changes = record { device_id = d; new_state = st; failure = e } ∷ w.changes },
  )

  -- The event is emitted whether the PATCH succeeds or not.
  pub update_device_model : ℕ → DeviceOnlineStates → Handler (Unit {0})
  update_device_model d st w =
      (do
        catch (on_table (λ t. patch t d st w.now))
            (λ e. do capture_exception e; emit_change d st (some e); throw e)
        emit_change d st none)
        w

  -- An error of Redis, or of the parser, reads as no state.
  pub get_device_online_state : ℕ → Handler (Option Message)
  get_device_online_state d w = elim (get w.cache d) [ ok m ↦ (ok m, w) | err e ↦ (ok none, w) ]

  abbrev same_state : Option Message → DeviceOnlineStates → Bool
  same_state none st = false
  same_state (some m) st = state_eq m.current_state st

  abbrev previous_update : Option Message → Option ℕ
  previous_update none = none
  previous_update (some m) = m.updated_at

  -- `updatedAt ??= previousManagerState.updatedAt`, if the feature is on and the state the same
  pub carried_update : Config → Option Message → DeviceOnlineStates → Option ℕ → Option ℕ
  carried_update c previous st (some t) = some t
  carried_update c previous st none = elim c.update_cache_timeout [
    | none ↦ none
    | some _ ↦ if same_state previous st then previous_update previous else none
  ]

  -- The errors of this deletion are ignored.
  delete_previous : Option Message → Handler (Unit {0})
  delete_previous none = pure tt
  delete_previous (some m) = catch (on_queue (λ q. delete_message q m.id)) (λ e. pure tt)

  -- The new state in Redis, which forgets it five seconds after the message is due.
  pub store_state :
      Config → ℕ → Option Message → DeviceOnlineStates → ℕ → Option ℕ → String → Handler (Unit {0})
  unfolding carried_update
  store_state c d previous st delay updated new_id = on_cache (λ k.
      set k d
        (record {
          id = new_id;
          current_state = st;
          updated_at = carried_update c previous st updated;
        })
        (delay + 5))

  pub schedule_change_of_state :
      Config
      → ℕ
      → Option Message
      → DeviceOnlineStates
      → DeviceOnlineStates
      → ℕ
      → Option ℕ
      → Handler (Unit {0})
  unfolding delete_previous store_state
  schedule_change_of_state c d previous st next delay updated = do
    delete_previous previous
    new_id ← on_queue (λ q. send_message q (record { device_id = d; next_state = next }) delay)
    store_state c d previous st delay updated new_id
