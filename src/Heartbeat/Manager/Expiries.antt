-- ===== src/Heartbeat/Manager/Expiries.antt =====
-- `consume`: a message of the queue of expired heartbeats, src/features/device-heartbeat/index.ts.
use open_balena_api.Base.{
  ℕ, ◌≡◌, none, ◌∷◌, String, arith, ok, err, Error, ◌⊎◌, keep, not, str_eq, ◌>>=◌, ◌>>◌,
}
use open_balena_api.Heartbeat.{
  Expiry, Config, Services, World, timeout, offline, online, unknown, update_device_model,
}
use open_balena_api.Heartbeat.Manager.{process, consume, expire, unexpected_state}
use open_balena_api.Heartbeat.Schedule.{Documented, update-frame, update-state, schedule-table}
use open_balena_api.Heartbeat.Manager.Polls.{seen, get_state_lem}

module _ (s : Services) (c : Config) where
  -- Whatever fails in a round of the consumer is captured, so the next round is always run.
  pub consume-ok : (w : World s) → (consume s c w).0 ≡ ok tt
  unfolding consume
  consume-ok w = ground arith

  -- A target state other than timeout and offline is an error: nothing but the error is recorded, and
  -- the message stays.
  pub process-unexpected :
      (id : String) (e : Expiry) (w : World s)
      → (e.next_state ≡ unknown) ⊎ (e.next_state ≡ online)
      → process s c id e w ≡ (ok tt, record w { captured = unexpected_state ∷ w.captured })
  unfolding process
  process-unexpected id e w h = ground arith

  -- When the database refuses the new state of an expired device, its message and the record in Redis
  -- stay as they are.
  pub process-kept :
      (id : String) (e : Expiry) (w : World s) (x : Error)
      → (update_device_model s e.device_id e.next_state w).0 ≡ err x
      → ((process s c id e w).1.queue ≡ w.queue) × ((process s c id e w).1.cache ≡ w.cache)
  unfolding process
  process-kept id e w x h = ground (arith, update-frame s e.device_id e.next_state w)

module _ (s : Services) (doc : Documented s) (c : Config) where
  -- Where the three calls succeed, a device whose message says offline is offline in the database,
  -- Redis has forgotten it, and the message is gone from the queue.
  pub process-offline :
      (id : String) (e : Expiry) (w : World s)
      → e.next_state ≡ offline
      → (s.patch w.table e.device_id offline w.now).0 ≡ ok tt
      → (s.del w.cache e.device_id).0 ≡ ok tt
      → (s.delete_message w.queue id).0 ≡ ok tt
      → (doc.state_of (process s c id e w).1.table e.device_id ≡ offline)
        × (s.get (process s c id e w).1.cache e.device_id ≡ ok none)
        × (doc.pending (process s c id e w).1.queue
            ≡ keep (λ m. not (str_eq m.0 id)) (doc.pending w.queue))
  unfolding process update_device_model
  process-offline id e w st patched forgot gone = ground (
    arith,
    doc.patched w.table e.device_id offline w.now patched,
    doc.was_deleted w.cache e.device_id forgot,
    doc.deleted w.queue id gone,
  )

  expire-table :
      (d : ℕ) (w : World s)
      → (update_device_model s d timeout w).0 ≡ ok tt
      → (expire s c d w).1.table ≡ (update_device_model s d timeout w).1.table
  unfolding expire
  expire-table d w e =
      let v = (update_device_model s d timeout w).1 in
      rw (e, get_state_lem s d v, ◌>>◌, ◌>>=◌)
        (schedule-table s c d (seen s v d) timeout offline c.timeout_seconds none v)

  expire-ok :
      (d : ℕ) (w : World s)
      → (update_device_model s d timeout w).0 ≡ ok tt
      → (expire s c d w).0 ≡ ok tt
  unfolding expire
  expire-ok d w e = rw (e, ◌>>◌, get_state_lem s d (update_device_model s d timeout w).1)

  -- Where the database takes the new state, a device whose message says timeout is in that state
  -- there, whatever becomes of the next message, which nobody waits for.
  pub process-timeout :
      (id : String) (d : ℕ) (w : World s)
      → (s.patch w.table d timeout w.now).0 ≡ ok tt
      → doc.state_of (process s c id (record { device_id = d; next_state = timeout }) w).1.table d
        ≡ timeout
  unfolding process
  process-timeout id d w patched =
      let u : (update_device_model s d timeout w).0 ≡ ok tt =
        unfold update_device_model in rw patched in
      ground (arith, u, expire-table d w u, expire-ok d w u, update-state s doc d timeout w u)
