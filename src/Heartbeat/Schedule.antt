-- ===== src/Heartbeat/Schedule.antt =====
-- What the services of src/features/device-heartbeat/index.ts document, and what
-- `updateDeviceModel` and `scheduleChangeOfStateForDevice` make of it.
use open_balena_api.Base.{
  ℕ, ◌+◌, ◌≡◌, refl, Option, none, some, List, [], ◌∷◌, ◌++◌, String, arith, ok, keep, not, str_eq,
  Result-cases, inl, inr, ◌>>=◌,
}
use open_balena_api.Heartbeat.{
  DeviceOnlineStates, Message, Expiry, Config, Services, World, update_device_model,
  schedule_change_of_state, delete_previous, carried_update,
}

-- A call that succeeds does what its service documents.
pub record Documented (s : Services) : Type 0 where
  pub state_of : s.Table → ℕ → DeviceOnlineStates
  pub patched :
      (t : s.Table) (d : ℕ) (st : DeviceOnlineStates) (now : ℕ)
      → (s.patch t d st now).0 ≡ ok tt
      → state_of (s.patch t d st now).1 d ≡ st
  pub pending : s.Queue → List (String × Expiry)
  pub sent :
      (q : s.Queue) (e : Expiry) (delay : ℕ) (id : String)
      → (s.send_message q e delay).0 ≡ ok id
      → pending (s.send_message q e delay).1 ≡ pending q ++ (id, e) ∷ []
  pub deleted :
      (q : s.Queue) (id : String)
      → (s.delete_message q id).0 ≡ ok tt
      → pending (s.delete_message q id).1 ≡ keep (λ m. not (str_eq m.0 id)) (pending q)
  pub was_set :
      (k : s.Cache) (d : ℕ) (m : Message) (ttl : ℕ)
      → (s.set k d m ttl).0 ≡ ok tt
      → s.get (s.set k d m ttl).1 d ≡ ok (some m)
  pub was_deleted : (k : s.Cache) (d : ℕ) → (s.del k d).0 ≡ ok tt → s.get (s.del k d).1 d ≡ ok none

module _ (s : Services) where
  -- The queue once the message of the previous state is taken out, if there is one.
  abbrev pub discard : s.Queue → Option Message → s.Queue
  discard q none = q
  discard q (some m) = (s.delete_message q m.id).1

  delete_previous_lem :
      (m : Option Message) (w : World s)
      → delete_previous s m w ≡ (ok tt, record w { queue = discard w.queue m })
  unfolding delete_previous
  delete_previous_lem none w = refl
  delete_previous_lem (some m) w = ground arith

  pub schedule-table :
      (c : Config) (d : ℕ) (m : Option Message) (st next : DeviceOnlineStates) (delay : ℕ)
      (u : Option ℕ) (w : World s)
      → (schedule_change_of_state s c d m st next delay u w).1.table ≡ w.table
  unfolding schedule_change_of_state
  schedule-table c d m st next delay u w = rw (delete_previous_lem m w) (ground arith)

  pub update-frame :
      (d : ℕ) (st : DeviceOnlineStates) (w : World s)
      → ((update_device_model s d st w).1.cache ≡ w.cache)
        × ((update_device_model s d st w).1.queue ≡ w.queue)
        × ((update_device_model s d st w).1.now ≡ w.now)
  unfolding update_device_model
  update-frame d st w = ground arith

module _ (s : Services) (doc : Documented s) where
  pub update-state :
      (d : ℕ) (st : DeviceOnlineStates) (w : World s)
      → (update_device_model s d st w).0 ≡ ok tt
      → doc.state_of (update_device_model s d st w).1.table d ≡ st
  unfolding update_device_model
  update-state d st w h = ground (arith, doc.patched w.table d st w.now)

  module _ (c : Config) (d : ℕ) (m : Option Message) (st next : DeviceOnlineStates) (delay : ℕ)
      (u : Option ℕ) (w : World s) where
    -- What a scheduled change of state leaves: the message in the queue, behind what the previous
    -- one leaves there, its number in Redis, and the table as it was.
    pub record IsScheduled (w' : World s) : Type 0 where
      pub id : String
      pub queued :
          doc.pending w'.queue
          ≡ doc.pending (discard s w.queue m)
            ++ (id, record { device_id = d; next_state = next }) ∷ []
      pub cached :
          s.get w'.cache d
          ≡ ok (
              some (record { id = id; current_state = st; updated_at = carried_update s c m st u }))
      pub same_table : w'.table ≡ w.table

    pub schedule-IsScheduled :
        (schedule_change_of_state s c d m st next delay u w).0 ≡ ok tt
        → IsScheduled (schedule_change_of_state s c d m st next delay u w).1
    unfolding schedule_change_of_state
    schedule-IsScheduled h =
        elim (Result-cases
          (s.send_message (discard s w.queue m) (record { device_id = d; next_state = next })
            delay).0) [
              | inl (id, sent) ↦
                  rw (delete_previous_lem s m w, sent, ◌>>=◌)
                    (record {
                      id = id;
                      queued = doc.sent _ _ _ id sent;
                      cached =
                          doc.was_set w.cache d _ (delay + 5)
                            (rw (delete_previous_lem s m w, sent, ◌>>=◌) at h);
                      same_table = refl;
                    })
              | inr (e, failed) ↦ cc (rw (delete_previous_lem s m w, failed, ◌>>=◌) at h)
            ]
