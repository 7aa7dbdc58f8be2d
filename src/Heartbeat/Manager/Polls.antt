-- ===== src/Heartbeat/Manager/Polls.antt =====
-- `captureEventFor`: a poll of a device.
use open_balena_api.Base.{
  ℕ, ◌≡◌, refl, true, false, Option, none, some, [], ◌∷◌, ◌++◌, String, arith, ok, err,
  Result-cases, ◌∙◌, subst, inl, inr, ap, ◌>>=◌,
}
use open_balena_api.Heartbeat.{
  timeout, online, Message, Config, Services, World, get_device_online_state, carried_update,
}
use open_balena_api.Heartbeat.Manager.{capture_event_for, poll, refresh, needs_update, ceil_seconds}
use open_balena_api.Heartbeat.Schedule.{
  Documented, IsScheduled, schedule-IsScheduled, discard, update-frame, update-state,
}

-- What Redis is read to hold.
abbrev pub seen : (s : Services) → World s → ℕ → Option Message
seen s w d = elim (s.get w.cache d) [ ok m ↦ m | err e ↦ none ]

pub get_state_lem :
    (s : Services) (d : ℕ) (w : World s) → get_device_online_state s d w ≡ (ok (seen s w d), w)
unfolding get_device_online_state
get_state_lem s d w = ground arith

module _ (s : Services) (doc : Documented s) (c : Config) (d : ℕ) where
  -- If Redis says that the device is online, so does the database.
  abbrev pub IsTruthful : World s → Type 0
  IsTruthful w =
      (n : Message)
      → seen s w d ≡ some n
      → n.current_state ≡ online
      → doc.state_of w.table d ≡ online

  -- What a poll leaves: the device is online in the table and in Redis, which names the message that
  -- will time it out, behind what is left of the queue.
  pub record IsPolled (w w' : World s) : Type 0 where
    pub online_in_table : doc.state_of w'.table d ≡ online
    pub id : String
    pub updated_at : Option ℕ
    pub cached :
        s.get w'.cache d
        ≡ ok (some (record { id = id; current_state = online; updated_at = updated_at }))
    pub queued :
        doc.pending w'.queue
        ≡ doc.pending (discard s w.queue (seen s w d))
          ++ (id, record { device_id = d; next_state = timeout }) ∷ []

  refresh-state :
      (m : Option Message) (w : World s)
      → ((n : Message) → m ≡ some n → n.current_state ≡ online → doc.state_of w.table d ≡ online)
      → (u : Option ℕ) → (refresh s c d m w).0 ≡ ok u
      → doc.state_of (refresh s c d m w).1.table d ≡ online
  unfolding refresh
  refresh-state none w honest u h = ground (arith, update-state s doc d online w)
  refresh-state (some n) w honest u h = ground (arith, update-state s doc d online w, honest n refl)

  refresh-frame :
      (m : Option Message) (w : World s)
      → ((refresh s c d m w).1.cache ≡ w.cache)
        × ((refresh s c d m w).1.queue ≡ w.queue)
        × ((refresh s c d m w).1.now ≡ w.now)
  unfolding refresh
  refresh-frame m w = ground (arith, update-frame s d online w)

  module _ (t : ℕ) (w : World s) where
    -- A poll that succeeds has refreshed the table, if that was needed, and then scheduled the timeout.
    poll-IsScheduled :
        (poll s c d t w).0 ≡ ok tt
        → (u : Option ℕ) × ((refresh s c d (seen s w d) w).0 ≡ ok u)
          × IsScheduled s doc c d
              (seen s w d)
              online
              timeout
              (ceil_seconds t)
              u
              (refresh s c d (seen s w d) w).1
              (poll s c d t w).1
    unfolding poll
    poll-IsScheduled h = elim (Result-cases (refresh s c d (seen s w d) w).0) [
      | inl (u, e) ↦ (
        u,
        e,
        rw (get_state_lem s d w, e, ◌>>=◌)
            (schedule-IsScheduled s doc c d _ online timeout _ u _
              (rw (get_state_lem s d w, e, ◌>>=◌) at h)),
      )
      | inr (e, f) ↦ cc (rw (get_state_lem s d w, f, ◌>>=◌) at h)
    ]

    poll-IsPolled : IsTruthful w → (poll s c d t w).0 ≡ ok tt → IsPolled w (poll s c d t w).1
    poll-IsPolled honest h =
        let (u, e, p) = poll-IsScheduled h in
        let f = refresh-frame (seen s w d) w in
        record {
          online_in_table =
              ap (λ k. doc.state_of k d) p.same_table ∙ refresh-state (seen s w d) w honest u e;
          id = p.id;
          updated_at = carried_update s c (seen s w d) online u;
          cached = p.cached;
          queued =
              subst
                (λ q.
                  doc.pending (poll s c d t w).1.queue
                  ≡ doc.pending (discard s q (seen s w d))
                    ++ (p.id, record { device_id = d; next_state = timeout }) ∷ [])
                f.1 p.queued;
        }

    -- Where the feature is on and Redis does not call a device online that is not, a poll that
    -- succeeds leaves the device online in the database and in Redis, and a message in the queue
    -- that will time it out, behind the messages that the deletion of the previous one left.
    pub capture-IsPolled :
        c.enabled ≡ true
        → IsTruthful w
        → (capture_event_for s c d t w).0 ≡ ok tt
        → IsPolled w (capture_event_for s c d t w).1
    unfolding capture_event_for
    capture-IsPolled on honest h = ground (arith, poll-IsPolled honest)

    refresh-skips : needs_update c w.now (seen s w d) ≡ false → (refresh s c d (seen s w d) w).1 ≡ w
    unfolding refresh
    refresh-skips e = rw (e, refresh)

    poll-same_table :
        needs_update c w.now (seen s w d) ≡ false
        → (poll s c d t w).0 ≡ ok tt
        → (poll s c d t w).1.table ≡ w.table
    poll-same_table e h =
        let (u, r, p) = poll-IsScheduled h in
        p.same_table ∙ ap (λ (v : World s). v.table) (refresh-skips e)

    -- A poll that succeeds leaves the database alone where Redis has the device online and the last
    -- write is recent enough, or need not be.
    pub capture-same_table :
        needs_update c w.now (seen s w d) ≡ false
        → (capture_event_for s c d t w).0 ≡ ok tt
        → (capture_event_for s c d t w).1.table ≡ w.table
    unfolding capture_event_for
    capture-same_table e h = ground (arith, poll-same_table e)
