-- ===== src/Heartbeat/Manager/Single.antt =====
-- At most one timeout waits for a device: `captureEventFor` of
-- src/features/device-heartbeat/index.ts replaces the message that Redis names.
use open_balena_api.Base.{
  ℕ, ◌≡◌, refl, ◌≢◌, Option, none, some, List, [], ◌∷◌, String, arith, true, ok, keep, not, str_eq,
  All, All-append, subst, sym, eq_iff,
}
use open_balena_api.Heartbeat.{Message, Expiry, Config, Services, World}
use open_balena_api.Heartbeat.Manager.{capture_event_for}
use open_balena_api.Heartbeat.Schedule.{Documented, discard}
use open_balena_api.Heartbeat.Manager.Polls.{seen, IsTruthful, capture-IsPolled}

-- The messages that wait for a device are all the one that Redis names.
abbrev pub Owned : ℕ → Option String → List (String × Expiry) → Type 0
Owned d o = All (λ m. m.1.device_id ≡ d → o ≡ some m.0)

abbrev pub Absent : ℕ → List (String × Expiry) → Type 0
Absent d = All (λ m. m.1.device_id ≢ d)

Owned-none :
    (d : ℕ) (o : Option String) (ms : List (String × Expiry))
    → o ≡ none
    → Owned d o ms
    → Absent d ms
Owned-none d o [] e h = tt
Owned-none d o (m ∷ ms) e (h, k) = ((λ p. cc (h p)), Owned-none d o ms e k)

keep-Absent :
    (d : ℕ) (i : String) (ms : List (String × Expiry))
    → Owned d (some i) ms
    → Absent d (keep (λ m. not (str_eq m.0 i)) ms)
keep-Absent d i [] h = tt
keep-Absent d i ((j, e) ∷ ms) (h, k) = ground (arith, eq_iff j i, keep-Absent d i ms k)

Absent-Owned :
    (d : ℕ) (o : Option String) (ms : List (String × Expiry)) → Absent d ms → Owned d o ms
Absent-Owned d o [] h = tt
Absent-Owned d o (m ∷ ms) (h, k) = ((λ e. absurd (h e)), Absent-Owned d o ms k)

module _ (s : Services) (doc : Documented s) (c : Config) (d : ℕ) where
  -- The number of the message that Redis names.
  abbrev pub named : World s → Option String
  named w = elim (seen s w d) [ none ↦ none | some m ↦ some m.id ]

  abbrev pub IsSingle : World s → Type 0
  IsSingle w = Owned d (named w) (doc.pending w.queue)

  -- The message that Redis names, if there is one, can be deleted.
  abbrev pub Deletes : World s → Type 0
  Deletes w = (n : Message) → seen s w d ≡ some n → (s.delete_message w.queue n.id).0 ≡ ok tt

  discard-Absent :
      (m : Option Message) (q : s.Queue)
      → ((n : Message) → m ≡ some n → (s.delete_message q n.id).0 ≡ ok tt)
      → Owned d (elim m [ none ↦ none | some n ↦ some n.id ]) (doc.pending q)
      → Absent d (doc.pending (discard s q m))
  discard-Absent none q can h = Owned-none d none (doc.pending q) refl h
  discard-Absent (some n) q can h =
      rw (doc.deleted q n.id (can n refl)) (keep-Absent d n.id (doc.pending q) h)

  -- Where the heartbeat is enabled, Redis calls no device online that the database does not, and the
  -- deletion of the previous message succeeds: if before a poll that succeeds every message in the
  -- queue for its device has the number that Redis names, then so it is after the poll.
  pub capture-IsSingle :
      (t : ℕ) (w : World s)
      → c.enabled ≡ true
      → IsTruthful s doc c d w
      → Deletes w
      → (capture_event_for s c d t w).0 ≡ ok tt
      → IsSingle w
      → IsSingle (capture_event_for s c d t w).1
  capture-IsSingle t w on honest can h single =
      let p = capture-IsPolled s doc c d t w on honest h in
      let n : named (capture_event_for s c d t w).1 ≡ some p.id = ground (arith, p.cached) in
      subst (λ o. Owned d o (doc.pending (capture_event_for s c d t w).1.queue)) (sym n)
        (rw p.queued (
          All-append _ (doc.pending (discard s w.queue (seen s w d))) _
            (Absent-Owned d _ _ (discard-Absent (seen s w d) w.queue can single))
            ((λ e. refl), tt)))
