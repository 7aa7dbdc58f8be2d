-- ===== src/Heartbeat/Manager/Examples.antt =====
-- Services in memory, which never fail and do what is documented, and the manager run on them.
use open_balena_api.Base.{
  ℕ, ◌≡◌, refl, true, Option, none, some, List, [], ◌∷◌, ◌++◌, String, arith, ok, err, other, keep,
  not, str_eq, ap, ◌==◌, if◌then◌else◌,
}
use open_balena_api.Base.Parse.{parse_int}
use open_balena_api.Heartbeat.{
  DeviceOnlineStates, unknown, timeout, offline, online, Message, Expiry, Config, Services, World,
  update_device_model, schedule_change_of_state, get_device_online_state,
}
use open_balena_api.Heartbeat.Interval.{get_poll_interval}
use open_balena_api.Heartbeat.Schedule.{Documented}
use open_balena_api.Heartbeat.Manager.{capture_event_for, poll, refresh, process}
use open_balena_api.Heartbeat.Manager.Polls.{IsPolled, capture-IsPolled}
use open_balena_api.Heartbeat.Manager.Single.{IsSingle, capture-IsSingle}
use open_balena_api.Heartbeat.Manager.Expiries.{process-offline}

abbrev at {ℓ} : {A : Type ℓ} → (ℕ → A) → ℕ → A → ℕ → A
at f i a j = if i == j then a else f j

record Line : Type 0 where
  last : String
  entries : List (String × Expiry)

-- Message numbers are of growing length.
abbrev grow : String → String
grow n = String.◌∷◌ "m" n

abbrev memory : Services
memory = record {
  Cache = ℕ → Option Message;
  Queue = Line;
  Table = ℕ → DeviceOnlineStates;
  get = λ k d. ok (k d);
  set = λ k d m ttl. (ok tt, at k d (some m));
  del = λ k d. (ok tt, at k d none);
  send_message = λ q e delay. (
    ok (grow q.last),
    record { last = grow q.last; entries = q.entries ++ (grow q.last, e) ∷ [] },
  );
  receive_message = λ q vt. (elim q.entries [ [] ↦ ok none | m ∷ r ↦ ok (some m) ], q);
  delete_message =
      λ q id. (ok tt, record q { entries = keep (λ m. not (str_eq m.0 id)) q.entries });
  patch = λ t d st now. (ok tt, at t d st);
}

at_self {ℓ} : {A : Type ℓ} (f : ℕ → A) (i : ℕ) (a : A) → at f i a i ≡ a
at_self f i a = ground arith

memory-sent :
    (q : Line) (e : Expiry) (delay : ℕ) (id : String)
    → (memory.send_message q e delay).0 ≡ ok id
    → (memory.send_message q e delay).1.entries ≡ q.entries ++ (id, e) ∷ []
memory-sent q e delay id h = ground arith

abbrev memory_documented : Documented memory
memory_documented = record {
  state_of = λ t d. t d;
  patched = λ t d st now h. at_self t d st;
  pending = λ q. q.entries;
  sent = memory-sent;
  deleted = λ q id h. refl;
  was_set = λ k d m ttl h. ap ok (at_self k d (some m));
  was_deleted = λ k d h. ap ok (at_self k d none);
}

abbrev settings : Config
settings = record { enabled = true; timeout_seconds = 15; update_cache_timeout = some 60000 }

-- Device 7 was never heard of.
abbrev quiet : World memory
quiet = record {
  cache = λ d. none;
  queue = record { last = ""; entries = [] };
  table = λ d. unknown;
  now = 1000;
  changes = [];
  captured = [];
}

-- Device 7 is online, and its timeout "m" waits.
abbrev heard : World memory
heard = record quiet {
  cache =
      at (λ d. none) 7 (some (record { id = "m"; current_state = online; updated_at = some 900 }));
  queue = record {
    last = "m";
    entries = ("m", record { device_id = 7; next_state = timeout }) ∷ [];
  };
  table = at (λ d. unknown) 7 online;
}

interval_read : get_poll_interval 900 none (some " +1000ms") (some "5000") ≡ 3000
unfolding get_poll_interval parse_int
interval_read = refl

capture-IsPolled_example :
    IsPolled memory memory_documented settings 7 quiet
      (capture_event_for memory settings 7 3000 quiet).1
unfolding capture_event_for poll refresh update_device_model schedule_change_of_state
    get_device_online_state
capture-IsPolled_example =
    capture-IsPolled memory memory_documented settings 7 3000 quiet refl (λ n h. cc) refl

capture-IsSingle_example :
    IsSingle memory memory_documented settings 7 (capture_event_for memory settings 7 3000 heard).1
unfolding capture_event_for poll refresh update_device_model schedule_change_of_state
    get_device_online_state
capture-IsSingle_example =
    capture-IsSingle memory memory_documented settings 7 3000 heard refl (λ n h o. refl)
      (λ n h. refl) refl ((λ e. refl), tt)

-- A database that is out of order.
abbrev broken : Services
broken = record memory { patch = λ t d st now. (err (other 9), t) }

abbrev heard_broken : World broken
heard_broken = record {
  cache = heard.cache;
  queue = heard.queue;
  table = heard.table;
  now = 1000;
  changes = [];
  captured = [];
}

process-offline_example :
    memory_documented.state_of
      (process memory settings "m" (record { device_id = 7; next_state = offline }) heard).1.table
      7
    ≡ offline
process-offline_example =
    (process-offline memory memory_documented settings "m"
      (record { device_id = 7; next_state = offline }) heard refl refl refl refl).0
