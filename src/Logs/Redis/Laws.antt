-- ===== src/Logs/Redis/Laws.antt =====
-- What is read of the logs that were published, src/features/device-logs/lib/backends/redis.ts.
use open_balena_api.Base.{
  ℕ, zero, suc, ◌-◌, ◌/◌, ◌≡◌, refl, ap, sym, inl, inr, leb, true, Bool-cases, Option, none, some,
  List, [], ◌∷◌, ◌++◌, map, length, drop, keep, Result, ok, err, Result-cases, Option-cases, arith,
}
use open_balena_api.Logs.{InternalDeviceLog, OutputDeviceLog}
use open_balena_api.Logs.Redis.{
  RedisDeviceLog, log_version, finite, of_nat, newest, lrange, Store, publish_logs, filtered, total,
  Codec, encoded, to_redis_log, from_redis_log, from_redis_logs, to_redis_logs, sizes, publish,
  history,
}

-- The log as clients read it.
abbrev pub output : InternalDeviceLog → OutputDeviceLog
output l = record {
  created_at = l.nano_timestamp / 1000000;
  timestamp = l.timestamp;
  is_system = l.is_system;
  is_std_err = l.is_std_err;
  service_id = l.service_id;
  message = l.message;
}

-- What the two packages promise: what they wrote they read.
pub record IsLossless {P : Type 0} (c : Codec P) : Type 0 where
  pub decodes : (r : RedisDeviceLog) (p : P) → c.encode r ≡ some p → c.decode p ≡ some r
  pub uncompresses : (p q : P) → c.compress p ≡ some q → c.uncompress q ≡ some p

module _ {P : Type 0} (c : Codec P) (lossless : IsLossless c) where
  -- The record of a log.
  abbrev record_of : InternalDeviceLog → RedisDeviceLog
  record_of l = record {
    version = log_version;
    created_at = l.nano_timestamp / 1000000;
    timestamp = l.timestamp;
    is_system = l.is_system;
    is_std_err = l.is_std_err;
    service_id = l.service_id;
    message = l.message;
  }

  encoded-from :
      (l : InternalDeviceLog) (o : Option P) (p : P)
      → c.encode (record_of l) ≡ o
      → encoded c o ≡ ok p
      → from_redis_log c p ≡ some (output l)
  unfolding from_redis_log
  encoded-from l none p h k = cc
  encoded-from l (some b) p h k = elim (Bool-cases c.is_compression_enabled) [
    | inl e ↦ elim (Option-cases (c.compress b)) [
      | inl z ↦ cc (k, e, z)
      | inr (q, z) ↦ cc (k, e, z, lossless.decodes (record_of l) b h, lossless.uncompresses b q z)
    ]
    | inr e ↦ cc (k, e, lossless.decodes (record_of l) b h)
  ]

  -- A log that was converted to its payload is read back with its time in milliseconds, with and
  -- without compression.
  pub from_redis_log-to_redis_log :
      (l : InternalDeviceLog) (p : P)
      → to_redis_log c l ≡ ok p
      → from_redis_log c p ≡ some (output l)
  unfolding to_redis_log
  from_redis_log-to_redis_log l p h = encoded-from l (c.encode (record_of l)) p refl h

  abbrev outputs : List InternalDeviceLog → List OutputDeviceLog
  outputs ls = map (λ l. output l) ls

  abbrev somes : List OutputDeviceLog → List (Option OutputDeviceLog)
  somes ls = map (λ l. some l) ls

  reads :
      (ls : List InternalDeviceLog) (ps : List P)
      → to_redis_logs c ls ≡ ok ps
      → from_redis_logs c ps ≡ somes (outputs ls)
  unfolding to_redis_logs from_redis_logs
  reads [] ps h = cc h
  reads (l ∷ ls) ps h = elim (Result-cases (to_redis_log c l)) [
    | inr (e, k) ↦ cc (rw (to_redis_logs, k) at h)
    | inl (p, k) ↦ elim (Result-cases (to_redis_logs c ls)) [
      | inr (e, m) ↦ cc (rw (to_redis_logs, k, m) at h)
      | inl (qs, m) ↦
          cc (rw (to_redis_logs, k, m) at h, reads ls qs m, from_redis_log-to_redis_log l p k)
    ]
  ]

  from_redis_logs-append :
      (ps qs : List P) → from_redis_logs c (ps ++ qs) ≡ from_redis_logs c ps ++ from_redis_logs c qs
  unfolding from_redis_logs
  from_redis_logs-append [] qs = refl
  from_redis_logs-append (p ∷ ps) qs =
      ap (λ t. from_redis_log c p ∷ t) (from_redis_logs-append ps qs)

  from_redis_logs-drop :
      (n : ℕ) (ps : List P) → from_redis_logs c (drop n ps) ≡ drop n (from_redis_logs c ps)
  unfolding from_redis_logs
  from_redis_logs-drop zero ps = refl
  from_redis_logs-drop (suc n) [] = refl
  from_redis_logs-drop (suc n) (p ∷ ps) = from_redis_logs-drop n ps

  length-from_redis_logs : (ps : List P) → length (from_redis_logs c ps) ≡ length ps
  unfolding from_redis_logs
  length-from_redis_logs [] = refl
  length-from_redis_logs (p ∷ ps) = ap (λ n. suc n) (length-from_redis_logs ps)

  from_redis_logs-newest :
      (n : ℕ) (ps : List P) → from_redis_logs c (newest n ps) ≡ newest n (from_redis_logs c ps)
  unfolding newest
  from_redis_logs-newest n ps =
      ground (arith, from_redis_logs-drop (length ps - n) ps, length-from_redis_logs ps)

  filtered-somes :
      (start : ℕ) (ls : List OutputDeviceLog)
      → filtered start (somes ls) ≡ keep (λ l. leb start l.created_at) ls
  filtered-somes start [] = refl
  filtered-somes start (l ∷ ls) = ground (arith, filtered-somes start ls)

  drop-map :
      {A B : Type 0} → (f : A → B) (n : ℕ) (xs : List A) → drop n (map f xs) ≡ map f (drop n xs)
  drop-map f zero xs = refl
  drop-map f (suc n) [] = refl
  drop-map f (suc n) (x ∷ xs) = drop-map f n xs

  length-map : {A B : Type 0} → (f : A → B) (xs : List A) → length (map f xs) ≡ length xs
  length-map f [] = refl
  length-map f (x ∷ xs) = ap (λ n. suc n) (length-map f xs)

  map-append :
      {A B : Type 0} → (f : A → B) (xs ys : List A) → map f (xs ++ ys) ≡ map f xs ++ map f ys
  map-append f [] ys = refl
  map-append f (x ∷ xs) ys = ap (λ t. f x ∷ t) (map-append f xs ys)

  newest-map :
      {A B : Type 0} → (f : A → B) (n : ℕ) (xs : List A) → newest n (map f xs) ≡ map f (newest n xs)
  unfolding newest
  newest-map f n xs = ground (arith, drop-map f (length xs - n) xs, length-map f xs)

  logs_or : List P → Result (Store P) → List P
  logs_or ps (ok s) = s.logs
  logs_or ps (err e) = ps

  published-logs :
      (ps : List P) (bytes limit : ℕ) (s after : Store P)
      → publish_logs ps bytes limit s ≡ ok after
      → after.logs ≡ newest limit (s.logs ++ ps)
  unfolding publish_logs logs_or
  published-logs [] bytes limit s after h = cc
  published-logs (p ∷ ps) bytes limit s after h = sym (ap (logs_or s.logs) h)

  -- Where every log of a device is readable, and a batch is published: the history is then of the
  -- logs before and those of the batch, of which the retention limit and then the count leave the
  -- newest, those from the start on.
  pub history-publish :
      (ls : List InternalDeviceLog) (limit n start : ℕ) (old : List OutputDeviceLog)
      (s after : Store P)
      → from_redis_logs c s.logs ≡ map (λ l. some l) old
      → publish c true limit ls s ≡ ok after
      → history c true (finite (of_nat n)) start after
        ≡ ok (
            keep
              (λ l. leb start l.created_at)
              (newest n (newest limit (old ++ map (λ l. output l) ls))))
  unfolding history publish lrange publish_logs
  history-publish ls limit n start old s after h k = elim (Result-cases (to_redis_logs c ls)) [
    | inr (e, m) ↦ cc (rw m at k)
    | inl (ps, m) ↦
        let logs = published-logs ps (total (sizes c ps)) limit s after (rw m at k) in
        let wanted = old ++ outputs ls in
        let both : from_redis_logs c (s.logs ++ ps) ≡ somes wanted = cc (
          from_redis_logs-append s.logs ps,
          h,
          reads ls ps m,
          map-append (λ (l : OutputDeviceLog). some l) old (outputs ls),
        ) in
        let kept : from_redis_logs c after.logs ≡ somes (newest limit wanted) = cc (
          logs,
          both,
          from_redis_logs-newest limit (s.logs ++ ps),
          newest-map (λ (l : OutputDeviceLog). some l) limit wanted,
        ) in
        let found : from_redis_logs c (newest n after.logs)
            ≡ somes (newest n (newest limit wanted)) =
          cc (
            kept,
            from_redis_logs-newest n after.logs,
            newest-map (λ (l : OutputDeviceLog). some l) n (newest limit wanted),
          ) in
        cc (found, filtered-somes start (newest n (newest limit wanted)))
  ]
