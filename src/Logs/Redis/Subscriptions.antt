-- ===== src/Logs/Redis/Subscriptions.antt =====
-- src/features/device-logs/lib/backends/redis.ts, `subscribe` and `unsubscribe`: one instance of the API and the
-- clients that follow one device there. What the instance sends to Redis is listed.
use open_balena_api.Base.{
  ℕ, suc, ◌+◌, ◌≡◌, refl, ◌==◌, Bool, true, false, not, List, [], ◌∷◌, ◌++◌, if◌then◌else◌, arith,
}

-- The requests of the instance on the channel and on the key with the number of subscribers.
pub data Command : Type 0 where
  subscribe_channel unsubscribe_channel incr_subscribers decr_subscribers : Command

pub record Instance : Type 0 where
  pub connected : Bool
  pub listeners : List ℕ
  -- the timer of `subscriptionHeartbeats`
  pub beating : Bool
  pub sent : List Command

abbrev pub is_nil : List ℕ → Bool
is_nil [] = true
is_nil (l ∷ ls) = false

-- `removeListener`
abbrev pub remove_one : ℕ → List ℕ → List ℕ
remove_one l [] = []
remove_one l (k ∷ ks) = if k == l then ks else k ∷ remove_one l ks

pub subscribe : ℕ → Instance → Instance
subscribe l i =
    if not i.connected
    then i
    else if is_nil i.listeners
    then record i {
      listeners = l ∷ i.listeners;
      beating = true;
      sent = i.sent ++ subscribe_channel ∷ incr_subscribers ∷ [];
    }
    else record i { listeners = l ∷ i.listeners }

pub unsubscribe : ℕ → Instance → Instance
unsubscribe l i =
    let ls = remove_one l i.listeners in
    if is_nil ls
    then record i {
      listeners = ls;
      beating = false;
      sent = i.sent ++ decr_subscribers ∷ unsubscribe_channel ∷ [];
    }
    else record i { listeners = ls }

pub data Event : Type 0 where
  arrive leave : ℕ → Event
  connection : Bool → Event

pub step : Event → Instance → Instance
unfolding subscribe unsubscribe
step (arrive l) i = subscribe l i
step (leave l) i = unsubscribe l i
step (connection b) i = record i { connected = b }

pub run : List Event → Instance → Instance
unfolding step
run [] i = i
run (e ∷ es) i = run es (step e i)

abbrev pub started : Instance
started = record { connected = false; listeners = []; beating = false; sent = [] }

-- The heartbeat runs exactly while somebody listens.
abbrev pub IsBeating : Instance → Type 0
IsBeating i = i.beating ≡ not (is_nil i.listeners)

-- However clients and connections come and go, the heartbeat that keeps the count of subscribers alive
-- runs exactly while somebody listens at the instance.
pub run-IsBeating : (es : List Event) (i : Instance) → IsBeating i → IsBeating (run es i)
unfolding run step subscribe unsubscribe
run-IsBeating [] i h = h
run-IsBeating (arrive l ∷ es) i h = run-IsBeating es (subscribe l i) (ground (arith, h))
run-IsBeating (leave l ∷ es) i h = run-IsBeating es (unsubscribe l i) (ground (arith, h))
run-IsBeating (connection b ∷ es) i h = run-IsBeating es (record i { connected = b }) h

abbrev pub incrs : List Command → ℕ
incrs [] = 0
incrs (incr_subscribers ∷ cs) = suc (incrs cs)
incrs (_ ∷ cs) = incrs cs

abbrev pub decrs : List Command → ℕ
decrs [] = 0
decrs (decr_subscribers ∷ cs) = suc (decrs cs)
decrs (_ ∷ cs) = decrs cs

-- The clients that leave while nobody listens: their arrival was turned away without a connection.
pub strays : List Event → Instance → ℕ
unfolding step
strays [] i = 0
strays (leave l ∷ es) i = (if is_nil i.listeners then 1 else 0) + strays es (unsubscribe l i)
strays (e ∷ es) i = strays es (step e i)

abbrev pub listening : Instance → ℕ
listening i = if is_nil i.listeners then 0 else 1

incrs-append : (xs ys : List Command) → incrs (xs ++ ys) ≡ incrs xs + incrs ys
incrs-append [] ys = omega arith
incrs-append (incr_subscribers ∷ xs) ys = ground (arith, incrs-append xs ys)
incrs-append (decr_subscribers ∷ xs) ys = incrs-append xs ys
incrs-append (subscribe_channel ∷ xs) ys = incrs-append xs ys
incrs-append (unsubscribe_channel ∷ xs) ys = incrs-append xs ys

decrs-append : (xs ys : List Command) → decrs (xs ++ ys) ≡ decrs xs + decrs ys
decrs-append [] ys = omega arith
decrs-append (decr_subscribers ∷ xs) ys = ground (arith, decrs-append xs ys)
decrs-append (incr_subscribers ∷ xs) ys = decrs-append xs ys
decrs-append (subscribe_channel ∷ xs) ys = decrs-append xs ys
decrs-append (unsubscribe_channel ∷ xs) ys = decrs-append xs ys

stray_of : Event → Instance → ℕ
stray_of (leave l) i = if is_nil i.listeners then 1 else 0
stray_of _ i = 0

step-balance :
    (e : Event) (i : Instance)
    → incrs (step e i).sent + stray_of e i + decrs i.sent + listening i
      ≡ decrs (step e i).sent + listening (step e i) + incrs i.sent
unfolding step subscribe unsubscribe stray_of
step-balance (connection b) i = omega arith
step-balance (arrive l) i =
    let cs = subscribe_channel ∷ incr_subscribers ∷ [] in
    ground (arith, incrs-append i.sent cs, decrs-append i.sent cs)
step-balance (leave l) i =
    let cs = decr_subscribers ∷ unsubscribe_channel ∷ [] in
    let left = remove_nil l i.listeners in
    ground (arith, incrs-append i.sent cs, decrs-append i.sent cs, left)
  where
    remove_nil : (l : ℕ) (ls : List ℕ) → is_nil ls ≡ true → is_nil (remove_one l ls) ≡ true
    remove_nil l [] h = refl
    remove_nil l (k ∷ ks) h = cc

run-balance :
    (es : List Event) (i : Instance)
    → incrs (run es i).sent + strays es i + decrs i.sent + listening i
      ≡ decrs (run es i).sent + listening (run es i) + incrs i.sent
unfolding run strays stray_of step
run-balance [] i = omega arith
run-balance (arrive l ∷ es) i =
    omega (arith, step-balance (arrive l) i, run-balance es (step (arrive l) i))
run-balance (leave l ∷ es) i =
    omega (arith, step-balance (leave l) i, run-balance es (step (leave l) i))
run-balance (connection b ∷ es) i =
    omega (arith, step-balance (connection b) i, run-balance es (step (connection b) i))

-- The count of subscribers in Redis is lowered as often as it was raised, but for the clients that still
-- listen at the instance, and once more for each client that leaves while nobody listens: one that
-- came without a connection to Redis takes another instance's subscriber away.
pub run-decrs :
    (es : List Event)
    → decrs (run es started).sent + listening (run es started)
      ≡ incrs (run es started).sent + strays es started
run-decrs es = omega (arith, run-balance es started)
