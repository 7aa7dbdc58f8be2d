-- ===== src/Scheduler.antt =====
-- src/infra/scheduler/index.ts: a job that several instances of the API are told to run at the same
-- times, and that one of them runs. The world is what the instances share: the lock and the key
-- `api:jobs:info:` of the job in Redis, and the rows of `scheduled_job_run`. A request fails before it
-- changes anything, or not at all; which ones fail, the world says in advance. That a lock expires
-- during a job is not modelled.
mod Steps
mod Laws
mod Slots
mod Examples
use open_balena_api.Base.{
  ◌>>=◌, ◌>>◌, ℕ, suc, ◌+◌, ◌==◌, leb, ltb, Bool, true, false, not, ◌&&◌, ◌||◌, Option, none, some,
  List, [], ◌∷◌, ◌++◌, map, if◌then◌else◌, String, Result, ok, err, Error, other, Eff, pure, catch,
}
use open_balena_api.Base.Regex.{Regex, all_of, literal, plus, class, digit, in_range, test}

pub data Status : Type 0 where
  running success failed : Status

abbrev pub is_success : Status → Bool
is_success success = true
is_success _ = false

-- A row of `scheduled_job_run`.
pub record Run : Type 0 where
  pub id : ℕ
  pub start_timestamp : ℕ
  pub status : Status
  pub end_timestamp : Option ℕ

-- The value of the key with the job's info, whose `nextInvocation` may be null.
pub record JobInfo : Type 0 where
  pub next_invocation : Option ℕ

pub record World : Type 0 where
  -- what `Date.now()` gives
  pub now : ℕ
  -- which of the next requests fail; those after the list do not
  pub faults : List Bool
  -- an instance has the lock
  pub locked : Bool
  pub info : Option JobInfo
  pub runs : List Run
  pub next_id : ℕ
  -- how often the job's function was called, and how often the lock was taken, and a request made to
  -- give it back
  pub calls : ℕ
  pub taken : ℕ
  pub released : ℕ
  -- how often `captureException` was called
  pub captured : ℕ

abbrev pub Handler : Type 0 → Type 0
Handler A = Eff World A

abbrev pub fault : Error
fault = other 0

-- One request of Redis or the database, with the faults to come.
abbrev pub requested : {A : Type 0} → Handler A → List Bool → Handler A
requested m [] w = m w
requested m (true ∷ fs) w = (err fault, record w { faults = fs })
requested m (false ∷ fs) w = m (record w { faults = fs })

abbrev pub request : {A : Type 0} → Handler A → Handler A
request m w = requested m w.faults w

abbrev pub change : (World → World) → Handler (Unit {0})
change f = request (λ w. (ok tt, f w))

-- `finally`, where the last part does not throw
abbrev pub ensure : {A : Type 0} → Handler A → (World → World) → Handler A
ensure m last w = let r = m w in (r.0, last r.1)

abbrev pub capture : World → World
capture w = record w { captured = w.captured + 1 }

-- One instance's job: its flag in DISABLED_SCHEDULED_JOBS, `job.nextInvocation()`, the function, and what
-- Redlock throws if another has the lock; `lock_message` is the message of an error that is a LockError.
pub record Job : Type 0 where
  pub disabled : Bool
  pub next : ℕ
  pub function : ℕ → Result (Unit {0})
  pub busy : Error
  pub lock_message : Error → Option String

-- `\s` of regular expressions
abbrev space : ℕ → Bool
space c =
    in_range 9 13 c
    || c == 32
    || c == 160
    || c == 5760
    || in_range 8192 8202 c
    || in_range 8232 8233 c
    || c == 8239
    || c == 8287
    || c == 12288
    || c == 65279

abbrev exceeded : Regex
exceeded = all_of (
    literal "Exceeded"
    ∷ class space
    ∷ plus (class digit)
    ∷ class space
    ∷ literal "attempts"
    ∷ class space
    ∷ literal "to"
    ∷ class space
    ∷ literal "lock"
    ∷ class space
    ∷ literal "the"
    ∷ class space
    ∷ literal "resource"
    ∷ class space
    ∷ [])

abbrev pub is_busy : Job → Error → Bool
is_busy j e = elim (j.lock_message e) [ some m ↦ test exceeded m | none ↦ false ]

abbrev pub take_unless : Bool → Job → Handler (Unit {0})
take_unless true j w = (err j.busy, w)
take_unless false j w = (ok tt, record w { locked = true; taken = w.taken + 1 })

abbrev pub take : Job → Handler (Unit {0})
take j w = take_unless w.locked j w

pub lock : Job → Handler (Unit {0})
lock j = request (take j)

abbrev pub give : Handler (Unit {0})
give w = (ok tt, record w { locked = false; released = w.released + 1 })

abbrev pub note_failure : Error → Handler (Unit {0})
note_failure e w = (ok tt, record (capture w) { released = w.released + 1 })

-- The request of the unlock, or the capture of its failure.
pub unlock : World → World
unlock w = (catch (request give) note_failure w).1

pub update_job_info_execute : Job → Handler (Unit {0})
update_job_info_execute j =
    change (λ w. record w { info = some (record { next_invocation = some j.next }) })

abbrev pub is_due : Job → ℕ → JobInfo → Bool
is_due j fire_date i = elim i.next_invocation [
  | none ↦ true
  | some n ↦ leb n fire_date || ltb j.next n
]

abbrev pub decide : Job → ℕ → Option JobInfo → Handler Bool
decide j fire_date none = do update_job_info_execute j; pure true
decide j fire_date (some i) = pure (is_due j fire_date i)

pub check_job_should_execute : Job → ℕ → Handler Bool
check_job_should_execute j fire_date = do
  value ← request (λ w. (ok w.info, w))
  decide j fire_date value

-- The PATCH of a run, where the filter lets it through.
abbrev pub set_run : ℕ → (Run → Bool) → Status → ℕ → List Run → List Run
set_run i filter st now rs =
    map
      (λ r. if r.id == i && filter r then record r { status = st; end_timestamp = some now } else r)
      rs

pub post_run : Handler ℕ
post_run = request (λ w. (
  ok w.next_id,
  record w {
    next_id = suc w.next_id;
    runs =
        w.runs
        ++ record {
          id = w.next_id;
          start_timestamp = w.now;
          status = running;
          end_timestamp = none;
        }
          ∷ [];
  },
))

pub patch_run : ℕ → (Run → Bool) → Status → Handler (Unit {0})
patch_run i filter st = change (λ w. record w { runs = set_run i filter st w.now w.runs })

abbrev pub call : Job → ℕ → Handler (Unit {0})
call j fire_date w = (j.function fire_date, record w { calls = suc w.calls })

-- The `catch` of a job: the run, if there is one, is marked as failed unless it was successful.
abbrev pub fail_run : Option ℕ → Handler (Unit {0})
fail_run none = pure tt
fail_run (some i) = patch_run i (λ r. not (is_success r.status)) failed

abbrev pub on_error : Job → Option ℕ → Error → Handler (Unit {0})
on_error j run e w = (do fail_run run; update_job_info_execute j) (capture w)

abbrev pub succeed : Job → ℕ → Handler (Unit {0})
succeed j i = do patch_run i (λ r. true) success; update_job_info_execute j

-- What the `try` does once there is a row of the run.
abbrev pub run_job : Job → ℕ → ℕ → Handler (Unit {0})
run_job j fire_date i = catch (do call j fire_date; succeed j i) (on_error j (some i))

-- After the POST of the run; its own error is caught without a row.
abbrev pub posted : Job → ℕ → Result ℕ × World → Result (Unit {0}) × World
posted j fire_date (ok i, w) = run_job j fire_date i w
posted j fire_date (err e, w) = on_error j none e w

abbrev pub checked : Job → ℕ → Result Bool × World → Result (Unit {0}) × World
checked j fire_date (ok true, w) = posted j fire_date (post_run w)
checked j fire_date (ok false, w) = (ok tt, w)
checked j fire_date (err e, w) = on_error j none e w

-- The `try` with its `catch`, with the lock.
pub run_if_due : Job → ℕ → Handler (Unit {0})
run_if_due j fire_date w = checked j fire_date (check_job_should_execute j fire_date w)

abbrev pub report : Job → Error → Handler (Unit {0})
report j e w = (ok tt, if is_busy j e then w else capture w)

-- The function that node-schedule calls with the date.
pub execute : Job → ℕ → Handler (Unit {0})
execute j fire_date w =
    if j.disabled
    then (ok tt, w)
    else catch (do lock j; ensure (run_if_due j fire_date) unlock) (report j) w
