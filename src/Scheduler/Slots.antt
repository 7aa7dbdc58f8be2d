-- ===== src/Scheduler/Slots.antt =====
-- A job at its successive dates, each of them at several instances, src/infra/scheduler/index.ts.
use open_balena_api.Base.{
  ℕ, zero, suc, ◌+◌, ◌<◌, ◌≡◌, refl, ap, subst, sym, Bool, true, false, Bool-cases, inl, inr,
  Option, none, some, [], Result, ok, err, arith,
}
use open_balena_api.Scheduler.{
  World, Job, JobInfo, is_due, is_busy, lock, unlock, update_job_info_execute,
  check_job_should_execute, post_run, patch_run, run_if_due, execute,
}

-- The world between the calls, where no request fails: the key of the job has this info, and its
-- function was called so often.
abbrev pub between : Option JobInfo → ℕ → World → World
between i n w = record w { faults = []; locked = false; info = i; calls = n }

abbrev pub Between : Option JobInfo → ℕ → World → Type 0
Between i n w = w ≡ between i n w

abbrev pub info_at : ℕ → Option JobInfo
info_at n = some (record { next_invocation = some n })

abbrev pub due : Job → ℕ → Option JobInfo → Bool
due j f none = true
due j f (some i) = is_due j f i

-- The job of an instance that is not disabled.
abbrev pub enabled : Job → Job
enabled j = record j { disabled = false }

due-runs :
    (j : Job) (f : ℕ) (i : Option JobInfo) (n : ℕ) (w : World) (r : Result (Unit {0}))
    → j.function f ≡ r
    → due j f i ≡ true
    → Between (info_at j.next) (suc n) (execute (enabled j) f (between i n w)).1
unfolding execute lock unlock run_if_due check_job_should_execute post_run patch_run
    update_job_info_execute
due-runs j f none n w (ok tt) h k = simp h refl
due-runs j f none n w (err e) h k = simp h refl
due-runs j f (some i) n w (ok tt) h k = simp (h, k) refl
due-runs j f (some i) n w (err e) h k = simp (h, k) refl

not_due-rests :
    (j : Job) (f : ℕ) (i : Option JobInfo) (n : ℕ) (w : World)
    → due j f i ≡ false
    → Between i n (execute (enabled j) f (between i n w)).1
unfolding execute lock unlock run_if_due check_job_should_execute
not_due-rests j f none n w k = cc
not_due-rests j f (some i) n w k = simp k refl

-- An instance is called while another one has the lock, and so many.
pub attempt : Job → ℕ → World → World
attempt j f w =
    let u = (execute (enabled j) f (record w { locked = true })).1 in record u { locked = w.locked }

pub attempts : ℕ → Job → ℕ → World → World
attempts zero j f w = w
attempts (suc c) j f w = attempts c j f (attempt j f w)

attempt-rests :
    (j : Job) (f : ℕ) (i : Option JobInfo) (n : ℕ) (w : World)
    → Between i n (attempt j f (between i n w))
unfolding attempt execute lock
attempt-rests j f i n w = elim (Bool-cases (is_busy j j.busy)) [
  | inl e ↦ simp e refl
  | inr e ↦ simp e refl
]

attempts-rests :
    (c : ℕ) (j : Job) (f : ℕ) (i : Option JobInfo) (n : ℕ) (w : World)
    → Between i n w
    → Between i n (attempts c j f w)
unfolding attempts
attempts-rests zero j f i n w h = h
attempts-rests (suc c) j f i n w h =
    attempts-rests c j f i n (attempt j f w)
      (subst (λ u. Between i n (attempt j f u)) (sym h) (attempt-rests j f i n w))

-- So many instances are called with one date, one after the other.
pub fire : ℕ → Job → ℕ → World → World
fire zero j f w = w
fire (suc c) j f w = fire c j f (execute (enabled j) f w).1

module _ (dates : ℕ → ℕ) (job : Job) (meanwhile others : ℕ → ℕ) where
  abbrev job_at : ℕ → Job
  job_at i = record job { next = dates (suc i) }

  -- The dates from the `i`th on, so many. One instance has the lock; `meanwhile` more are called before
  -- its job has begun to change anything, and `others` more after it has given the lock back.
  pub fire_dates : ℕ → ℕ → World → World
  fire_dates i zero w = w
  fire_dates i (suc m) w =
      fire_dates (suc i) m
        (fire (suc (others i)) (job_at i) (dates i) (attempts (meanwhile i) (job_at i) (dates i) w))

  execute-due :
      (i n : ℕ) (o : Option JobInfo) (w : World)
      → due (job_at i) (dates i) o ≡ true
      → Between o n w
      → Between (info_at (dates (suc i))) (suc n) (execute (enabled (job_at i)) (dates i) w).1
  execute-due i n o w k h =
      subst
        (λ u.
          Between (info_at (dates (suc i))) (suc n) (execute (enabled (job_at i)) (dates i) u).1)
        (sym h) (due-runs (job_at i) (dates i) o n w (job.function (dates i)) refl k)

  fire-rests :
      (c i n : ℕ) (w : World)
      → dates i < dates (suc i)
      → Between (info_at (dates (suc i))) n w
      → Between (info_at (dates (suc i))) n (fire c (job_at i) (dates i) w)
  unfolding fire
  fire-rests zero i n w l h = h
  fire-rests (suc c) i n w l h =
      let o = info_at (dates (suc i)) in
      let j = enabled (job_at i) in
      let rests : due (job_at i) (dates i) o ≡ false = ground (arith, l) in
      fire-rests c i n (execute j (dates i) w).1 l (
        subst (λ u. Between o n (execute j (dates i) u).1) (sym h)
          (not_due-rests (job_at i) (dates i) o n w rests))

  fire_dates-calls :
      ((k : ℕ) → dates k < dates (suc k))
      → (m i n : ℕ) (o : Option JobInfo) (w : World) → due (job_at i) (dates i) o ≡ true
      → Between o n w
      → (fire_dates i m w).calls ≡ n + m
  unfolding fire_dates fire
  fire_dates-calls l zero i n o w k h = ground (arith, ap (λ (u : World). u.calls) h)
  fire_dates-calls l (suc m) i n o w k h =
      let w' = attempts (meanwhile i) (job_at i) (dates i) w in
      let h' = attempts-rests (meanwhile i) (job_at i) (dates i) o n w h in
      let one = execute-due i n o w' k h' in
      let all =
        fire-rests (others i) i (suc n) (execute (enabled (job_at i)) (dates i) w').1 (l i) one in
      let rest =
        fire_dates-calls l m (suc i) (suc n) (info_at (dates (suc i)))
          (fire (suc (others i)) (job_at i) (dates i) w') (ground (arith, l (suc i))) all in
      omega (arith, rest)

  -- Where no request fails: for each of the increasing dates, from the first that Redis knows nothing
  -- about, the function is called once, whether or not it fails, however many instances are called with
  -- the date while one has the lock and has not yet changed anything, and however many one after the
  -- other when it has given the lock back.
  pub fire_dates-once :
      (m : ℕ) (w : World)
      → ((k : ℕ) → dates k < dates (suc k))
      → Between none w.calls w
      → (fire_dates 0 m w).calls ≡ w.calls + m
  fire_dates-once m w l h = fire_dates-calls l m 0 w.calls none w refl h
