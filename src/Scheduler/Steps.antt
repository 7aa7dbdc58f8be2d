-- ===== src/Scheduler/Steps.antt =====
-- What a job keeps whichever requests fail, src/infra/scheduler/index.ts.
use open_balena_api.Base.{
  ℕ, suc, ◌+◌, ◌≡◌, refl, subst, sym, inl, inr, Bool, true, false, not, Bool-cases, Option, none,
  some, List, [], ◌∷◌, ◌++◌, if◌then◌else◌, Result, ok, err, Error, continue, rescue,
}
use open_balena_api.Scheduler.{
  World, Job, JobInfo, Handler, Run, running, success, failed, is_success, capture, request,
  requested, update_job_info_execute, decide, check_job_should_execute, set_run, post_run,
  patch_run, fail_run, on_error, succeed, run_job, posted, checked, run_if_due, lock, unlock,
  execute, take, take_unless, give, note_failure, report, is_busy, ensure,
}

-- A relation of the worlds before and after, which the steps of a job keep.
module _ (P : World → World → Type 0) (same : (w : World) → P w w)
    (chain : (u v w : World) → P u v → P v w → P u w)
    (fewer : (w : World) (fs : List Bool) → P w (record w { faults = fs })) where
  abbrev Does : {A : Type 0} → Handler A → Type 0
  Does m = (w : World) → P w (m w).1

  requested-Does : {A : Type 0} → (m : Handler A) (fs : List Bool) → Does m → Does (requested m fs)
  requested-Does m [] h w = h w
  requested-Does m (true ∷ fs) h w = fewer w fs
  requested-Does m (false ∷ fs) h w =
      let u = record w { faults = fs } in chain w u (m u).1 (fewer w fs) (h u)

  request-Does : {A : Type 0} → (m : Handler A) → Does m → Does (request m)
  request-Does m h w = requested-Does m w.faults h w

  continue-Does :
      {A B : Type 0}
      → (w : World) (r : Result A × World) (k : A → Handler B) → P w r.1
      → ((a : A) → Does (k a))
      → P w (continue r k).1
  continue-Does w (ok a, v) k h d = chain w v (k a v).1 h (d a v)
  continue-Does w (err e, v) k h d = h

  rescue-Does :
      {A : Type 0}
      → (w : World) (r : Result A × World) (k : Error → Handler A) → P w r.1
      → ((e : Error) → Does (k e))
      → P w (rescue r k).1
  rescue-Does w (ok a, v) k h d = h
  rescue-Does w (err e, v) k h d = chain w v (k e v).1 h (d e v)

  module _ (j : Job) (f : ℕ)
      (informs : (w : World) (i : JobInfo) → P w (record w { info = some i }))
      (posts : (w : World) (r : Run)
        → r.status ≡ running
        → P w (record w { next_id = suc w.next_id; runs = w.runs ++ r ∷ [] }))
      (fails : (w : World) (i : ℕ) (p : Run → Bool)
        → P w (record w { runs = set_run i p failed w.now w.runs }))
      (wins : (w : World) (i : ℕ)
        → j.function f ≡ ok tt
        → P w (record w { runs = set_run i (λ r. true) success w.now w.runs }))
      (calls : (w : World) → P w (record w { calls = suc w.calls }))
      (captures : (w : World) → P w (capture w)) where
    update-Does : Does (update_job_info_execute j)
    unfolding update_job_info_execute
    update-Does =
        request-Does
          (λ w. (ok tt, record w { info = some (record { next_invocation = some j.next }) }))
          (λ w. informs w (record { next_invocation = some j.next }))

    decide-Does : (value : Option JobInfo) → Does (decide j f value)
    decide-Does none w =
        continue-Does w (update_job_info_execute j w) (λ _ v. (ok true, v)) (update-Does w)
          (λ _. same)
    decide-Does (some i) w = same w

    check-Does : Does (check_job_should_execute j f)
    unfolding check_job_should_execute
    check-Does w =
        continue-Does w (request (λ v. (ok v.info, v)) w) (decide j f)
          (request-Does (λ v. (ok v.info, v)) same w) decide-Does

    fail_run-Does : (run : Option ℕ) → Does (fail_run run)
    unfolding patch_run
    fail_run-Does none w = same w
    fail_run-Does (some i) w =
        request-Does
          (λ v. (
            ok tt,
            record v { runs = set_run i (λ r. not (is_success r.status)) failed v.now v.runs },
          ))
          (λ v. fails v i (λ r. not (is_success r.status))) w

    on_error-Does : (run : Option ℕ) (e : Error) → Does (on_error j run e)
    on_error-Does run e w =
        let u = capture w in
        chain w u (on_error j run e w).1 (captures w) (
          continue-Does u (fail_run run u) (λ _. update_job_info_execute j) (fail_run-Does run u)
            (λ _. update-Does))

    succeed-Does : (i : ℕ) → j.function f ≡ ok tt → Does (succeed j i)
    unfolding patch_run
    succeed-Does i h w =
        continue-Does w (patch_run i (λ r. true) success w) (λ _. update_job_info_execute j)
          (request-Does
            (λ v. (ok tt, record v { runs = set_run i (λ r. true) success v.now v.runs }))
            (λ v. wins v i h) w)
          (λ _. update-Does)

    called-Does :
        (i : ℕ) (r : Result (Unit {0}))
        → j.function f ≡ r
        → (w : World) → P w (continue (r, w) (λ _. succeed j i)).1
    called-Does i (ok tt) h w = succeed-Does i h w
    called-Does i (err e) h w = same w

    run_job-Does : (i : ℕ) → Does (run_job j f i)
    run_job-Does i w =
        let u = record w { calls = suc w.calls } in
        let r = continue (j.function f, u) (λ _. succeed j i) in
        rescue-Does w r (on_error j (some i))
          (chain w u r.1 (calls w) (called-Does i (j.function f) refl u)) (on_error-Does (some i))

    posted-Does : (w : World) (r : Result ℕ × World) → P w r.1 → P w (posted j f r).1
    posted-Does w (ok i, v) h = chain w v (run_job j f i v).1 h (run_job-Does i v)
    posted-Does w (err e, v) h = chain w v (on_error j none e v).1 h (on_error-Does none e v)

    post_run-Does : Does post_run
    unfolding post_run
    post_run-Does =
        request-Does
          (λ w.
            let r : Run = record {
              id = w.next_id;
              start_timestamp = w.now;
              status = running;
              end_timestamp = none;
            } in
            (ok w.next_id, record w { next_id = suc w.next_id; runs = w.runs ++ r ∷ [] }))
          (λ w.
            posts w
              (record {
                id = w.next_id;
                start_timestamp = w.now;
                status = running;
                end_timestamp = none;
              })
              refl)

    checked-Does : (w : World) (r : Result Bool × World) → P w r.1 → P w (checked j f r).1
    checked-Does w (ok true, v) h =
        chain w v (posted j f (post_run v)).1 h (posted-Does v (post_run v) (post_run-Does v))
    checked-Does w (ok false, v) h = h
    checked-Does w (err e, v) h = chain w v (on_error j none e v).1 h (on_error-Does none e v)

    -- Whatever each step of a job keeps, what is done with the lock keeps.
    pub run_if_due-Does : Does (run_if_due j f)
    unfolding run_if_due
    run_if_due-Does w = checked-Does w (check_job_should_execute j f w) (check-Does w)

    module _
        (locks : (w : World) (b : Bool) (t r : ℕ)
          → P w (record w { locked = b; taken = t; released = r })) where
      take-Does : (b : Bool) → Does (take_unless b j)
      take-Does true w = same w
      take-Does false w = locks w true (w.taken + 1) w.released

      unlock-Does : (w : World) → P w (unlock w)
      unfolding unlock
      unlock-Does w =
          rescue-Does w (request give w) note_failure
            (request-Does give (λ v. locks v false v.taken (v.released + 1)) w)
            (λ e v.
              chain v (capture v) (note_failure e v).1 (captures v)
                (locks (capture v) v.locked v.taken (v.released + 1)))

      report-Does : (e : Error) → Does (report j e)
      report-Does e w = elim (Bool-cases (is_busy j e)) [
        | inl h ↦ subst (λ b. P w (if b then w else capture w)) (sym h) (same w)
        | inr h ↦ subst (λ b. P w (if b then w else capture w)) (sym h) (captures w)
      ]

      locked-Does : Does (ensure (run_if_due j f) unlock)
      locked-Does w =
          let r = run_if_due j f w in chain w r.1 (unlock r.1) (run_if_due-Does w) (unlock-Does r.1)

      -- And so does the whole handler, if the lock's own changes keep it.
      pub execute-Does : Does (execute j f)
      unfolding execute lock
      execute-Does w = elim (Bool-cases j.disabled) [
        | inl h ↦ simp h (same w)
        | inr h ↦
            let r = continue (lock j w) (λ _. ensure (run_if_due j f) unlock) in
            let run : P w (rescue r (report j)).1 =
              rescue-Does w r (report j)
                (continue-Does w (lock j w) (λ _. ensure (run_if_due j f) unlock)
                  (request-Does (take j) (λ v. take-Does v.locked v) w) (λ _. locked-Does))
                report-Does in
            simp h run
      ]
