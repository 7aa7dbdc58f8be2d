-- ===== src/Scheduler/Examples.antt =====
-- Runs of a job, src/infra/scheduler/index.ts.
use open_balena_api.Base.{
  ◌+◌, ◌≡◌, refl, arith, Bool, true, false, none, some, List, [], ◌∷◌, length, err, other,
}
use open_balena_api.Base.Regex.{test}
use open_balena_api.Scheduler.{
  World, Job, execute, is_busy, lock, unlock, run_if_due, check_job_should_execute, post_run,
  patch_run, update_job_info_execute,
}
use open_balena_api.Scheduler.Laws.{execute-released}
use open_balena_api.Scheduler.Slots.{fire_dates, fire_dates-once}

abbrev start : List Bool → World
start fs = record {
  now = 60;
  faults = fs;
  locked = false;
  info = none;
  runs = [];
  next_id = 1;
  calls = 0;
  taken = 0;
  released = 0;
  captured = 0;
}

abbrev job : Job
job = record {
  disabled = false;
  next = 20;
  function = λ f. err (other 7);
  busy = other 9;
  lock_message = λ e. some "Exceeded 3 attempts to lock the resource \"api:jobs:execute:a\".";
}

busy : is_busy job (other 9) ≡ true
unfolding test
busy = refl

-- The POST of the run fails, and then the unlock.
execute-released_example :
    (execute job 10 (start (false ∷ false ∷ false ∷ true ∷ false ∷ true ∷ []))).1.taken
    ≡ (execute job 10 (start (false ∷ false ∷ false ∷ true ∷ false ∷ true ∷ []))).1.released
execute-released_example =
    execute-released job 10 (start (false ∷ false ∷ false ∷ true ∷ false ∷ true ∷ [])) refl

recorded : length (execute job 10 (start [])).1.runs ≡ 1
unfolding execute lock unlock run_if_due check_job_should_execute post_run patch_run
    update_job_info_execute
recorded = refl

-- Three dates, each at one instance, two that find the lock held and two later ones.
fire_dates-once_example : (fire_dates (λ k. k + 1) job (λ k. 2) (λ k. 2) 0 3 (start [])).calls ≡ 3
fire_dates-once_example =
    fire_dates-once (λ k. k + 1) job (λ k. 2) (λ k. 2) 3 (start []) (λ k. omega arith) refl
