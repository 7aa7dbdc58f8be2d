-- ===== src/Scheduler/Laws.antt =====
-- What holds whichever requests fail, src/infra/scheduler/index.ts.
use open_balena_api.Base.{
  ℕ, ◌+◌, ◌≤◌, ◌≡◌, ◌∙◌, refl, inl, inr, Bool, true, false, Bool-cases, List, [], ◌∷◌, ◌++◌,
  if◌then◌else◌, Result, ok, err, Error, continue, rescue, arith,
}
use open_balena_api.Scheduler.{
  World, Job, Run, is_success, failed, set_run, requested, lock, unlock, take_unless, take, give,
  note_failure, report, is_busy, ensure, fault, run_if_due, execute,
}
use open_balena_api.Scheduler.Steps.{run_if_due-Does, execute-Does}

-- The lock and its counters are left alone.
SameLock : World → World → Type 0
SameLock v w = (w.taken ≡ v.taken) × (w.released ≡ v.released)

run_if_due-SameLock : (j : Job) (f : ℕ) (w : World) → SameLock w (run_if_due j f w).1
unfolding SameLock
run_if_due-SameLock j f w =
    run_if_due-Does SameLock (λ _. (refl, refl)) (λ t u v a b. (b.0 ∙ a.0, b.1 ∙ a.1))
      (λ _ _. (refl, refl)) j f (λ _ _. (refl, refl)) (λ _ _ _. (refl, refl))
      (λ _ _ _. (refl, refl)) (λ _ _ _. (refl, refl)) (λ _. (refl, refl)) (λ _. (refl, refl)) w

given-counts :
    (fs : List Bool) (v : World)
    → ((rescue (requested give fs v) note_failure).1.taken ≡ v.taken)
      × ((rescue (requested give fs v) note_failure).1.released ≡ v.released + 1)
given-counts [] v = (refl, refl)
given-counts (true ∷ fs) v = (refl, refl)
given-counts (false ∷ fs) v = (refl, refl)

unlock-counts : (w : World) → ((unlock w).taken ≡ w.taken) × ((unlock w).released ≡ w.released + 1)
unfolding unlock
unlock-counts w = given-counts w.faults w

-- The lock and its counters, once the lock is asked for with this result.
Balanced : (j : Job) → ℕ → Result (Unit {0}) × World → Type 0
Balanced j f r =
    (rescue (continue r (λ _. ensure (run_if_due j f) unlock)) (report j)).1.taken
    ≡ (rescue (continue r (λ _. ensure (run_if_due j f) unlock)) (report j)).1.released

rescue-counts :
    (j : Job) (r : Result (Unit {0}) × World)
    → r.1.taken ≡ r.1.released
    → (rescue r (report j)).1.taken ≡ (rescue r (report j)).1.released
rescue-counts j (ok a, w) h = h
rescue-counts j (err e, w) h = elim (Bool-cases (is_busy j e)) [
  | inl k ↦ ground (arith, h)
  | inr k ↦ ground (arith, h)
]

held-Balanced : (j : Job) (f : ℕ) (w : World) → w.taken ≡ w.released + 1 → Balanced j f (ok tt, w)
unfolding Balanced SameLock
held-Balanced j f w h =
    let a = run_if_due-SameLock j f w in
    let b = unlock-counts (run_if_due j f w).1 in
    rescue-counts j (ensure (run_if_due j f) unlock w) (omega (arith, a.0, a.1, b.0, b.1, h))

take-Balanced :
    (b : Bool) (j : Job) (f : ℕ) (w : World)
    → w.taken ≡ w.released
    → Balanced j f (take_unless b j w)
unfolding Balanced
take-Balanced true j f w h = rescue-counts j (err j.busy, w) h
take-Balanced false j f w h =
    held-Balanced j f (record w { locked = true; taken = w.taken + 1 }) (omega (arith, h))

taken-Balanced :
    (j : Job) (f : ℕ) (fs : List Bool) (w : World)
    → w.taken ≡ w.released
    → Balanced j f (requested (take j) fs w)
unfolding Balanced
taken-Balanced j f (true ∷ fs) w h = rescue-counts j (err fault, record w { faults = fs }) h
taken-Balanced j f (false ∷ fs) w h = take-Balanced w.locked j f (record w { faults = fs }) h
taken-Balanced j f [] w h = take-Balanced w.locked j f w h

-- Whichever requests fail: each time that the lock is taken, it is asked to be given back once.
pub execute-released :
    (j : Job) (f : ℕ) (w : World)
    → w.taken ≡ w.released
    → (execute j f w).1.taken ≡ (execute j f w).1.released
unfolding execute lock Balanced
execute-released j f w h = elim (Bool-cases j.disabled) [
  | inl k ↦ simp k h
  | inr k ↦ simp k (taken-Balanced j f w.faults w h)
]

abbrev pub successes : List Run → ℕ
successes [] = 0
successes (r ∷ rs) = (if is_success r.status then 1 else 0) + successes rs

successes-append : (xs ys : List Run) → successes (xs ++ ys) ≡ successes xs + successes ys
successes-append [] ys = omega arith
successes-append (x ∷ xs) ys = ground (arith, successes-append xs ys)

successes-set_run :
    (i : ℕ) (p : Run → Bool) (now : ℕ) (rs : List Run)
    → successes (set_run i p failed now rs) ≤ successes rs
successes-set_run i p now [] = omega arith
successes-set_run i p now (r ∷ rs) = ground (arith, successes-set_run i p now rs)

NoSuccess : World → World → Type 0
NoSuccess v w = successes w.runs ≤ successes v.runs

-- A job whose function fails is recorded as a success in no row, whichever requests fail.
pub execute-failed :
    (j : Job) (f : ℕ) (e : Error) (w : World)
    → j.function f ≡ err e
    → successes (execute j f w).1.runs ≤ successes w.runs
unfolding NoSuccess
execute-failed j f e w h =
    execute-Does NoSuccess (λ _. omega arith) (λ t u v a b. omega (arith, a, b))
      (λ _ _. omega arith) j f (λ _ _. omega arith)
      (λ v r k. ground (arith, successes-append v.runs (r ∷ []), k))
      (λ v i p. successes-set_run i p v.now v.runs) (λ v i k. ground (arith, h, k))
      (λ _. omega arith) (λ _. omega arith) (λ _ _ _ _. omega arith) w
