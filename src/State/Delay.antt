-- ===== src/State/Delay.antt =====
-- `getStateDelayingEmpty` of src/features/device-state/state-get-utils.ts. What the store of the
-- last failures holds for the device and its permissions is an argument; it may have expired.
mod Laws
mod Examples
use open_balena_api.Base.{ℕ, ◌+◌, ltb, Bool, true, false, Option, none, some, if◌then◌else◌}

-- A call: the state that a fetch finds, if any, and the times before and after a fetch.
pub record Call {ℓ} (A : Type ℓ) : Type ℓ where
  pub found : Option A
  pub before : ℕ
  pub after : ℕ

-- The answer of a call: the state, or none for an `UnauthorizedError`; whether it did fetch, and
-- the last failure that is then stored.
pub record Answer {ℓ} (A : Type ℓ) : Type ℓ where
  pub state : Option A
  pub did_fetch : Bool
  pub last_fail : Option ℕ

abbrev pub may_fetch : ℕ → Option ℕ → ℕ → Bool
may_fetch delay none now = true
may_fetch delay (some last) now = ltb (last + delay) now

module _ {ℓ} {A : Type ℓ} where
  -- A fetch that finds nothing stores its failure.
  abbrev pub failure_after : Option ℕ → Option A → ℕ → Option ℕ
  failure_after last none now = some now
  failure_after last (some a) now = last

  abbrev pub fetched : Option ℕ → Option A → ℕ → Answer A
  fetched last found now = record {
    state = found;
    did_fetch = true;
    last_fail = failure_after last found now;
  }

  pub get_state_delaying_empty : ℕ → Option ℕ → Call A → Answer A
  get_state_delaying_empty delay last c =
      if may_fetch delay last c.before
      then fetched last c.found c.after
      else record { state = none; did_fetch = false; last_fail = last }
