-- ===== src/Logs/Writer/Examples.antt =====
-- A stream of logs with a limit of two.
use open_balena_api.Base.{ℕ, ◌+◌, ◌≡◌, refl, true, false, none, List, [], ◌∷◌, arith}
use open_balena_api.Logs.{InternalDeviceLog, plain}
use open_balena_api.Logs.Writer.{Writer, started, Event, line, timer, answer, run, warning}
use open_balena_api.Logs.Writer.Laws.{IsScheduled, run-IsScheduled, run-told, accounted}

abbrev entry : ℕ → InternalDeviceLog
entry t = record {
  nano_timestamp = t;
  timestamp = t;
  is_system = false;
  is_std_err = false;
  service_id = none;
  message = plain "x";
}

abbrev events : List Event
events =
    line true (entry 1)
    ∷ line true (entry 2)
    ∷ line true (entry 3)
    ∷ timer true
    ∷ line true (entry 4)
    ∷ answer true
    ∷ []

batch_example :
    (run 2 started events).handed_over ≡ (warning 1 (entry 1) ∷ entry 2 ∷ entry 3 ∷ []) ∷ []
unfolding run started
batch_example = refl

started-IsScheduled : IsScheduled started
unfolding started
started-IsScheduled = record { idle = λ h. (refl, refl, refl, refl); busy = λ h. cc }

run-IsScheduled_example : IsScheduled (run 2 started events)
run-IsScheduled_example = run-IsScheduled 2 events started started-IsScheduled

-- The only publish has failed.
abbrev broken : Writer
broken = record {
  buffer = [];
  publish_scheduled = true;
  timers = 0;
  in_flight = 0;
  paused = false;
  failed = true;
  handed_over = (entry 1 ∷ []) ∷ [];
}

run-told_example : accounted 2 (run 2 started events) ≡ accounted 2 started + 4
run-told_example = run-told 2 events started (omega arith) (unfold started in tt)
