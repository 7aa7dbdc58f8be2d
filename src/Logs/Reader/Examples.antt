-- ===== src/Logs/Reader/Examples.antt =====
-- A client that follows the logs of a device.
use open_balena_api.Base.{ℕ, ◌+◌, ◌≡◌, refl, Bool, false, none, List, [], ◌∷◌, arith, ◌==◌, not}
use open_balena_api.Logs.{OutputDeviceLog, plain, writable}
use open_balena_api.Logs.Reader.{
  line, blank, Reader, connected, run, Event, arrives, drains, beats, warning,
}
use open_balena_api.Logs.Reader.Laws.{run-accounted, accounted}

abbrev entry : ℕ → OutputDeviceLog
entry t = record {
  created_at = t;
  timestamp = t;
  is_system = false;
  is_std_err = false;
  service_id = none;
  message = plain "x";
}

-- Every third write is refused.
abbrev slow : ℕ → Bool
slow n = not (n == 1)

abbrev ready : Reader
ready = record connected { state = writable }

abbrev events : List Event
events =
    arrives (entry 1)
    ∷ arrives (entry 2)
    ∷ arrives (entry 3)
    ∷ beats
    ∷ drains 9
    ∷ arrives (entry 4)
    ∷ []

run_example :
    (run slow ready events).sent
    ≡ line (entry 1) ∷ line (entry 2) ∷ blank ∷ line (warning 9 1) ∷ line (entry 4) ∷ []
unfolding run
run_example = refl

run-accounted_example : accounted (run slow ready events) ≡ 0 + 4
run-accounted_example =
    run-accounted slow events ready (omega arith) (refl, (refl, (refl, (refl, (refl, (refl, tt))))))
      (λ h. absurd (h refl)) (λ e. cc)
