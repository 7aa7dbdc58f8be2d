-- ===== src/State/Delay/Examples.antt =====
-- Concrete calls, src/features/device-state/state-get-utils.ts.
use open_balena_api.Base.{ℕ, ◌+◌, ◌*◌, ◌≤◌, ◌≡◌, refl, arith, none, some, [], ◌∷◌}
use open_balena_api.State.Delay.{Call, get_state_delaying_empty}
use open_balena_api.State.Delay.Laws.{fetches, fetches-none, fetches-Denied}

abbrev missing : ℕ → ℕ → Call ℕ
missing a b = record { found = none; before = a; after = b }

abbrev present : ℕ → Call ℕ
present a = record { found = some 5; before = a; after = a }

fetches-none_example : fetches 100 (some 1000) (missing 1000 1001 ∷ present 1100 ∷ []) ≡ 0
fetches-none_example =
    fetches-none 100 1000 (missing 1000 1001 ∷ present 1100 ∷ []) (omega arith, (omega arith, tt))

twice : fetches 100 (some 1000) (missing 1101 1102 ∷ missing 1150 1150 ∷ missing 1203 1204 ∷ []) ≡ 2
unfolding get_state_delaying_empty
twice = refl

fetches-Denied_example :
    fetches 100 (some 1000) (missing 1101 1102 ∷ missing 1150 1150 ∷ []) * 100 + 1000 ≤ 1150
fetches-Denied_example =
    fetches-Denied 100 1000 1000 1150 (missing 1101 1102 ∷ missing 1150 1150 ∷ []) (omega arith)
      (omega arith, omega arith, refl, (omega arith, omega arith, refl, omega arith))
