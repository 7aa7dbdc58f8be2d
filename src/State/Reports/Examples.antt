-- ===== src/State/Reports/Examples.antt =====
-- Concrete reports, src/features/device-state/state-patch-utils.ts.
use open_balena_api.Base.{◌≡◌, refl, true, none, some, [], ◌∷◌}
use open_balena_api.State.Reports.{undefined, percent, Body, stored, should_update_image_install}
use open_balena_api.State.Reports.Laws.{answers}

abbrev half : Body
half = record { status = some "Downloading"; release = 3; progress = percent 50 }

abbrev silent : Body
silent = record { status = some "Downloading"; release = 3; progress = undefined }

silent_passed :
    answers 100 (some (stored none half 1000)) silent (1001 ∷ 1002 ∷ []) ≡ true ∷ true ∷ []
unfolding should_update_image_install
silent_passed = refl
