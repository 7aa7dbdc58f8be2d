-- ===== src/Installs/Hooks/Examples.antt =====
-- Runs of the hooks, src/features/ci-cd/hooks/service-installs.ts.
use open_balena_api.Base.{◌≡◌, refl, true, false, none, some, [], ◌∷◌, ◌==◌, if◌then◌else◌}
use open_balena_api.Installs.{Tables, services_of, create_all, lacks_some, create_for}
use open_balena_api.Installs.Rows.{has}
use open_balena_api.Installs.Hooks.{
  create_sync, Values, on_patch_device, create_app_service_installs,
  create_release_service_installs, delete_service_installs_for_current_app,
}
use open_balena_api.Installs.Hooks.Moves.{move-has}

-- The application 1 runs the release 11 with the services 3 and 4, the application 2 the release 21
-- with the service 7.
abbrev fleet : Tables
fleet = record {
  services =
      record { id = 3; application = 1; releases = 11 ∷ [] }
      ∷ record { id = 4; application = 1; releases = 10 ∷ 11 ∷ [] }
      ∷ record { id = 7; application = 2; releases = 21 ∷ [] }
      ∷ [];
  devices =
      record { id = 5; application = 1; pinned = none; managed = none; operated = none }
      ∷ record { id = 6; application = 2; pinned = none; managed = none; operated = none }
      ∷ [];
  installs = (5, 3) ∷ (6, 7) ∷ [];
  target = λ a. some (if a == 1 then 11 else 21);
  tasks = [];
}

-- The device 5 is moved to the application 2.
abbrev move : Values
move = record { application = some 2; pinned = none; managed = none; operated = none }

moved : has (on_patch_device (λ is. is ∷ []) false move (5 ∷ []) fleet).installs 5 7 ≡ true
unfolding on_patch_device create_app_service_installs create_release_service_installs create_sync
    services_of delete_service_installs_for_current_app create_all lacks_some create_for
moved = refl

move-has_example :
    has (on_patch_device (λ is. is ∷ []) false move (5 ∷ []) fleet).installs 5 3 ≡ false
unfolding services_of
move-has_example =
    move-has (λ is. is ∷ []) move (5 ∷ []) 2 fleet 5
      (record { id = 3; application = 1; releases = 11 ∷ [] }) refl refl
      ((λ e. refl), ((λ e. cc e), ((λ e. cc e), tt)))
