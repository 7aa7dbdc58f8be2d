-- ===== src/State/Config/Laws.antt =====
-- Which value a configuration variable has.
use open_balena_api.Base.{
  ℕ, ◌≡◌, refl, ◌≢◌, ◌≤◌, str_eq, eq_iff, String, Bool, true, false, Option, none, some, List, [],
  ◌∷◌, if◌then◌else◌, arith, Bool-cases, inl, inr, ◌∙◌,
}
use open_balena_api.Base.Parse.{parse_int}
use open_balena_api.State.Config.{
  Vars, lookup, assign, remove, reject_ui_config, var_list_insert, log_to_display,
  filter_device_config, poll_interval, min_poll_interval, set_min_poll_interval, get_config,
}

pub lookup-assign :
    (k j v : String) (m : Vars)
    → lookup j (assign k v m) ≡ (if str_eq k j then some v else lookup j m)
unfolding lookup assign
lookup-assign k j v [] = refl
lookup-assign k j v ((i, w) ∷ m) =
    ground (arith, eq_iff k j, eq_iff i k, eq_iff i j, lookup-assign k j v m)

lookup-remove :
    (k j : String) (m : Vars) → lookup j (remove k m) ≡ (if str_eq k j then none else lookup j m)
unfolding lookup remove
lookup-remove k j [] = ground arith
lookup-remove k j ((i, w) ∷ m) =
    ground (arith, eq_iff k j, eq_iff i k, eq_iff i j, lookup-remove k j m)

-- The value of the last entry of a list, or else what was there.
abbrev pub last_value : String → List (String × String) → Option String → Option String
last_value k [] old = old
last_value k ((j, v) ∷ l) old = last_value k l (if str_eq j k then some v else old)

module _ (p : String → Bool) where
  pub lookup-insert_kept :
      (k : String) (l : List (String × String)) (m : Vars)
      → p k ≡ true
      → lookup k (var_list_insert p l m) ≡ last_value k l (lookup k m)
  unfolding var_list_insert
  lookup-insert_kept k [] m h = refl
  lookup-insert_kept k ((j, v) ∷ l) m h = ground (
    arith,
    eq_iff j k,
    lookup-assign j k v m,
    lookup-insert_kept k l m h,
    lookup-insert_kept k l (assign j v m) h,
  )

  lookup-insert_rejected :
      (k : String) (l : List (String × String)) (m : Vars)
      → p k ≡ false
      → lookup k (var_list_insert p l m) ≡ lookup k m
  unfolding var_list_insert
  lookup-insert_rejected k [] m h = refl
  lookup-insert_rejected k ((j, v) ∷ l) m h = ground (
    arith,
    eq_iff j k,
    lookup-assign j k v m,
    lookup-insert_rejected k l m h,
    lookup-insert_rejected k l (assign j v m) h,
  )

-- What a device is told of a variable that the API does not set: its own last value, or else its
-- application's; nothing of the variables of the user interface and of the one that is filtered.
abbrev pub expected : String → List (String × String) → List (String × String) → Option String
expected k device application =
    if str_eq log_to_display k
    then none
    else if reject_ui_config k
    then last_value k device (last_value k application none)
    else none

min_poll_interval_bounds :
    (show : Option ℕ → String) (default : ℕ) (v : Option String) (n : ℕ)
    → min_poll_interval show default v ≡ some n
    → default ≤ n
unfolding min_poll_interval
min_poll_interval_bounds show default none n h = ground arith
min_poll_interval_bounds show default (some v) n h = ground arith

min_poll_interval_nan :
    (show : Option ℕ → String) (default : ℕ) (v : String)
    → parse_int v ≡ none
    → min_poll_interval show default (some v) ≡ none
unfolding min_poll_interval
min_poll_interval_nan show default v h = ground arith

module _ (show : Option ℕ → String) (default : ℕ)
    (device application : List (String × String)) where
  abbrev merged : Vars
  merged = var_list_insert reject_ui_config device (var_list_insert reject_ui_config application [])

  lookup-filtered :
      (k : String) → lookup k (filter_device_config merged) ≡ expected k device application
  unfolding filter_device_config lookup
  lookup-filtered k =
      let a = var_list_insert reject_ui_config application [] in
      lookup-remove log_to_display k merged ∙ elim (Bool-cases (reject_ui_config k)) [
        | inl e ↦
            rw
              (
                lookup-insert_kept reject_ui_config k device a e,
                lookup-insert_kept reject_ui_config k application [] e,
                e,
                lookup,
              )
              refl
        | inr e ↦
            rw
              (
                lookup-insert_rejected reject_ui_config k device a e,
                lookup-insert_rejected reject_ui_config k application [] e,
                e,
                lookup,
              )
              refl
      ]

  -- A device is told of a variable the last value that it has itself, or else its application; but
  -- nothing of one of the user interface, or of RESIN_HOST_LOG_TO_DISPLAY.
  pub lookup-get_config :
      (k : String)
      → k ≢ poll_interval
      → lookup k (get_config show default (some device) (some application))
        ≡ expected k device application
  unfolding get_config set_min_poll_interval
  lookup-get_config k h = ground (
    arith,
    eq_iff poll_interval k,
    lookup-assign poll_interval k
        (show (min_poll_interval show default (lookup poll_interval (filter_device_config merged))))
        (filter_device_config merged),
    lookup-filtered k,
  )

  -- The poll interval is always told. A number that is told is the default at least; but where the
  -- text of the variable is no number, NaN is told.
  pub lookup-get_config_poll :
      let v = expected poll_interval device application in
      (lookup poll_interval (get_config show default (some device) (some application))
        ≡ some (show (min_poll_interval show default v)))
      × ((n : ℕ) → min_poll_interval show default v ≡ some n → default ≤ n)
      × ((w : String) → v ≡ some w → parse_int w ≡ none → min_poll_interval show default v ≡ none)
  unfolding get_config set_min_poll_interval
  lookup-get_config_poll = (
    lookup-assign poll_interval poll_interval _ _
        ∙ ground (arith, eq_iff poll_interval poll_interval, lookup-filtered poll_interval),
    min_poll_interval_bounds show default (expected poll_interval device application),
    (λ w e h. rw e (min_poll_interval_nan show default w h)),
  )
