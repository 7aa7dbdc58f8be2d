-- ===== src/State/Truncate/Examples.antt =====
-- Cutting concrete texts, src/features/device-state/state-patch-utils.ts.
use open_balena_api.Base.{◌≡◌, refl, ◌≤◌, All, length, none, some, List, [], ◌∷◌}
use open_balena_api.State.Truncate.{
  Text, Object, Constraint, reverse_onto, trim_start, trim, split_go, split, add_fragment,
  add_fragments, truncate_text, truncate_constrained_fields,
}
use open_balena_api.State.Truncate.Laws.{length-truncate_text, Fits, truncate-Fits}

-- "1 23 4"
abbrev addresses : Text
addresses = 49 ∷ 32 ∷ 50 ∷ 51 ∷ 32 ∷ 52 ∷ []

-- The delimiter before the first fragment counts too: "1 23" has four units and would fit.
cut_addresses : truncate_text addresses 4 (some 32) ≡ 49 ∷ 32 ∷ 52 ∷ []
unfolding truncate_text add_fragments add_fragment split split_go trim trim_start reverse_onto
cut_addresses = refl

abbrev device : Object
device k = some addresses

abbrev constraints : List Constraint
constraints = ("ip_address", 4, some 32) ∷ ("status", 5, none) ∷ []

length-truncate_text_example : length (truncate_text addresses 4 (some 32)) ≤ 4
length-truncate_text_example = length-truncate_text addresses 4 (some 32)

truncate-Fits_example : All (Fits (truncate_constrained_fields constraints device)) constraints
truncate-Fits_example = truncate-Fits constraints device
