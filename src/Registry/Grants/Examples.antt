-- ===== src/Registry/Grants/Examples.antt =====
-- Requests for tokens on small directories.
use open_balena_api.Base.{
  ◌≡◌, refl, str_eq, String, true, none, some, List, [], ◌∷◌, ok, if◌then◌else◌,
}
use open_balena_api.Base.Regex.{exec, test, group_of}
use open_balena_api.Registry.{parse_scope, intersection}
use open_balena_api.Registry.Grants.{
  Directory, Keys, authorize_scope, authorize_request, parsed, behind_slash, allowed_actions,
  resolve_access, legacy_access, located_access, release_access, image_access, standard_access,
  standard_actions, query_actions, target_release,
}
use open_balena_api.Registry.Grants.Laws.{Answers, IsRequested, authorize-IsRequested}

-- Image 4 may be pushed, and the release of `org/app` is stored at it.
abbrev dir : Directory
dir = record {
  image_id = λ n. ok (if str_eq n "v2/abc" then some 4 else none);
  can_read = λ i. ok true;
  push_target = λ i. ok (some i);
  image_location = λ slug r v. ok (some "registry2/v2/abc");
}

abbrev keys : Keys
keys = record { apikey = some "k"; builder_token = "b"; resinos_code = some "c" }

abbrev requests : List String
requests =
    "repository:v2/abc-1:push,pull" ∷ "repository:org/app/latest:pull,push" ∷ "repository:x"
    ∷ "image:a/b:pull" ∷ "repository:resin/resinos:push,pull"
    ∷ "repository:resin/rpi-supervisor:push" ∷ []

parse_scope_example :
    parse_scope "repository:org/app/1.2.3:tag:pull,push"
    ≡ some (record { type = "repository"; name = "org/app/1.2.3"; actions = "pull" ∷ "push" ∷ [] })
unfolding parse_scope
parse_scope_example = refl

answers_example :
    authorize_request dir keys requests
    ≡ record {
      name = "v2/abc-1";
      type = "repository";
      actions = "push" ∷ "pull" ∷ [];
      alias = none;
    }
      ∷ record {
        name = "v2/abc";
        type = "repository";
        actions = "pull" ∷ [];
        alias = some "org/app/latest";
      }
      ∷ record { name = "resin/resinos"; type = "repository"; actions = "pull" ∷ []; alias = none }
      ∷ record { name = "resin/rpi-supervisor"; type = "repository"; actions = []; alias = none }
      ∷ []
unfolding authorize_request parsed parse_scope authorize_scope image_access release_access
    located_access resolve_access allowed_actions query_actions standard_access standard_actions
    behind_slash target_release intersection exec test group_of legacy_access
answers_example = refl

authorize-IsRequested_example :
    Answers IsRequested (parsed requests) (authorize_request dir keys requests)
authorize-IsRequested_example = authorize-IsRequested dir keys requests
