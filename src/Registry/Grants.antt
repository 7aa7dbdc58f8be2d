-- ===== src/Registry/Grants.antt =====
-- `grantAllToBuilder`, `resolveAccess` and `authorizeRequest` of src/features/registry/registry.ts.
-- What the database and the caches in front of it answer is the parameter `Directory`.
pub mod Laws
mod Examples
use Prim.Native.Char.{code}
use open_balena_api.Base.{
  ℕ, ◌==◌, ◌||◌, ◌&&◌, not, str_eq, String, Bool, true, false, Option, none, some, List, [], ◌∷◌,
  ◌++◌, includes, map, if◌then◌else◌, Result, ok, err, is_some,
}
use open_balena_api.Base.Regex.{Cursor, exec, test, group_of}
use open_balena_api.Registry.{
  Access, Scope, resinos_repository, supervisor_repositories, new_registry_regex, app_release_regex,
  target_release_keywords, parse_scope, intersection,
}

-- The queries of one request: an image's id by the end of its location, the rights of the caller on
-- an image, and the location of the image of an application's release.
pub record Directory : Type 0 where
  pub image_id : String → Result (Option ℕ)
  pub can_read : ℕ → Result Bool
  pub push_target : ℕ → Result (Option ℕ)
  pub image_location : String → Option String → Option String → Result (Option String)

-- The key of the request, and the two keys of the configuration.
pub record Keys : Type 0 where
  pub apikey : Option String
  pub builder_token : String
  pub resinos_code : Option String

abbrev pub same_key : Option String → String → Bool
same_key none k = false
same_key (some a) k = str_eq a k

-- A standard repository: one of the operating system or of a supervisor.
abbrev pub is_standard : Scope → Bool
is_standard s = str_eq s.name resinos_repository || test supervisor_repositories s.name

builder_actions : Scope → List String
builder_actions s = if is_standard s then "pull" ∷ [] else "pull" ∷ "push" ∷ []

builder_access : Scope → Access
builder_access s = record {
  name = s.name;
  type = s.type;
  actions = intersection s.actions (builder_actions s);
  alias = none;
}

grant_all_to_builder : List Scope → List Access
grant_all_to_builder = map builder_access

-- The scopes of a request that parse.
pub parsed : List String → List Scope
parsed [] = []
parsed (t ∷ ts) = elim (parse_scope t) [ none ↦ parsed ts | some s ↦ s ∷ parsed ts ]

module _ (dir : Directory) where
  pub resolve_read_access : Option ℕ → Result Bool
  resolve_read_access none = ok false
  resolve_read_access (some i) = dir.can_read i

  -- An error reads as no access.
  pub resolve_write_access : Option ℕ → Result Bool
  resolve_write_access none = ok false
  resolve_write_access (some i) = elim (dir.push_target i) [
    | ok none ↦ ok false
    | ok (some j) ↦ ok (j == i)
    | err e ↦ ok false
  ]

  abbrev pub unless_needed : Bool → Result Bool → Result Bool
  unless_needed false r = ok false
  unless_needed true r = r

  abbrev pub and_also : List String → String → Bool → List String
  and_also actions a true = actions ++ a ∷ []
  and_also actions a false = actions

  -- The actions that are allowed where a query is needed; after an error, the default ones.
  abbrev pub extended : List String → Result Bool → Result Bool → List String
  extended defaults (ok r) (ok w) = and_also (and_also defaults "pull" r) "push" w
  extended defaults _ _ = defaults

  -- With the image's id, or the error of the query for it.
  query_actions : Bool → Bool → List String → Result (Option ℕ) → List String
  unfolding resolve_read_access resolve_write_access
  query_actions needs_pull needs_push defaults (err e) = defaults
  query_actions needs_pull needs_push defaults (ok i) =
      extended defaults (unless_needed needs_pull (resolve_read_access i))
        (unless_needed needs_push (resolve_write_access i))

  pub allowed_actions : String → List String → List String → List String
  allowed_actions effective requested defaults =
      let needs_pull = includes requested "pull" && not (includes defaults "pull") in
      let needs_push = includes requested "push" && not (includes defaults "push") in
      if not needs_push && not needs_pull
      then defaults
      else query_actions needs_pull needs_push defaults (dir.image_id effective)

  pub resolve_access : String → String → String → List String → List String → Option String → Access
  resolve_access type name effective requested defaults alias = record {
    name = name;
    type = type;
    actions = intersection requested (allowed_actions effective requested defaults);
    alias = alias;
  }

  abbrev pub denied : Scope → Access
  denied s = record { name = s.name; type = s.type; actions = []; alias = none }

  standard_actions : Keys → List String
  standard_actions k = elim k.resinos_code [
    | none ↦ "pull" ∷ []
    | some c ↦ if same_key k.apikey c then "pull" ∷ "push" ∷ [] else "pull" ∷ []
  ]

  -- The repositories that everybody pulls and whose pushes need the code of the configuration.
  pub standard_access : Keys → Scope → Access
  standard_access k s = record {
    name = s.name;
    type = s.type;
    actions = intersection s.actions (standard_actions k);
    alias = none;
  }

  -- What stands behind the first slash of an image's location.
  pub behind_slash : String → String
  behind_slash String.[] = ""
  behind_slash (String.◌∷◌ c s) = let later = behind_slash s in if code c == b'/' then s else later

  -- A request for an application that resolved to no image falls back to the old format.
  legacy_access : Scope → Access
  legacy_access s = resolve_access s.type s.name s.name s.actions ("pull" ∷ []) none

  -- `semverOrCommit`: no keyword, and not empty
  pub target_release : Option String → Option String
  target_release none = none
  target_release (some r) =
      if str_eq r "" || includes target_release_keywords r then none else some r

  abbrev located : Result (Option String) → Option String
  located (ok l) = l
  located (err e) = none

  -- The application's image is found, with pull as the only action, or not.
  located_access : Scope → Option String → Option String → Access
  located_access s release (some l) =
      resolve_access s.type (behind_slash l) (behind_slash l) (intersection s.actions ("pull" ∷ []))
        ("pull" ∷ []) (some s.name)
  located_access s (some r) none = denied s
  located_access s none none = legacy_access s

  -- A release with more than one service is not supported.
  release_access : Scope → String → Option String → Option String → Access
  release_access s slug release (some service) = denied s
  release_access s slug release none =
      located_access s release (located (dir.image_location slug release none))

  abbrev text : Option String → String
  text none = ""
  text (some t) = t

  -- By the match of a new image name, or else of an application's release.
  image_access : Scope → Option Cursor → Option Cursor → Access
  image_access s (some m) release =
      resolve_access s.type s.name
        (if is_some (group_of 4 m.groups) then text (group_of 3 m.groups) else s.name) s.actions []
        none
  image_access s none (some m) =
      release_access s (text (group_of 1 m.groups)) (target_release (group_of 4 m.groups))
        (group_of 5 m.groups)
  image_access s none none = legacy_access s

  -- One scope of a request, in the order of the source's tests.
  pub authorize_scope : Keys → Scope → Access
  authorize_scope k s =
      if is_standard s
      then standard_access k s
      else image_access s (exec new_registry_regex s.name) (exec app_release_regex s.name)

  pub authorize_request : Keys → List String → List Access
  authorize_request k scopes =
      if same_key k.apikey k.builder_token
      then grant_all_to_builder (parsed scopes)
      else map (authorize_scope k) (parsed scopes)
