-- ===== src/Registry.antt =====
-- src/features/registry/registry.ts: the scopes of a token request for the Docker registry.
pub mod Grants
use Prim.Native.Char.{code}
use Prim.Native.String
use open_balena_api.Base.{
  ℕ, ◌==◌, ◌||◌, ◌&&◌, not, str_eq, String, Bool, true, Option, none, some, List, [], ◌∷◌, includes,
  ◌≡◌, arith, eq_iff, if◌then◌else◌,
}
use open_balena_api.Base.Regex.{
  Regex, class, seq, alt, group, at_start, at_end, all_of, plus, optional, literal, digit, lower,
  upper, in_range, exec, group_of,
}

abbrev pub resinos_repository : String
resinos_repository = "resin/resinos"

-- [a-z0-9] and [a-z0-9_-]
abbrev alnum : ℕ → Bool
alnum c = lower c || digit c

abbrev dashed : ℕ → Bool
dashed c = alnum c || c == b'_' || c == b'-'

abbrev dotted : ℕ → Bool
dotted c = dashed c || c == b'.'

abbrev slash : Regex
slash = literal "/"

-- /^resin\/(?:[a-zA-Z0-9]+-)+supervisor$/
abbrev pub supervisor_repositories : Regex
supervisor_repositories = all_of (
    at_start
    ∷ literal "resin/"
    ∷ plus (seq (plus (class (λ c. alnum c || upper c))) (literal "-"))
    ∷ literal "supervisor"
    ∷ at_end
    ∷ [])

-- /(^(\d+)\/[\d-]+$|^(v2\/[a-z0-9]+)(-[0-9]+)?)/
abbrev pub new_registry_regex : Regex
new_registry_regex = group 1 (
    alt
      (all_of (
        at_start
        ∷ group 2 (plus (class digit))
        ∷ slash
        ∷ plus (class (λ c. digit c || c == b'-'))
        ∷ at_end
        ∷ []))
      (all_of (
        at_start
        ∷ group 3 (seq (literal "v2/") (plus (class alnum)))
        ∷ optional (group 4 (seq (literal "-") (plus (class digit))))
        ∷ [])))

-- /^(([a-z0-9_-]+)\/([a-z0-9_-]+))(?:\/([a-z0-9_.-]+))?(?:\/([a-z0-9_-]+))?$/
abbrev pub app_release_regex : Regex
app_release_regex = all_of (
    at_start
    ∷ group 1 (all_of (group 2 (plus (class dashed)) ∷ slash ∷ group 3 (plus (class dashed)) ∷ []))
    ∷ optional (seq slash (group 4 (plus (class dotted))))
    ∷ optional (seq slash (group 5 (plus (class dashed))))
    ∷ at_end
    ∷ [])

-- The image of a scope: an application's with its parts, an id's, or a hash's.
abbrev image_name : Regex
image_name =
    alt
      (all_of (
        plus (class dashed)
        ∷ slash
        ∷ plus (class dashed)
        ∷ optional (seq slash (plus (class dotted)))
        ∷ optional (seq slash (plus (class dashed)))
        ∷ []))
      (alt (all_of (plus (class digit) ∷ slash ∷ plus (class (λ c. digit c || c == b'-')) ∷ []))
        (all_of (literal "v2/" ∷ plus (class alnum) ∷ literal "-" ∷ plus (class digit) ∷ [])))

-- The pattern of a whole scope, SCOPE_PARSE_REGEX.
abbrev pub scope_parse_regex : Regex
scope_parse_regex = all_of (
    at_start
    ∷ group 1 (plus (class lower))
    ∷ literal ":"
    ∷ group 2 image_name
    ∷ optional (
        alt (seq (literal ":") (plus (class alnum)))
          (seq (literal "@sha256:") (plus (class (λ c. digit c || in_range b'a' b'f' c)))))
    ∷ literal ":"
    ∷ group 3 (plus (alt (literal "push") (alt (literal "pull") (literal ","))))
    ∷ at_end
    ∷ [])

abbrev pub target_release_keywords : List String
target_release_keywords = "latest" ∷ "current" ∷ "default" ∷ "pinned" ∷ []

pub record Access : Type 0 where
  pub name : String
  pub type : String
  pub actions : List String
  pub alias : Option String

pub record Scope : Type 0 where
  pub type : String
  pub name : String
  pub actions : List String

-- `text.split(',')`, with the piece read so far
split_from : String → String → List String
split_from cur String.[] = cur ∷ []
split_from cur (String.◌∷◌ c s) =
    let cut = split_from "" s in
    let longer = split_from (String.◌++◌ cur (String.◌∷◌ c String.[])) s in
    if code c == b',' then cur ∷ cut else longer

pub split_comma : String → List String
unfolding split_from
split_comma s = split_from "" s

-- A part of the pattern that always takes part in a match.
abbrev present : Option String → String
present none = ""
present (some s) = s

-- `parseScope`, which answers nothing where the pattern does not fit.
pub parse_scope : String → Option Scope
unfolding exec group_of split_comma
parse_scope scope = if str_eq scope "" then none else elim (exec scope_parse_regex scope) [
  | none ↦ none
  | some m ↦
      if str_eq (present (group_of 1 m.groups)) "repository"
      then some (record {
        type = present (group_of 1 m.groups);
        name = present (group_of 2 m.groups);
        actions = split_comma (present (group_of 3 m.groups));
      })
      else none
]

-- `_.intersection`, with what was kept so far.
intersect_from : List String → List String → List String → List String
intersect_from ys done [] = []
intersect_from ys done (x ∷ xs) =
    let kept = x ∷ intersect_from ys (x ∷ done) xs in
    let left = intersect_from ys done xs in
    if includes ys x && not (includes done x) then kept else left

-- The entries of the first list that the second has, each once.
unfoldable pub intersection : List String → List String → List String
unfolding intersect_from
intersection xs ys = intersect_from ys [] xs

intersect_from-mem :
    (ys done xs : List String) (a : String)
    → includes (intersect_from ys done xs) a ≡ true
    → (includes xs a ≡ true) × (includes ys a ≡ true)
unfolding intersect_from
intersect_from-mem ys done [] a h = cc
intersect_from-mem ys done (x ∷ xs) a h =
    ground
      (arith, eq_iff x a, intersect_from-mem ys (x ∷ done) xs a, intersect_from-mem ys done xs a)

-- What an intersection has, both lists have.
pub intersection-mem :
    (xs ys : List String) (a : String)
    → includes (intersection xs ys) a ≡ true
    → (includes xs a ≡ true) × (includes ys a ≡ true)
unfolding intersection
intersection-mem xs ys a h = intersect_from-mem ys [] xs a h
