-- ===== src/Registry/Grants/Laws.antt =====
-- Which actions src/features/registry/registry.ts grants.
use open_balena_api.Base.{
  ℕ, ◌≡◌, ◌⊎◌, inl, inr, String, true, is_some, Option, none, some, List, [], ◌∷◌, includes, map,
  ok, Bool-cases, Option-cases,
}
use open_balena_api.Base.Regex.{Cursor, exec, group_of}
use open_balena_api.Registry.{new_registry_regex, Access, Scope, intersection-mem}
use open_balena_api.Registry.Grants.{
  Directory, Keys, same_key, grant_all_to_builder, builder_access, resolve_access, standard_access,
  legacy_access, release_access, located_access, image_access, text, is_standard, authorize_scope,
  authorize_request, parsed,
}

-- Every action of an answer stands in its request.
abbrev pub IsRequested : Scope → Access → Type 0
IsRequested s a = (x : String) → includes a.actions x ≡ true → includes s.actions x ≡ true

-- The answer to a scope keeps to it.
abbrev pub Pushes : Access → Type 0
Pushes a = includes a.actions "push" ≡ true

module _ (dir : Directory) where
  -- The caller may push to the image with this end of a location.
  abbrev pub MayPush : String → Type 0
  MayPush effective =
      (i : ℕ) × (dir.image_id effective ≡ ok (some i)) × (dir.push_target i ≡ ok (some i))

  -- The image that a scope is for: of its name, or of the part before the number of a stage.
  abbrev pub IsImageOf : Scope → String → Type 0
  IsImageOf s e =
      (e ≡ s.name)
      ⊎ ((m : Cursor) × (exec new_registry_regex s.name ≡ some m)
          × (is_some (group_of 4 m.groups) ≡ true)
          × (e ≡ text dir (group_of 3 m.groups)))

  -- A right to push to the image of the scope, or the code of the configuration for a standard repository.
  abbrev pub HasReason : Keys → Scope → Type 0
  HasReason k s =
      ((is_standard s ≡ true)
        × (c : String) × (k.resinos_code ≡ some c)
        × (same_key k.apikey c ≡ true))
      ⊎ ((effective : String) × IsImageOf s effective × MayPush effective)

  resolve-requested :
      (t n e : String) (requested defaults : List String) (alias : Option String) (x : String)
      → includes (resolve_access dir t n e requested defaults alias).actions x ≡ true
      → includes requested x ≡ true
  unfolding resolve_access
  resolve-requested t n e requested defaults alias x h = (intersection-mem requested _ x h).0

  located-IsRequested :
      (s : Scope) (release l : Option String) → IsRequested s (located_access dir s release l)
  unfolding located_access legacy_access
  located-IsRequested s release (some l) x h =
      (intersection-mem s.actions _ x (resolve-requested s.type _ _ _ _ _ x h)).0
  located-IsRequested s (some r) none x h = cc
  located-IsRequested s none none x h = resolve-requested s.type _ _ _ _ _ x h

  image-IsRequested : (s : Scope) (m o : Option Cursor) → IsRequested s (image_access dir s m o)
  unfolding image_access release_access legacy_access
  image-IsRequested s (some m) o x h = resolve-requested s.type _ _ _ _ _ x h
  image-IsRequested s none (some m) x h = elim (Option-cases (group_of 5 m.groups)) [
    | inl e ↦ located-IsRequested s _ _ x (rw (e, release_access) at h)
    | inr (v, e) ↦ cc (rw (e, release_access) at h)
  ]
  image-IsRequested s none none x h = resolve-requested s.type _ _ _ _ _ x h

  standard-IsRequested : (k : Keys) (s : Scope) → IsRequested s (standard_access dir k s)
  unfolding standard_access
  standard-IsRequested k s x h = (intersection-mem s.actions _ x h).0

  scope-IsRequested : (k : Keys) (s : Scope) → IsRequested s (authorize_scope dir k s)
  unfolding authorize_scope
  scope-IsRequested k s x h = elim (Bool-cases (is_standard s)) [
    | inl e ↦ standard-IsRequested k s x (rw (e, authorize_scope) at h)
    | inr e ↦ image-IsRequested s _ _ x (rw (e, authorize_scope) at h)
  ]

-- The answers to a list of scopes, each held against its scope.
abbrev pub Answers : (Scope → Access → Type 0) → List Scope → List Access → Type 0
Answers P [] [] = Unit
Answers P (s ∷ ss) (a ∷ as') = P s a × Answers P ss as'
Answers P _ _ = ⊥

map-Answers :
    (P : Scope → Access → Type 0) (f : Scope → Access)
    → ((s : Scope) → P s (f s))
    → (ss : List Scope) → Answers P ss (map f ss)
map-Answers P f h [] = tt
map-Answers P f h (s ∷ ss) = (h s, map-Answers P f h ss)

module _ (dir : Directory) (k : Keys) (scopes : List String) where
  -- Each scope of a request that parses is answered, in the order of the request, with actions that
  -- it asked for.
  pub authorize-IsRequested : Answers IsRequested (parsed scopes) (authorize_request dir k scopes)
  unfolding authorize_request grant_all_to_builder builder_access
  authorize-IsRequested = elim (Bool-cases (same_key k.apikey k.builder_token)) [
    | inl e ↦
        rw (e, authorize_request)
          (map-Answers IsRequested _ (λ s x h. (intersection-mem s.actions _ x h).0)
            (parsed scopes))
    | inr e ↦
        rw (e, authorize_request)
          (map-Answers IsRequested _ (scope-IsRequested dir k) (parsed scopes))
  ]
