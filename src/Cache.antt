-- ===== src/Cache.antt =====
-- src/infra/cache/multi-level-store.ts and multi-level-memoizee.ts: a function whose results are kept in a
-- cache. The caches of the package cache-manager, one or two levels of them, are a parameter. The
-- options of the cache are left out, so a value may be lost at any time.
mod Laws
mod Examples
use Prim.Native.String.{◌++◌ as text_append}
use open_balena_api.Base.{
  ◌≡◌, ◌⊎◌, String, Bool, true, false, Option, none, some, List, [], ◌∷◌, if◌then◌else◌, Result, ok,
  err, other, includes,
}

-- What the caches do: find a value, keep one after a call of `wrap`, and delete one.
pub record Manager (C V : Type 0) : Type 0 where
  pub find : String → C → Option V
  pub keep : String → V → C → C
  pub del : String → C → C

-- What cache-manager promises: a value that is found was kept there, or was there before; and a
-- deleted one is not found.
pub record IsManager {C V : Type 0} (m : Manager C V) : Type 0 where
  pub find-keep :
      (j k : String) (v w : V) (c : C)
      → m.find j (m.keep k v c) ≡ some w
      → ((j ≡ k) × (w ≡ v)) ⊎ (m.find j c ≡ some w)
  pub find-del :
      (j k : String) (w : V) (c : C) → m.find j (m.del k c) ≡ some w → m.find j c ≡ some w
  pub find-deleted : (k : String) (c : C) → m.find k (m.del k c) ≡ none

-- `createMultiLevelStore`: each key of a cache is taken once.
pub take_cache_key : String → List String → Result (List String)
take_cache_key k used = if includes used k then err (other 4) else ok (k ∷ used)

-- The prefix of the keys, with the version of the API if it is used.
pub get_key : Bool → String → String → String → String
get_key use_version version cache_key key = text_append "cache$" (
    text_append (if use_version then version else "")
      (text_append "$" (text_append cache_key (text_append "$" key))))

-- The values are optional, since a function may give `undefined`.
module _ {A C V : Type 0} (m : Manager C (Option V)) (same : V → V → Bool) (full_key : A → String)
    (undefined_as : Option V) where
  -- `valueToCache ?? undefinedAs`
  abbrev pub to_cache : Option V → Option V
  to_cache none = undefined_as
  to_cache (some v) = some v

  abbrev pub equals : Option V → Option V → Bool
  equals none none = true
  equals (some v) (some w) = same v w
  equals _ _ = false

  abbrev pub from_cache : Option V → Option V
  from_cache v = if equals v undefined_as then none else v

  abbrev found_or : Option (Option V) → Option V → Option V
  found_or none v = v
  found_or (some w) v = w

  -- `memoizedFn`, where the function gives `f a` now.
  pub memoized : (A → Option V) → A → C → Option V × C
  memoized f a c =
      let v = found_or (m.find (full_key a) c) (to_cache (f a)) in
      (from_cache v, m.keep (full_key a) v c)

  pub delete : A → C → C
  delete a c = m.del (full_key a) c

  pub data Call : Type 0 where
    value_of forget : A → Call

  -- The results of the calls, in turn.
  pub run : (A → Option V) → List Call → C → List (Option V)
  unfolding memoized delete
  run f [] c = []
  run f (value_of a ∷ calls) c = (memoized f a c).0 ∷ run f calls (memoized f a c).1
  run f (forget a ∷ calls) c = run f calls (delete a c)

  -- The results without a cache.
  pub run_plain : (A → Option V) → List Call → List (Option V)
  run_plain f [] = []
  run_plain f (value_of a ∷ calls) = f a ∷ run_plain f calls
  run_plain f (forget a ∷ calls) = run_plain f calls
