-- ===== src/Cache/Laws.antt =====
-- A function with a cache against the function itself, src/infra/cache/multi-level-memoizee.ts.
use open_balena_api.Base.{
  ◌≡◌, inl, inr, refl, String, Bool, true, false, Option, Option-cases, none, some, List, [], ◌∷◌,
}
use open_balena_api.Cache.{
  Manager, IsManager, to_cache, from_cache, found_or, memoized, delete, Call, value_of, forget, run,
  run_plain,
}

module _ {A C V : Type 0} (m : Manager C (Option V)) (same : V → V → Bool) (full_key : A → String)
    (undefined_as : Option V) (f : A → Option V) where
  -- The stand-in for `undefined` is no value of the function, and arguments with one key have one value.
  pub record IsCacheable : Type 0 where
    pub undefined_same : (v : V) → undefined_as ≡ some v → same v v ≡ true
    pub apart : (a : A) (v w : V) → f a ≡ some v → undefined_as ≡ some w → same v w ≡ false
    pub keys : (a b : A) → full_key a ≡ full_key b → f a ≡ f b

  -- The cache has only values of the function.
  abbrev pub IsValid : C → Type 0
  IsValid c =
      (a : A) (w : Option V)
      → m.find (full_key a) c ≡ some w
      → w ≡ to_cache m same full_key undefined_as (f a)

  module _ (manager : IsManager m) (cacheable : IsCacheable) where
    from-to_cache :
        (o : Option V) (a : A)
        → f a ≡ o
        → from_cache m same full_key undefined_as (to_cache m same full_key undefined_as o) ≡ o
    from-to_cache none a h = elim (Option-cases undefined_as) [
      | inl e ↦ cc e
      | inr (w, e) ↦ cc (e, cacheable.undefined_same w e)
    ]
    from-to_cache (some v) a h = elim (Option-cases undefined_as) [
      | inl e ↦ cc e
      | inr (w, e) ↦ cc (e, cacheable.apart a v w h e)
    ]

    abbrev shown : A → Option V
    shown a = to_cache m same full_key undefined_as (f a)

    abbrev kept : A → C → Option V
    kept a c = found_or m same full_key undefined_as (m.find (full_key a) c) (shown a)

    kept-eq : (a : A) (c : C) → IsValid c → kept a c ≡ shown a
    kept-eq a c h = elim (Option-cases (m.find (full_key a) c)) [
      | inl e ↦ cc e
      | inr (w, e) ↦ cc (e, h a w e)
    ]

    memoized-value :
        (a : A) (c : C) → IsValid c → (memoized m same full_key undefined_as f a c).0 ≡ f a
    unfolding memoized
    memoized-value a c h = cc (kept-eq a c h, from-to_cache (f a) a refl)

    memoized-IsValid :
        (a : A) (c : C) → IsValid c → IsValid (memoized m same full_key undefined_as f a c).1
    unfolding memoized
    memoized-IsValid a c h b w e =
        elim (manager.find-keep (full_key b) (full_key a) (kept a c) w c e) [
          | inl (k, v) ↦ cc (v, kept-eq a c h, cacheable.keys b a k)
          | inr g ↦ h b w g
        ]

    delete-IsValid : (a : A) (c : C) → IsValid c → IsValid (delete m same full_key undefined_as a c)
    unfolding delete
    delete-IsValid a c h b w e = h b w (manager.find-del (full_key b) (full_key a) w c e)

    -- Calls of a function with a cache give what the function gives by itself, however the cache loses
    -- values and whichever are deleted, under these conditions: the function gives the same at all
    -- times, and the same for arguments with one key; the stand-in for undefined equals itself and no
    -- value of the function; the cache starts with no other values than the function's, and finds under
    -- a key only what was kept there, nothing after a delete.
    pub run-run_plain :
        (calls : List (Call m same full_key undefined_as)) (c : C)
        → IsValid c
        → run m same full_key undefined_as f calls c
          ≡ run_plain m same full_key undefined_as f calls
    unfolding run run_plain
    run-run_plain [] c h = refl
    run-run_plain (value_of a ∷ calls) c h = cc (
      memoized-value a c h,
      run-run_plain calls (memoized m same full_key undefined_as f a c).1 (memoized-IsValid a c h),
    )
    run-run_plain (forget a ∷ calls) c h =
        run-run_plain calls (delete m same full_key undefined_as a c) (delete-IsValid a c h)

    -- Whatever the cache has, the call after a delete with the same argument gives the value of now.
    pub memoized-delete :
        (a : A) (c : C)
        → (memoized m same full_key undefined_as f a (delete m same full_key undefined_as a c)).0
          ≡ f a
    unfolding memoized delete
    memoized-delete a c = cc (manager.find-deleted (full_key a) c, from-to_cache (f a) a refl)
