-- ===== src/State/Delay/Laws.antt =====
-- When a state is fetched, src/features/device-state/state-get-utils.ts.
use open_balena_api.Base.{
  ℕ, ◌+◌, ◌*◌, ◌≤◌, ◌≡◌, refl, ltb, true, false, Bool-cases, inl, inr, Option, none, some, List, [],
  ◌∷◌, All, is_some, map, if◌then◌else◌, arith,
}
use open_balena_api.State.Delay.{Call, failure_after, get_state_delaying_empty}

module _ {ℓ} {A : Type ℓ} where
  -- How many of the calls fetch, one after the other.
  abbrev pub fetches : ℕ → Option ℕ → List (Call A) → ℕ
  fetches delay last [] = 0
  fetches delay last (c ∷ cs) =
      let a = get_state_delaying_empty delay last c in
      (if a.did_fetch then 1 else 0) + fetches delay a.last_fail cs

  -- No call up to the delay after the last failure fetches anything.
  pub fetches-none :
      (delay last : ℕ) (cs : List (Call A))
      → All (λ c. c.before ≤ last + delay) cs
      → fetches delay (some last) cs ≡ 0
  unfolding get_state_delaying_empty
  fetches-none delay last [] h = refl
  fetches-none delay last (c ∷ cs) (h, hs) =
      let late : ltb (last + delay) c.before ≡ false = ground arith in
      rw late (ground (arith, fetches-none delay last cs hs))

  -- The calls take place one after the other, from this time on and up to this time, and none
  -- of them finds a state.
  abbrev pub Denied : ℕ → ℕ → List (Call A) → Type 0
  Denied from to [] = from ≤ to
  Denied from to (c ∷ cs) =
      (from ≤ c.before) × (c.before ≤ c.after) × (is_some c.found ≡ false) × Denied c.after to cs

  failure_after-missing :
      (last : Option ℕ) (v : Option A) (now : ℕ)
      → is_some v ≡ false
      → failure_after last v now ≡ some now
  failure_after-missing last none now e = refl
  failure_after-missing last (some a) now e = cc e

  failure_after-found :
      (last : Option ℕ) (v : Option A) (now : ℕ)
      → is_some v ≡ true
      → failure_after last v now ≡ last
  failure_after-found last none now e = cc e
  failure_after-found last (some a) now e = refl

  -- Of calls that come one after the other until some time, the first no earlier than the stored
  -- failure and none of which finds a state, no more fetch than the time since that failure has delays.
  pub fetches-Denied :
      (delay last from to : ℕ) (cs : List (Call A))
      → last ≤ from
      → Denied from to cs
      → fetches delay (some last) cs * delay + last ≤ to
  unfolding get_state_delaying_empty
  fetches-Denied delay last from to [] l h = omega (arith, l, h)
  fetches-Denied delay last from to (c ∷ cs) l (h, k, e, hs) =
      elim (Bool-cases (ltb (last + delay) c.before)) [
        | inl late ↦
            let missing = failure_after-missing (some last) c.found c.after e in
            let others = fetches-Denied delay c.after c.after to cs (omega arith) hs in
            rw (late, missing) (ground (arith, others))
        | inr early ↦
            let others = fetches-Denied delay last c.after to cs (omega arith) hs in
            rw early (omega (arith, others))
      ]

  abbrev pub states : ℕ → Option ℕ → List (Call A) → List (Option A)
  states delay last [] = []
  states delay last (c ∷ cs) =
      let a = get_state_delaying_empty delay last c in a.state ∷ states delay a.last_fail cs

  -- Where no failure is stored, calls one after the other that would all find a state are each
  -- answered with the one that they find.
  pub states-found :
      (delay : ℕ) (cs : List (Call A))
      → All (λ c. is_some c.found ≡ true) cs
      → states delay none cs ≡ map (λ c. c.found) cs
  unfolding get_state_delaying_empty
  states-found delay [] h = refl
  states-found delay (c ∷ cs) (e, hs) =
      rw (failure_after-found none c.found c.after e, states-found delay cs hs) refl
