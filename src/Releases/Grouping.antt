-- ===== src/Releases/Grouping.antt =====
-- `groupByMap` of src/lib/utils.ts. A map is the list of its entries, in the order of insertion.
use open_balena_api.Base.{
  ◌≡◌, Bool, true, Bool-cases, inl, inr, List, [], ◌∷◌, ◌++◌, All, All-append, if◌then◌else◌,
}

module _ {A K : Type 0} (same : K → K → Bool) where
  unfoldable pub add_to_group : K → A → List (K × List A) → List (K × List A)
  add_to_group k a [] = (k, a ∷ []) ∷ []
  add_to_group k a ((j, xs) ∷ gs) =
      if same j k then (j, xs ++ a ∷ []) ∷ gs else (j, xs) ∷ add_to_group k a gs

  unfoldable pub group_onto : (A → K) → List A → List (K × List A) → List (K × List A)
  group_onto f [] gs = gs
  group_onto f (a ∷ xs) gs = group_onto f xs (add_to_group (f a) a gs)

  unfoldable pub group_by_map : (A → K) → List A → List (K × List A)
  group_by_map f xs = group_onto f xs []

  module _ (P : K → A → Type 0) where
    abbrev pub AllGrouped : List (K × List A) → Type 0
    AllGrouped gs = All (λ g. All (P g.0) g.1) gs

    add_to_group-AllGrouped :
        (k : K) (a : A) (gs : List (K × List A))
        → ((j : K) → same j k ≡ true → P j a)
        → P k a
        → AllGrouped gs
        → AllGrouped (add_to_group k a gs)
    unfolding add_to_group
    add_to_group-AllGrouped k a [] h p gs = ((p, tt), tt)
    add_to_group-AllGrouped k a ((j, xs) ∷ gs) h p (q, qs) = elim (Bool-cases (same j k)) [
      | inl e ↦ rw e (All-append (P j) xs (a ∷ []) q (h j e, tt), qs)
      | inr e ↦ rw e (q, add_to_group-AllGrouped k a gs h p qs)
    ]

    group_onto-AllGrouped :
        (f : A → K) (xs : List A) (gs : List (K × List A))
        → All (λ a. ((j : K) → same j (f a) ≡ true → P j a) × P (f a) a) xs
        → AllGrouped gs
        → AllGrouped (group_onto f xs gs)
    unfolding group_onto
    group_onto-AllGrouped f [] gs h q = q
    group_onto-AllGrouped f (a ∷ xs) gs ((h, p), hs) q =
        group_onto-AllGrouped f xs (add_to_group (f a) a gs) hs
          (add_to_group-AllGrouped (f a) a gs h p q)

    -- What holds of an entry and every key that is like its own holds of it in its group.
    pub group_by_map-AllGrouped :
        (f : A → K) (xs : List A)
        → All (λ a. ((j : K) → same j (f a) ≡ true → P j a) × P (f a) a) xs
        → AllGrouped (group_by_map f xs)
    unfolding group_by_map
    group_by_map-AllGrouped f xs h = group_onto-AllGrouped f xs [] h tt
