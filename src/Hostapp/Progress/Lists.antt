-- ===== src/Hostapp/Progress/Lists.antt =====
-- Lists of devices and ids, src/features/hostapp/hooks/target-hostapp.ts.
use open_balena_api.Base.{
  ℕ, ◌==◌, ◌≡◌, refl, ap, inl, inr, ◌&&◌, Bool-cases, List, [], ◌∷◌, keep, map, arith,
}
use open_balena_api.Hostapp.{Device}
use open_balena_api.Base.{member}

pub member-keep :
    (n : ℕ) (affected : List ℕ) (ds : List Device)
    → member n (map (λ d. d.id) (keep (λ d. member d.id affected) ds))
      ≡ (member n (map (λ d. d.id) ds) && member n affected)
member-keep n affected [] = refl
member-keep n affected (d ∷ ds) = elim (Bool-cases (d.id == n)) [
  | inl e ↦
      let same : member d.id affected ≡ member n affected =
        ap (λ k. member k affected) (ground arith) in
      ground (arith, same, member-keep n affected ds)
  | inr e ↦ ground (arith, member-keep n affected ds)
]
