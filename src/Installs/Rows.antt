-- ===== src/Installs/Rows.antt =====
-- How often a service is recorded for a device, src/features/ci-cd/hooks/service-installs.ts.
use open_balena_api.Base.{
  ℕ, ◌+◌, ◌≤◌, ◌≡◌, refl, ap, inl, inr, ◌==◌, Bool, true, false, not, ◌&&◌, Bool-cases, List, [],
  ◌∷◌, ◌++◌, map, keep, if◌then◌else◌, arith,
}
use open_balena_api.Installs.{
  Device, Install, member, exists, existing, difference, lacks_some, create_for,
}

abbrev pub occurrences : ℕ → List ℕ → ℕ
occurrences a [] = 0
occurrences a (x ∷ xs) = (if x == a then 1 else 0) + occurrences a xs

abbrev pub count : ℕ → ℕ → List Install → ℕ
count d s [] = 0
count d s ((e, t) ∷ is) = (if e == d && t == s then 1 else 0) + count d s is

abbrev pub has : List Install → ℕ → ℕ → Bool
has is d s = exists (λ i. i.0 == d && i.1 == s) is

pub has-count : (is : List Install) (d s : ℕ) → has is d s ≡ not (count d s is == 0)
has-count [] d s = refl
has-count ((e, t) ∷ is) d s = ground (arith, has-count is d s)

pub count-append :
    (d s : ℕ) (xs ys : List Install) → count d s (xs ++ ys) ≡ count d s xs + count d s ys
count-append d s [] ys = omega arith
count-append d s (x ∷ xs) ys = ground (arith, count-append d s xs ys)

pub count-map :
    (d s e : ℕ) (ss : List ℕ)
    → count d s (map (λ t. (e, t)) ss) ≡ (if e == d then occurrences s ss else 0)
count-map d s e [] = ground arith
count-map d s e (t ∷ ss) = ground (arith, count-map d s e ss)

pub member-existing :
    (is : List Install) (d s : ℕ) (ss : List ℕ)
    → member s (existing is d ss) ≡ (member s ss && has is d s)
unfolding existing
member-existing [] d s ss = ground arith
member-existing ((e, t) ∷ is) d s ss = elim (Bool-cases (t == s)) [
  | inl h ↦ let same : t ≡ s = ground arith in rw same (ground (arith, member-existing is d s ss))
  | inr h ↦ ground (arith, member-existing is d s ss)
]

pub occurrences-keep :
    (p : ℕ → Bool) (s : ℕ) (ss : List ℕ)
    → occurrences s (keep p ss) ≡ (if p s then occurrences s ss else 0)
occurrences-keep p s [] = ground arith
occurrences-keep p s (t ∷ ss) = elim (Bool-cases (t == s)) [
  | inl h ↦ let same : t ≡ s = ground arith in rw same (ground (arith, occurrences-keep p s ss))
  | inr h ↦ ground (arith, occurrences-keep p s ss)
]

pub occurrences-member : (s : ℕ) (ss : List ℕ) → member s ss ≡ not (occurrences s ss == 0)
occurrences-member s [] = refl
occurrences-member s (t ∷ ss) = ground (arith, occurrences-member s ss)

occurrences-difference :
    (before : List Install) (d s : ℕ) (ss : List ℕ)
    → occurrences s (difference ss (existing before d ss))
      ≡ (if has before d s then 0 else occurrences s ss)
unfolding difference
occurrences-difference before d s ss = ground (
  arith,
  occurrences-keep (λ t. not (member t (existing before d ss))) s ss,
  member-existing before d s ss,
  occurrences-member s ss,
)

-- A device gets the services that it lacks, each as often as it stands in the list.
pub count-create_for :
    (before : List Install) (d s e : ℕ) (ss : List ℕ) (is : List Install)
    → count d s (create_for before e ss is)
      ≡ count d s is + (if e == d && not (has before d s) then occurrences s ss else 0)
unfolding create_for
count-create_for before d s e ss is =
    let missing = difference ss (existing before e ss) in
    let a = count-append d s is (map (λ t. (e, t)) missing) in
    let b = count-map d s e missing in
    let c = occurrences-difference before e s ss in
    elim (Bool-cases (e == d)) [
      | inl h ↦
          let same : has before e s ≡ has before d s = ap (λ k. has before k s) (ground arith) in
          ground (arith, a, b, c, same)
      | inr h ↦ ground (arith, a, b)
    ]

abbrev pub device_ids : List Device → List ℕ
device_ids ds = map (λ d. d.id) ds

pub occurrences-keep_ids :
    (p : Device → Bool) (d : ℕ) (ds : List Device)
    → occurrences d (device_ids (keep p ds)) ≤ occurrences d (device_ids ds)
occurrences-keep_ids p d [] = omega arith
occurrences-keep_ids p d (e ∷ ds) = ground (arith, occurrences-keep_ids p d ds)

pub lacks-true :
    (is : List Install) (d s : ℕ) (ss : List ℕ)
    → member s ss ≡ true
    → has is d s ≡ false
    → lacks_some is ss d ≡ true
unfolding lacks_some
lacks-true is d s [] m h = cc
lacks-true is d s (x ∷ ss) m h = elim (Bool-cases (x == s)) [
  | inl e ↦
      let same : has is d x ≡ has is d s = ap (λ k. has is d k) (ground arith) in
      ground (arith, same)
  | inr e ↦ ground (arith, lacks-true is d s ss (ground arith) h)
]
