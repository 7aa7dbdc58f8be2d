-- ===== src/State/Patch/V3/Releases.antt =====
-- The check of the releases that a report names, src/features/device-state/routes/state-patch-v3.ts,
-- `fetchData`: it compares numbers only.
use open_balena_api.Base.{
  suc, ◌≤◌, ◌==◌, ◌≡◌, ◌≢◌, refl, sym, ap, ◌∙◌, inl, inr, Bool, true, false, Bool-cases, none, List,
  [], ◌∷◌, ◌++◌, subst, map, length, keep, includes, if◌then◌else◌, All, ok, err, arith, str_eq,
  eq_iff, String, unauthorized,
}
use open_balena_api.State.Truncate.{Text}
use open_balena_api.State.Patch.Transaction.{OnOk}
use open_balena_api.State.Patch.V3.{
  Criteria, Image, Release, Found, is_asked, is_at_any, images_at, found_app, fetch_app,
}
use open_balena_api.State.Patch.V3.Handler.{find, is_commit}

-- No text stands twice.
abbrev pub Distinct : List String → Type 0
Distinct [] = Unit
Distinct (x ∷ xs) = (includes xs x ≡ false) × Distinct xs

abbrev remove_one : String → List String → List String
remove_one x [] = []
remove_one x (y ∷ ys) = if str_eq y x then ys else y ∷ remove_one x ys

length-remove_one :
    (x : String) (ys : List String)
    → includes ys x ≡ true
    → suc (length (remove_one x ys)) ≡ length ys
length-remove_one x [] h = cc
length-remove_one x (y ∷ ys) h = ground (arith, length-remove_one x ys)

includes-remove_one :
    (x y : String) (ys : List String)
    → str_eq x y ≡ false
    → includes ys y ≡ true
    → includes (remove_one x ys) y ≡ true
includes-remove_one x y [] n h = h
includes-remove_one x y (z ∷ ys) n h =
    ground (arith, eq_iff z x, eq_iff x y, eq_iff z y, includes-remove_one x y ys n)

-- Members of a list other than `x`.
All-includes :
    (x : String) (xs ys : List String)
    → includes xs x ≡ false
    → All (λ z. includes ys z ≡ true) xs
    → All (λ z. includes (remove_one x ys) z ≡ true) xs
All-includes x [] ys n h = tt
All-includes x (z ∷ xs) ys n (p, h) = (
  includes-remove_one x z ys (ground (arith, eq_iff x z, eq_iff z x)) p,
  All-includes x xs ys (ground arith) h,
)

-- As many different texts as a list has them are no more than the list is long.
length-le :
    (xs ys : List String) → Distinct xs → All (λ z. includes ys z ≡ true) xs → length xs ≤ length ys
length-le [] ys d h = omega arith
length-le (x ∷ xs) ys (n, d) (p, h) =
    omega
      (arith, length-remove_one x ys p, length-le xs (remove_one x ys) d (All-includes x xs ys n h))

includes_all :
    (xs ys : List String)
    → Distinct xs
    → All (λ z. includes ys z ≡ true) xs
    → length xs ≡ length ys
    → (y : String) → includes ys y ≡ true
    → includes xs y ≡ true
includes_all xs ys d h l y m = elim (Bool-cases (includes xs y)) [
  | inl e ↦ e
  | inr e ↦ absurd (
      omega (
        arith,
        length-remove_one y ys m,
        length-le xs (remove_one y ys) d (All-includes y xs ys e h),
      ))
]

abbrev pub commits : List Release → List String
commits rs = map (λ r. r.commit) rs

length-commits : (rs : List Release) → length (commits rs) ≡ length rs
length-commits [] = refl
length-commits (r ∷ rs) = ap suc (length-commits rs)

commits-asked :
    (app : String) (uuids : List String) (rs : List Release)
    → All (λ z. includes uuids z ≡ true) (commits (keep (is_asked app uuids) rs))
commits-asked app uuids [] = tt
commits-asked app uuids (r ∷ rs) = elim (Bool-cases (is_asked app uuids r)) [
  | inl e ↦ rw e (ground arith, commits-asked app uuids rs)
  | inr e ↦ rw e (commits-asked app uuids rs)
]

find-commits :
    (u : String) (rs : List Release) → includes (commits rs) u ≡ true → find (is_commit u) rs ≢ none
unfolding find
find-commits u [] h = λ e. cc
find-commits u (r ∷ rs) h = elim (Bool-cases (str_eq r.commit u)) [
  | inl t ↦ rw t (λ e. cc)
  | inr f ↦ rw f (find-commits u rs (rw f at h))
]

-- The checks that a result of the query has passed.
abbrev IsCounted : String → Criteria → List Release → Found → Type 0
IsCounted app c rs f = (length rs ≡ length c.release_uuids) × (f.releases ≡ (app, rs) ∷ [])

found_app-IsCounted :
    (app : String) (c : Criteria) (rs : List Release)
    → OnOk (IsCounted app c rs) (found_app app c rs)
found_app-IsCounted app c rs =
    let asked : Bool = length c.image_locations == length (images_at c.image_locations rs) in
    elim (Bool-cases (length rs == length c.release_uuids)) [
      | inr e ↦ rw e tt
      | inl e ↦
          let same : length rs ≡ length c.release_uuids = ground arith in
          elim (Bool-cases (length c.image_locations == 0)) [
            | inl z ↦ rw (e, z) (same, refl)
            | inr z ↦ elim (Bool-cases asked) [
              | inl n ↦ rw (e, z, n) (same, refl)
              | inr n ↦ rw (e, z, n) tt
            ]
          ]
    ]

includes-nonempty :
    (us : List String) (u : String) → includes us u ≡ true → (length us == 0) ≡ false
includes-nonempty [] u h = cc
includes-nonempty (x ∷ us) u h = ground arith

module _ (releases : List Release) (app : String) (c : Criteria) where
  abbrev pub asked_of : List Release
  asked_of = keep (is_asked app c.release_uuids) releases

  -- Where the check of an application passes and no two of the releases that it read have one commit,
  -- each release that the report names is among them, although only numbers are compared.
  pub fetch_app-finds :
      (f : Found) (u : String)
      → Distinct (commits asked_of)
      → fetch_app releases app c ≡ ok f
      → includes c.release_uuids u ≡ true
      → (known : List Release) × (f.releases ≡ (app, known) ∷ [])
        × (find (is_commit u) known ≢ none)
  unfolding fetch_app
  fetch_app-finds f u d h m =
      let named = includes-nonempty c.release_uuids u m in
      let counted : IsCounted app c asked_of f =
        subst (OnOk (IsCounted app c asked_of)) (rw named at h)
          (found_app-IsCounted app c asked_of) in
      (
        asked_of,
        counted.1,
        find-commits u asked_of (
            includes_all (commits asked_of) c.release_uuids d
              (commits-asked app c.release_uuids releases) (length-commits asked_of ∙ counted.0) u
              m),
      )

-- The same images are named.
abbrev pub NamesSame : List Text → List Text → Type 0
NamesSame ls ms = (i : Image) → is_at_any ls i ≡ is_at_any ms i

same-images :
    (ls ms : List Text) (is : List Image)
    → NamesSame ls ms
    → keep (is_at_any ls) is ≡ keep (is_at_any ms) is
same-images ls ms [] h = refl
same-images ls ms (i ∷ is) h =
    rw (h i) (ap (λ t. if is_at_any ms i then i ∷ t else t) (same-images ls ms is h))

images_at-same :
    (ls ms : List Text) (rs : List Release) → NamesSame ls ms → images_at ls rs ≡ images_at ms rs
images_at-same ls ms [] h = refl
images_at-same ls ms (r ∷ rs) h = λ i. same-images ls ms r.images h i ++ images_at-same ls ms rs h i

module _ (app : String) (uuids : List String) (ls ms : List Text) where
  abbrev asking : List Text → Criteria
  asking l = record { release_uuids = uuids; image_locations = l }

  found_app-once :
      (rs : List Release)
      → (length ls == 0) ≡ false
      → OnOk (λ _. length ls ≡ length (images_at ls rs)) (found_app app (asking ls) rs)
  found_app-once rs z = elim (Bool-cases (length rs == length uuids)) [
    | inr e ↦ rw e tt
    | inl e ↦ elim (Bool-cases (length ls == length (images_at ls rs))) [
      | inl n ↦ rw (e, z, n) (ground arith)
      | inr n ↦ rw (e, z, n) tt
    ]
  ]

  found_app-other :
      (rs : List Release)
      → (length ms == 0) ≡ false
      → length ms ≢ length (images_at ms rs)
      → found_app app (asking ms) rs ≡ err unauthorized
  found_app-other rs z h = elim (Bool-cases (length rs == length uuids)) [
    | inr e ↦ rw e refl
    | inl e ↦ elim (Bool-cases (length ms == length (images_at ms rs))) [
      | inl n ↦ absurd (h (ground (arith, n)))
      | inr n ↦ rw (e, z, n) refl
    ]
  ]

-- Where the check of one application accepts a list of locations of images with a list of releases,
-- neither of them empty, it refuses with these releases any other list of locations that names the
-- same images, is not empty and has another length, as one that names an image once more.
pub fetch_app-repeated :
    (releases : List Release) (app : String) (uuids : List String) (ls ms : List Text) (f : Found)
    → (length uuids == 0) ≡ false
    → (length ls == 0) ≡ false
    → (length ms == 0) ≡ false
    → length ls ≢ length ms
    → NamesSame ls ms
    → fetch_app releases app (record { release_uuids = uuids; image_locations = ls }) ≡ ok f
    → fetch_app releases app (record { release_uuids = uuids; image_locations = ms })
      ≡ err unauthorized
unfolding fetch_app
fetch_app-repeated releases app uuids ls ms f n y z d same h =
    let rs = keep (is_asked app uuids) releases in
    let counted : length ls ≡ length (images_at ls rs) =
      subst (OnOk (λ _. length ls ≡ length (images_at ls rs))) (rw n at h)
        (found_app-once app uuids ls ms rs y) in
    rw n (
      found_app-other app uuids ls ms rs z
        (λ e. d (counted ∙ ap length (images_at-same ls ms rs same) ∙ ap (λ k. k) (sym e))))
