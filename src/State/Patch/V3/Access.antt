-- ===== src/State/Patch/V3/Access.antt =====
-- What a report may write, src/features/device-state/routes/state-patch-v3.ts: the updates are for the
-- devices that the middleware found, and record releases and images that the request may read.
use open_balena_api.Base.{
  ℕ, ◌==◌, ◌≡◌, inl, inr, Bool, true, false, not, ◌&&◌, ◌||◌, Bool-cases, List, [], ◌∷◌, length,
  keep, All, All-append, All-mono, Error, arith, str_eq, String,
}
use open_balena_api.State.Truncate.{Text}
use open_balena_api.State.Patch.Installs.{ImgInstall}
use open_balena_api.State.Patch.Transaction.{OnOk, OnOk-and_then}
use open_balena_api.State.Patch.V3.{
  ServiceReport, ReleaseReport, Apps, Criteria, AppCriteria, entries, Image, Release, Found,
  Fetched, is_asked, images_at, is_at_any, found_app, fetch_app, fetch_apps,
}
use open_balena_api.State.Patch.V3.Handler.{
  at_key, find, or_throw, service_installs, release_installs, app_installs, is_located, is_commit,
  internal_request_error, type_error,
}

-- Whether an image is one of these, or one of a successful release.
abbrev pub image_in : ℕ → List Image → Bool
image_in n [] = false
image_in n (i ∷ is) = i.id == n || image_in n is

abbrev pub known_image : ℕ → List Release → Bool
known_image n [] = false
known_image n (r ∷ rs) = (r.is_success && image_in n r.images) || known_image n rs

abbrev pub known_release : ℕ → List Release → Bool
known_release n [] = false
known_release n (r ∷ rs) = (r.is_success && r.id == n) || known_release n rs

image_in_self : (is : List Image) → All (λ i. image_in i.id is ≡ true) is
image_in_self [] = tt
image_in_self (i ∷ is) = (ground arith, All-mono (λ j h. rw h (ground arith)) is (image_in_self is))

module _ (all : List Release) where
  abbrev pub IsKnownImage : Image → Type 0
  IsKnownImage i = known_image i.id all ≡ true

  abbrev pub IsKnown : Release → Type 0
  IsKnown r = (known_release r.id all ≡ true) × All IsKnownImage r.images

pub IsKnown-self : (rs : List Release) → All (λ r. r.is_success ≡ true → IsKnown rs r) rs
IsKnown-self [] = tt
IsKnown-self (r ∷ rs) = (
  (λ s. (ground arith, All-mono (λ i h. ground arith) r.images (image_in_self r.images))),
  All-mono
      (λ q h s. (rw (h s).0 (ground arith), All-mono (λ i k. rw k (ground arith)) q.images (h s).1))
      rs (IsKnown-self rs),
)

module _ (all : List Release) where
  All-asked :
      (app : String) (uuids : List String) (rs : List Release)
      → All (λ r. r.is_success ≡ true → IsKnown all r) rs
      → All (IsKnown all) (keep (is_asked app uuids) rs)
  All-asked app uuids [] h = tt
  All-asked app uuids (r ∷ rs) (p, h) = elim (Bool-cases (is_asked app uuids r)) [
    | inl e ↦ rw e (p (ground arith), All-asked app uuids rs h)
    | inr e ↦ rw e (All-asked app uuids rs h)
  ]

  All-keep :
      {A : Type 0} (P : A → Type 0) (p : A → Bool) (xs : List A) → All P xs → All P (keep p xs)
  All-keep P p [] h = tt
  All-keep P p (x ∷ xs) (q, h) = elim (Bool-cases (p x)) [
    | inl e ↦ rw e (q, All-keep P p xs h)
    | inr e ↦ rw e (All-keep P p xs h)
  ]

  All-images_at :
      (locations : List Text) (rs : List Release)
      → All (IsKnown all) rs
      → All (IsKnownImage all) (images_at locations rs)
  All-images_at locations [] h = tt
  All-images_at locations (r ∷ rs) (p, h) =
      All-append (IsKnownImage all) (keep (is_at_any locations) r.images) (images_at locations rs)
        (All-keep (IsKnownImage all) (is_at_any locations) r.images p.1)
        (All-images_at locations rs h)

  abbrev pub IsFound : Found → Type 0
  IsFound f = All (IsKnownImage all) f.images × All (λ e. All (IsKnown all) e.1) f.releases

  found_app-IsFound :
      (app : String) (c : Criteria) (rs : List Release)
      → All (IsKnown all) rs
      → OnOk IsFound (found_app app c rs)
  found_app-IsFound app c rs h =
      let asked : Bool = length c.image_locations == length (images_at c.image_locations rs) in
      elim (Bool-cases (not (length rs == length c.release_uuids))) [
        | inl e ↦ rw e tt
        | inr e ↦ elim (Bool-cases (length c.image_locations == 0)) [
          | inl z ↦ rw (e, z) (tt, (h, tt))
          | inr z ↦ elim (Bool-cases asked) [
            | inl n ↦ rw (e, z, n) (All-images_at c.image_locations rs h, (h, tt))
            | inr n ↦ rw (e, z, n) tt
          ]
        ]
      ]

  fetch_app-IsFound :
      (app : String) (c : Criteria) (rs : List Release)
      → All (λ r. r.is_success ≡ true → IsKnown all r) rs
      → OnOk IsFound (fetch_app rs app c)
  unfolding fetch_app
  fetch_app-IsFound app c rs h = elim (Bool-cases (length c.release_uuids == 0)) [
    | inl e ↦ rw e (tt, (tt, tt))
    | inr e ↦ rw e (
        found_app-IsFound app c (keep (is_asked app c.release_uuids) rs)
          (All-asked app c.release_uuids rs h))
  ]

  pub fetch_apps-IsFound :
      (rs : List Release) (cs : AppCriteria)
      → All (λ r. r.is_success ≡ true → IsKnown all r) rs
      → OnOk IsFound (fetch_apps rs cs)
  unfolding fetch_apps
  fetch_apps-IsFound rs [] h = (tt, tt)
  fetch_apps-IsFound rs ((app, c) ∷ cs) h =
      OnOk-and_then IsFound IsFound (fetch_app rs app c) _ (fetch_app-IsFound app c rs h) (λ a p.
        OnOk-and_then IsFound IsFound (fetch_apps rs cs) _ (fetch_apps-IsFound rs cs h) (λ b q. (
          All-append (IsKnownImage all) a.images b.images p.0 q.0,
          All-append (λ e. All (IsKnown all) e.1) a.releases b.releases p.1 q.1,
        )))

  -- What is recorded of an image is known.
  abbrev pub IsKnownInstall : ImgInstall → Type 0
  IsKnownInstall i = (known_image i.image all ≡ true) × (known_release i.release all ≡ true)

  OnOk-or_throw :
      {A : Type 0} (P : A → Type 0) (e : Error) (p : A → Bool) (xs : List A)
      → All P xs
      → OnOk P (or_throw e (find p xs))
  unfolding find
  OnOk-or_throw P e p [] h = tt
  OnOk-or_throw P e p (x ∷ xs) (q, h) = elim (Bool-cases (p x)) [
    | inl t ↦ rw t q
    | inr t ↦ rw t (OnOk-or_throw P e p xs h)
  ]

  OnOk-at_key :
      {A : Type 0} (P : A → Type 0) (e : Error) (k : String) (o : List (String × A))
      → All (λ x. P x.1) o
      → OnOk P (or_throw e (at_key k o))
  unfolding at_key
  OnOk-at_key P e k [] h = tt
  OnOk-at_key P e k ((j, a) ∷ o) (q, h) = elim (Bool-cases (str_eq j k)) [
    | inl t ↦ rw t q
    | inr t ↦ rw t (OnOk-at_key P e k o h)
  ]

  service_installs-Known :
      (images : List Image) (r : Release) (ss : List (String × ServiceReport))
      → All (IsKnownImage all) images
      → IsKnown all r
      → OnOk (All IsKnownInstall) (service_installs images r ss)
  unfolding service_installs
  service_installs-Known images r [] h k = tt
  service_installs-Known images r ((name, s) ∷ ss) h k =
      OnOk-and_then (IsKnownImage all) (All IsKnownInstall)
        (or_throw internal_request_error (find (is_located s) images)) _
        (OnOk-or_throw (IsKnownImage all) internal_request_error (is_located s) images h)
        (λ i p.
          OnOk-and_then (All IsKnownInstall) (All IsKnownInstall) (service_installs images r ss) _
            (service_installs-Known images r ss h k) (λ is q. ((p, k.0), q)))

  release_installs-Known :
      (f : Fetched) (app : String) (rs : List (String × ReleaseReport))
      → IsFound f.found
      → OnOk (All IsKnownInstall) (release_installs f app rs)
  unfolding release_installs
  release_installs-Known f app [] h = tt
  release_installs-Known f app ((uuid, r) ∷ rs) h =
      OnOk-and_then (All (IsKnown all)) (All IsKnownInstall)
        (or_throw type_error (at_key app f.found.releases)) _
        (OnOk-at_key (All (IsKnown all)) type_error app f.found.releases h.1)
        (λ known a.
          OnOk-and_then (IsKnown all) (All IsKnownInstall)
            (or_throw internal_request_error (find (is_commit uuid) known)) _
            (OnOk-or_throw (IsKnown all) internal_request_error (is_commit uuid) known a)
            (λ release k.
              OnOk-and_then (All IsKnownInstall) (All IsKnownInstall)
                (service_installs f.found.images release (entries r.services)) _
                (service_installs-Known f.found.images release (entries r.services) h.0 k)
                (λ is p.
                  OnOk-and_then (All IsKnownInstall) (All IsKnownInstall)
                    (release_installs f app rs) _ (release_installs-Known f app rs h)
                    (λ js q. All-append IsKnownInstall is js p q))))

  pub app_installs-Known :
      (f : Fetched) (apps : Apps)
      → IsFound f.found
      → OnOk (All IsKnownInstall) (app_installs f apps)
  unfolding app_installs
  app_installs-Known f [] h = tt
  app_installs-Known f ((app, a) ∷ rest) h =
      OnOk-and_then (All IsKnownInstall) (All IsKnownInstall)
        (release_installs f app (entries a.releases)) _
        (release_installs-Known f app (entries a.releases) h)
        (λ is p.
          OnOk-and_then (All IsKnownInstall) (All IsKnownInstall) (app_installs f rest) _
            (app_installs-Known f rest h) (λ js q. All-append IsKnownInstall is js p q))
