-- ===== src/Installs/Hooks/Moves.antt =====
-- Devices that are moved to an application, src/features/ci-cd/hooks/service-installs.ts.
use open_balena_api.Base.{
  ℕ, ◌==◌, ◌≡◌, refl, subst, ap, sym, inl, inr, Bool, false, not, ◌&&◌, ◌||◌, Bool-cases, All, true,
  Option, none, some, List, [], ◌∷◌, map, keep, if◌then◌else◌, arith,
}
use open_balena_api.Installs.{
  Service, Device, Install, Tables, member, exists, is_number, services_of,
}
use open_balena_api.Installs.Rows.{has}
use open_balena_api.Installs.Hooks.{
  Selection, ids, is_nil, create_sync, Values, patched, patch_devices, is_stale,
  delete_service_installs_for_current_app, create_release_service_installs,
  create_app_service_installs, for_release, prerun, by_pin, postrun, on_patch_device,
}
use open_balena_api.Installs.Hooks.Laws.{create-has}

-- One of the devices that the PATCH affects has this id.
abbrev pub affects : List ℕ → List Device → ℕ → Bool
affects affected ds d = exists (λ e. e.id == d && member e.id affected) ds

abbrev pub needs : (ℕ → Bool) → List Service → ℕ → Bool
needs is_release ss s = member s (services_of is_release ss)

-- The services with an image in the release, if there is one.
abbrev pub needs_release : Option ℕ → List Service → ℕ → Bool
needs_release none ss s = false
needs_release (some r) ss s = needs (λ n. r == n) ss s

affects_none : (d : ℕ) (ds : List Device) → affects [] ds d ≡ false
affects_none d [] = refl
affects_none d (e ∷ ds) = ground (arith, affects_none d ds)

affects-patched :
    (v : Values) (affected : List ℕ) (d : ℕ) (ds : List Device)
    → affects affected (map (λ e. if member e.id affected then patched v e else e) ds) d
      ≡ affects affected ds d
affects-patched v affected d [] = refl
affects-patched v affected d (e ∷ ds) = ground (arith, affects-patched v affected d ds)

has-keep :
    (p : Install → Bool) (d s : ℕ) (is : List Install)
    → has (keep p is) d s ≡ (has is d s && p (d, s))
has-keep p d s [] = refl
has-keep p d s (i ∷ is) = elim (Bool-cases (i.0 == d && i.1 == s)) [
  | inl h ↦
      let device : i.0 ≡ d = ground arith in
      let service : i.1 ≡ s = ground arith in
      let same : p i ≡ p (d, s) = (λ k. p (device k, service k)) in
      ground (arith, same, has-keep p d s is)
  | inr h ↦ ground (arith, has-keep p d s is)
]

sync-services :
    (sel : Selection) (f : ℕ → Bool) (t : Tables) → (create_sync sel f t).services ≡ t.services
unfolding create_sync
sync-services sel f t = ground arith

sync-devices :
    (sel : Selection) (f : ℕ → Bool) (t : Tables) → (create_sync sel f t).devices ≡ t.devices
unfolding create_sync
sync-devices sel f t = ground arith

-- What the devices `is` are given in one step, from `t` to `u`.
record Gives (t : Tables) (is : List ℕ) (needed : ℕ → Bool) (u : Tables) : Type 0 where
  services : u.services ≡ t.services
  devices : u.devices ≡ t.devices
  installs :
      (d s : ℕ) → has u.installs d s ≡ (has t.installs d s || (affects is t.devices d && needed s))

module _ (chunk : List ℕ → List (List ℕ)) where
  release-Gives :
      (is : List ℕ) (f : ℕ → Bool) (t : Tables)
      → Gives t is (needs f t.services) (create_release_service_installs chunk false (ids is) f t)
  unfolding create_release_service_installs
  release-Gives [] f t = record {
    services = refl;
    devices = refl;
    installs = λ d s. ground (arith, affects_none d t.devices);
  }
  release-Gives (i ∷ is) f t = record {
    services = sync-services (ids (i ∷ is)) f t;
    devices = sync-devices (ids (i ∷ is)) f t;
    installs = λ d s. create-has (ids (i ∷ is)) f t d s;
  }

  for_release-Gives :
      (is : List ℕ) (r : Option ℕ) (t : Tables)
      → Gives t is (needs_release r t.services) (for_release chunk false is r t)
  for_release-Gives is none t = record {
    services = refl;
    devices = refl;
    installs = λ d s. ground arith;
  }
  for_release-Gives is (some r) t = release-Gives is (λ n. r == n) t

  Gives-then :
      {is : List ℕ}
      → {f g : ℕ → Bool} → {t u w : Tables} → Gives t is f u
      → Gives u is g w
      → Gives t is (λ s. f s || g s) w
  Gives-then {is} {f} {g} {t} {u} {w} a b = record {
    services = cc (a.services, b.services);
    devices = cc (a.devices, b.devices);
    installs = λ d s.
        let same : affects is u.devices d ≡ affects is t.devices d =
          ap (λ ds. affects is ds d) a.devices in
        ground (arith, a.installs d s, b.installs d s, same);
  }

-- The services that a device should have after it moves to the application.
abbrev pub needs_after_move : Values → ℕ → Tables → ℕ → Bool
needs_after_move v a t s =
    needs (is_number (t.target a)) t.services s
    || needs_release v.managed t.services s
    || needs_release v.operated t.services s

module _ (chunk : List ℕ → List (List ℕ)) (v : Values) (affected : List ℕ) (a : ℕ)
    (t : Tables) where
  abbrev left : Tables
  left = patch_devices v affected (delete_service_installs_for_current_app a affected t)

  -- The hooks after the PATCH.
  abbrev arrived : Tables
  arrived = for_release chunk false affected v.operated (
      for_release chunk false affected v.managed
        (create_app_service_installs chunk false a affected left))

  left-services : left.services ≡ t.services
  unfolding patch_devices delete_service_installs_for_current_app
  left-services = refl

  left-target : left.target ≡ t.target
  unfolding patch_devices delete_service_installs_for_current_app
  left-target = refl

  arrived-Gives : Gives left affected (needs_after_move v a left) arrived
  unfolding create_app_service_installs
  arrived-Gives =
      let ss = left.services in
      let x = release-Gives chunk affected (is_number (left.target a)) left in
      let u = create_app_service_installs chunk false a affected left in
      let y : Gives u affected (needs_release v.managed ss)
          (for_release chunk false affected v.managed u) =
        subst
          (λ l.
            Gives u affected (needs_release v.managed l)
              (for_release chunk false affected v.managed u))
          x.services (for_release-Gives chunk affected v.managed u) in
      let w = for_release chunk false affected v.managed u in
      let z : Gives w affected (needs_release v.operated ss) arrived =
        subst (λ l. Gives w affected (needs_release v.operated l) arrived)
          (cc (x.services, y.services)) (for_release-Gives chunk affected v.operated w) in
      Gives-then chunk (Gives-then chunk x y) z

  prerun-moved :
      v.application ≡ some a
      → is_nil affected ≡ false
      → prerun chunk false v.application affected t
        ≡ delete_service_installs_for_current_app a affected t
  prerun-moved h k = cc

  postrun-moved :
      (u : Tables)
      → v.application ≡ some a
      → postrun chunk false v affected u ≡ create_app_service_installs chunk false a affected u
  postrun-moved u h =
      subst
        (λ o.
          (elim o [
            | some b ↦ create_app_service_installs chunk false b affected u
            | none ↦ by_pin chunk false v.pinned affected u
          ])
          ≡ create_app_service_installs chunk false a affected u)
        (sym h) refl

moved-has :
    (chunk : List ℕ → List (List ℕ)) (v : Values) (affected : List ℕ) (a : ℕ) (t : Tables) (d s : ℕ)
    → v.application ≡ some a
    → has (on_patch_device chunk false v affected t).installs d s ≡ (
        (has t.installs d s && not (is_stale a affected t (d, s)))
        || (affects affected t.devices d && needs_after_move v a t s))
unfolding on_patch_device create_app_service_installs delete_service_installs_for_current_app
moved-has chunk v [] a t d s h = ground (arith, affects_none d t.devices, h)
moved-has chunk v (i ∷ is) a t d s h =
    let affected = i ∷ is in
    let x = (arrived-Gives chunk v affected a t).installs d s in
    let kept = has-keep (λ k. not (is_stale a affected t k)) d s t.installs in
    let y = affects-patched v affected d t.devices in
    let before = prerun-moved chunk v affected a t h refl in
    let after = postrun-moved chunk v affected a t (left chunk v affected a t) h in
    cc (x, kept, y, before, after)

-- No other service has the id of this one.
abbrev pub IsOnly : Service → Service → Type 0
IsOnly x y = y.id ≡ x.id → y ≡ x

exists_only :
    (p : Service → Bool) (x : Service) (ss : List Service)
    → All (IsOnly x) ss
    → exists (λ y. y.id == x.id && p y) ss ≡ (exists (λ y. y.id == x.id) ss && p x)
exists_only p x [] h = refl
exists_only p x (y ∷ ss) (f, h) = elim (Bool-cases (y.id == x.id)) [
  | inl e ↦
      let same : p y ≡ p x = ap p (f (ground arith)) in ground (arith, same, exists_only p x ss h)
  | inr e ↦ ground (arith, exists_only p x ss h)
]

-- An affected device was in the application of the service, which is not the new one.
abbrev pub is_left_behind : ℕ → List ℕ → List Device → Service → Bool
is_left_behind a affected ds x =
    not (x.application == a)
    && exists (λ e. member e.id affected && e.application == x.application) ds

-- With tasks off, and a service of the table with an id of its own: after a PATCH that moves devices to
-- an application, a device has the service exactly if it had it, unless the device is affected and an
-- affected device was in the service's application and that is not the new one; or if the device is
-- affected and the service has an image in the release that the new application should run, or in
-- the release of the supervisor or the host that the PATCH sets.
pub move-has :
    (chunk : List ℕ → List (List ℕ)) (v : Values) (affected : List ℕ) (a : ℕ) (t : Tables) (d : ℕ)
    (x : Service)
    → v.application ≡ some a
    → exists (λ y. y.id == x.id) t.services ≡ true
    → All (IsOnly x) t.services
    → has (on_patch_device chunk false v affected t).installs d x.id ≡ (
        (has t.installs d x.id && not (member d affected && is_left_behind a affected t.devices x))
        || (affects affected t.devices d && needs_after_move v a t x.id))
unfolding is_stale
move-has chunk v affected a t d x h k only =
    let stale =
      exists_only
        (λ y.
          not (y.application == a)
          && exists (λ e. member e.id affected && e.application == y.application) t.devices)
        x t.services only in
    ground (arith, moved-has chunk v affected a t d x.id h, stale, k)
