-- ===== src/Installs/Hooks/Laws.antt =====
-- The installs after a release is chosen, src/features/ci-cd/hooks/service-installs.ts.
use open_balena_api.Base.{
  ℕ, zero, suc, ◌+◌, ◌*◌, ◌≤◌, ◌≡◌, refl, ap, inl, inr, ◌==◌, Bool, true, ◌&&◌, ◌||◌, Bool-cases,
  List, [], ◌∷◌, map, keep, if◌then◌else◌, arith,
}
use open_balena_api.Installs.{
  Service, Device, Install, Tables, member, exists, services_of, lacks_some, create_for, create_all,
}
use open_balena_api.Installs.Rows.{
  occurrences, count, has, has-count, occurrences-member, count-create_for, device_ids,
  occurrences-keep_ids, lacks-true,
}
use open_balena_api.Installs.Hooks.{Selection, selects, is_nil, create_sync}

-- A device of the list gets the services that it lacked.
count-create_all :
    (before : List Install) (d s : ℕ) (ss : List ℕ) (ds : List Device) (is : List Install)
    → count d s (create_all before (λ _. ss) ds is)
      ≡ count d s is
        + (if has before d s then 0 else occurrences d (device_ids ds) * occurrences s ss)
unfolding create_all
count-create_all before d s ss [] is = ground arith
count-create_all before d s ss (e ∷ ds) is =
    let a = count-create_for before d s e.id ss is in
    let b = count-create_all before d s ss ds (create_for before e.id ss is) in ground (arith, a, b)

occurrences-services_of :
    (is_release : ℕ → Bool) (s : ℕ) (ss : List Service)
    → occurrences s (services_of is_release ss) ≤ occurrences s (map (λ x. x.id) ss)
unfolding services_of
occurrences-services_of is_release s [] = omega arith
occurrences-services_of is_release s (x ∷ ss) =
    ground (arith, occurrences-services_of is_release s ss)

product_of_ones : (a b : ℕ) → a ≤ 1 → b ≤ 1 → a * b ≤ 1
product_of_ones zero b h k = omega arith
product_of_ones (suc zero) b h k = omega arith
product_of_ones (suc (suc a)) b h k = omega arith

product_is_zero : (a b : ℕ) → (a * b == 0) ≡ (a == 0 || b == 0)
product_is_zero zero b = ground arith
product_is_zero (suc a) zero = ground arith
product_is_zero (suc a) (suc b) = ground arith

-- Of the devices that lack a service, the selected ones are filtered.
member-lacking :
    (p : Device → Bool) (lacks : ℕ → Bool) (d : ℕ) (ds : List Device)
    → lacks d ≡ true
    → member d (device_ids (keep (λ e. p e && lacks e.id) ds)) ≡ exists (λ e. e.id == d && p e) ds
member-lacking p lacks d [] h = refl
member-lacking p lacks d (e ∷ ds) h = elim (Bool-cases (e.id == d)) [
  | inl k ↦
      let same : lacks e.id ≡ lacks d = ap lacks (ground arith) in
      ground (arith, same, member-lacking p lacks d ds h)
  | inr k ↦ ground (arith, member-lacking p lacks d ds h)
]

nil_has_none : (s : ℕ) (ss : List ℕ) → is_nil ss ≡ true → occurrences s ss ≡ 0
nil_has_none s [] h = refl
nil_has_none s (x ∷ xs) h = cc

times_zero : (a : ℕ) → a * 0 ≡ 0
times_zero zero = refl
times_zero (suc a) = omega arith

module _ (sel : Selection) (is_release : ℕ → Bool) (t : Tables) (d s : ℕ) where
  abbrev targets : List ℕ
  targets = services_of is_release t.services

  abbrev todo : List Device
  todo = keep (λ e. selects sel e && lacks_some t.installs targets e.id) t.devices

  created-count :
      count d s (create_sync sel is_release t).installs
      ≡ count d s t.installs
        + (if has t.installs d s
            then 0
            else occurrences d (device_ids todo) * occurrences s targets)
  unfolding create_sync
  created-count =
      let b = count-create_all t.installs d s targets todo t.installs in
      elim (Bool-cases (is_nil targets)) [
        | inl e ↦
            ground (arith, nil_has_none s targets e, times_zero (occurrences d (device_ids todo)))
        | inr e ↦ ground (arith, b)
      ]

  -- After a release is chosen, a device has a service exactly if it had it before, or it is one of
  -- the selected devices and the service has an image in a release that the filter lets through.
  pub create-has : has (create_sync sel is_release t).installs d s ≡ (
      has t.installs d s
      || (exists (λ e. e.id == d && selects sel e) t.devices && member s targets))
  create-has =
      let after = (create_sync sel is_release t).installs in
      let a = has-count after d s in
      let b = has-count t.installs d s in
      let c = occurrences-member d (device_ids todo) in
      let m = occurrences-member s targets in
      let z = product_is_zero (occurrences d (device_ids todo)) (occurrences s targets) in
      elim (Bool-cases (has t.installs d s)) [
        | inl h ↦ ground (arith, a, b, created-count)
        | inr h ↦ elim (Bool-cases (member s targets)) [
          | inl k ↦
              let l =
                member-lacking (selects sel) (lacks_some t.installs targets) d t.devices
                  (lacks-true t.installs d s targets k h) in
              ground (arith, a, b, c, m, z, l, created-count)
          | inr k ↦ ground (arith, a, b, m, z, created-count)
        ]
      ]

  -- If no device and no service is in the table twice, and none has a service twice, none has one twice
  -- after a release is chosen.
  pub create_once :
      occurrences d (device_ids t.devices) ≤ 1
      → occurrences s (map (λ x. x.id) t.services) ≤ 1
      → count d s t.installs ≤ 1
      → count d s (create_sync sel is_release t).installs ≤ 1
  create_once f g h =
      let p =
        product_of_ones (occurrences d (device_ids todo)) (occurrences s targets)
          (omega (
            arith,
            occurrences-keep_ids (λ e. selects sel e && lacks_some t.installs targets e.id) d
                t.devices,
            f,
          ))
          (omega (arith, occurrences-services_of is_release s t.services, g)) in
      elim (Bool-cases (has t.installs d s)) [
        | inl k ↦ ground (arith, created-count)
        | inr k ↦ ground (arith, created-count, has-count t.installs d s, p)
      ]
