-- ===== src/State/Devices/Laws.antt =====
-- Which requests of devices reach their handler, src/features/device-state/middleware.ts.
use open_balena_api.Base.{
  ℕ, ◌≡◌, refl, ◌≢◌, inl, inr, Bool-cases, String, Option, none, some, List, [], ◌∷◌, ◌++◌, ◌∙◌,
  sym, ap, if◌then◌else◌, append_assoc, append-nil,
}
use open_balena_api.State.Devices.{
  Device, Codes, Outcome, respond, next, check, resolve_devices,
  resolve_or_deny_devices_with_status,
}

-- The id of a device that exists and is not frozen.
abbrev pub active : Option Device → Option ℕ
active none = none
active (some d) = if d.is_frozen then none else some d.id

-- The uuids are those of active devices, with these ids in this order.
abbrev pub AllActive : (String → Option Device) → List String → List ℕ → Type 0
AllActive find [] [] = Unit
AllActive find (u ∷ us) (i ∷ ids) = (active (find u) ≡ some i) × AllActive find us ids
AllActive find _ _ = ⊥

abbrev pub denied : Codes → Option Device → ℕ
denied codes none = codes.deleted
denied codes (some d) = codes.frozen

check-active :
    (codes : Codes) (d : Option Device) (rest : ℕ → Outcome) (i : ℕ)
    → active d ≡ some i
    → check codes d rest ≡ rest i
unfolding check
check-active codes none rest i h = cc
check-active codes (some d) rest i h = elim (Bool-cases d.is_frozen) [
  | inl e ↦ cc (rw e at h)
  | inr e ↦ rw e (ap (λ x. elim x [ none ↦ rest d.id | some j ↦ rest j ]) (rw e at h))
]

check-next :
    (codes : Codes) (d : Option Device) (rest : ℕ → Outcome) (ids : List ℕ)
    → check codes d rest ≡ next ids
    → (i : ℕ) × (active d ≡ some i) × (rest i ≡ next ids)
unfolding check
check-next codes none rest ids h = cc
check-next codes (some d) rest ids h = elim (Bool-cases d.is_frozen) [
  | inl e ↦ cc (rw e at h)
  | inr e ↦ (d.id, rw e refl, rw e at h)
]

check-denied :
    (codes : Codes) (d : Option Device) (rest : ℕ → Outcome)
    → active d ≡ none
    → check codes d rest ≡ respond (denied codes d)
unfolding check
check-denied codes none rest h = refl
check-denied codes (some d) rest h = elim (Bool-cases d.is_frozen) [
  | inl e ↦ rw e refl
  | inr e ↦ cc (rw e at h)
]

-- The loop passes over active devices, with their ids pushed.
resolve_devices-append :
    (find : String → Option Device) (codes : Codes) (uuids : List String) (before ids : List ℕ)
    (others : List String)
    → AllActive find uuids ids
    → resolve_devices find codes before (uuids ++ others)
      ≡ resolve_devices find codes (before ++ ids) others
unfolding resolve_devices
resolve_devices-append find codes [] before [] others h = rw append-nil refl
resolve_devices-append find codes (u ∷ us) before (i ∷ ids) others (h, hs) =
    let rest = λ (j : ℕ). resolve_devices find codes (before ++ j ∷ []) (us ++ others) in
    let now = check-active codes (find u) rest i h in
    let later = resolve_devices-append find codes us (before ++ i ∷ []) ids others hs in
    now ∙ later ∙ rw append_assoc refl
resolve_devices-append find codes [] before (i ∷ ids) others h = elim h [ ]
resolve_devices-append find codes (u ∷ us) before [] others h = elim h [ ]

resolve_devices-next :
    (find : String → Option Device) (codes : Codes) (uuids : List String) (before ids : List ℕ)
    → resolve_devices find codes before uuids ≡ next ids
    → (js : List ℕ) × (ids ≡ before ++ js) × AllActive find uuids js
unfolding resolve_devices
resolve_devices-next find codes [] before ids h = ([], rw append-nil (cc h), tt)
resolve_devices-next find codes (u ∷ us) before ids h =
    let (i, e, k) = check-next codes (find u) _ ids h in
    let (js, f, all) = resolve_devices-next find codes us (before ++ i ∷ []) ids k in
    (i ∷ js, f ∙ rw append_assoc refl, (e, all))

-- A request of one device at least, all of which are active, reaches the handler with their ids in
-- the order of the uuids.
pub resolve-active :
    (find : String → Option Device) (codes : Codes) (u : String) (us : List String) (ids : List ℕ)
    → AllActive find (u ∷ us) ids
    → resolve_or_deny_devices_with_status find codes (u ∷ us) ≡ next ids
unfolding resolve_or_deny_devices_with_status resolve_devices
resolve-active find codes u us ids h =
    let all = sym (append-nil us) in
    ap (λ vs. resolve_devices find codes [] (u ∷ vs)) all
    ∙ resolve_devices-append find codes (u ∷ us) [] ids [] h

-- A request that reaches the handler names one device at least, all of its devices exist and are not
-- frozen, and the ids are theirs in the order of the uuids.
pub resolve-next :
    (find : String → Option Device) (codes : Codes) (uuids : List String) (ids : List ℕ)
    → resolve_or_deny_devices_with_status find codes uuids ≡ next ids
    → (uuids ≢ []) × AllActive find uuids ids
unfolding resolve_or_deny_devices_with_status
resolve-next find codes [] ids h = cc
resolve-next find codes (u ∷ us) ids h =
    let (js, e, all) = resolve_devices-next find codes (u ∷ us) [] ids h in (λ p. cc p, rw e all)

-- The first device that is deleted or frozen, behind active ones only, decides the response to the
-- whole request, whatever comes after it.
pub resolve-denied :
    (find : String → Option Device) (codes : Codes) (before : List String) (ids : List ℕ)
    (u : String) (after : List String)
    → AllActive find before ids
    → active (find u) ≡ none
    → resolve_or_deny_devices_with_status find codes (before ++ u ∷ after)
      ≡ respond (denied codes (find u))
unfolding resolve_or_deny_devices_with_status resolve_devices
resolve-denied find codes [] ids u after h e = check-denied codes (find u) _ e
resolve-denied find codes (v ∷ vs) ids u after h e =
    resolve_devices-append find codes (v ∷ vs) [] ids (u ∷ after) h
    ∙ check-denied codes (find u) _ e
