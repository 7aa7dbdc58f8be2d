-- ===== src/State/Patch/V3/Status.antt =====
-- The update status that a device is given, src/features/device-state/routes/state-patch-v3.ts.
use open_balena_api.Base.{
  ltb, ◌≤◌, ◌≡◌, refl, sym, ◌∙◌, ◌⊎◌, inl, inr, false, Bool-cases, Option, none, some, List, [],
  ◌∷◌, if◌then◌else◌, All, Result, ok, err, arith, str_eq, eq_iff, String,
}
use open_balena_api.State.Patch.{UpdateStatus, Value, Object, get, set, remove, precedence}
use open_balena_api.State.Patch.Transaction.{and_then}
use open_balena_api.State.Patch.V3.{ReleaseReport, Apps, Release, Device, Fetched, and_then}
use open_balena_api.State.Patch.V3.Handler.{
  at_key, set_running, add_status, add_statuses, releases_of, maybe_running, columns,
}

-- The lower of two update statuses, where none is above all.
abbrev lower : Option UpdateStatus → Option UpdateStatus → Option UpdateStatus
lower c none = c
lower none (some u) = some u
lower (some v) (some u) = if ltb (precedence u) (precedence v) then some u else some v

abbrev Reports : Type 0
Reports = List (String × ReleaseReport)

abbrev lowest : Option UpdateStatus → Reports → Option UpdateStatus
lowest c [] = c
lowest c (r ∷ rs) = lowest (lower c r.1.update_status) rs

abbrev pub Le : Option UpdateStatus → Option UpdateStatus → Type 0
Le d none = Unit
Le none (some v) = ⊥
Le (some u) (some v) = precedence u ≤ precedence v

-- Whether a release is reported with this status.
abbrev pub Has : Option UpdateStatus → Reports → Type 0
Has d [] = ⊥
Has d (r ∷ rs) = (r.1.update_status ≡ d) ⊎ Has d rs

abbrev pub as_value : Option UpdateStatus → Option Value
as_value none = none
as_value (some u) = some (Value.update_status u)

Le_refl : (d : Option UpdateStatus) → Le d d
Le_refl none = tt
Le_refl (some u) = omega arith

Le_trans : (a b c : Option UpdateStatus) → Le a b → Le b c → Le a c
Le_trans a b none p q = tt
Le_trans none none (some w) p q = q
Le_trans none (some v) (some w) p q = absurd p
Le_trans (some u) none (some w) p q = absurd q
Le_trans (some u) (some v) (some w) p q = omega arith

Le-lower : (c d : Option UpdateStatus) → Le (lower c d) c × Le (lower c d) d
Le-lower c none = (Le_refl c, tt)
Le-lower none (some u) = (tt, omega arith)
Le-lower (some v) (some u) = elim (Bool-cases (ltb (precedence u) (precedence v))) [
  | inl e ↦ rw e (ground arith, omega arith)
  | inr e ↦ rw e (omega arith, ground arith)
]

lower-either : (c d : Option UpdateStatus) → (lower c d ≡ c) ⊎ (lower c d ≡ d)
lower-either c none = inl refl
lower-either none (some u) = inr refl
lower-either (some v) (some u) = elim (Bool-cases (ltb (precedence u) (precedence v))) [
  | inl e ↦ inr (rw e refl)
  | inr e ↦ inl (rw e refl)
]

lowest-Le :
    (c : Option UpdateStatus) (rs : Reports)
    → Le (lowest c rs) c × All (λ r. Le (lowest c rs) r.1.update_status) rs
lowest-Le c [] = (Le_refl c, tt)
lowest-Le c (r ∷ rs) =
    let m = lower c r.1.update_status in
    let below = lowest-Le m rs in
    let both = Le-lower c r.1.update_status in
    (
      Le_trans (lowest m rs) m c below.0 both.0,
      (Le_trans (lowest m rs) m r.1.update_status below.0 both.1, below.1),
    )

lowest-Has : (c : Option UpdateStatus) (rs : Reports) → (lowest c rs ≡ c) ⊎ Has (lowest c rs) rs
lowest-Has c [] = inl refl
lowest-Has c (r ∷ rs) = elim (lowest-Has (lower c r.1.update_status) rs) [
  | inr h ↦ inr (inr h)
  | inl e ↦ elim (lower-either c r.1.update_status) [
    | inl k ↦ inl (e ∙ k)
    | inr k ↦ inr (inl (sym (e ∙ k)))
  ]
]

get-set_self : (k : String) (v : Value) (o : Object) → get k (set k v o) ≡ some v
unfolding get set
get-set_self k v o = rw ((eq_iff k k).1 refl) refl

get-add_status :
    (c s : Option UpdateStatus) (o : Object)
    → get "update_status" o ≡ as_value c
    → get "update_status" (add_status s o) ≡ as_value (lower c s)
get-add_status c none o h = h
get-add_status none (some u) o h = rw h (get-set_self "update_status" (Value.update_status u) o)
get-add_status (some v) (some u) o h = elim (Bool-cases (ltb (precedence u) (precedence v))) [
  | inl e ↦ rw (h, e) (get-set_self "update_status" (Value.update_status u) o)
  | inr e ↦ rw (h, e) h
]

get-add_statuses :
    (c : Option UpdateStatus) (rs : Reports) (o : Object)
    → get "update_status" o ≡ as_value c
    → get "update_status" (add_statuses rs o) ≡ as_value (lowest c rs)
unfolding add_statuses
get-add_statuses c [] o h = h
get-add_statuses c ((uuid, r) ∷ rs) o h =
    get-add_statuses (lower c r.update_status) rs (add_status r.update_status o)
      (get-add_status c r.update_status o h)

get-remove_ne : (j k : String) (o : Object) → str_eq j k ≡ false → get k (remove j o) ≡ get k o
unfolding get remove
get-remove_ne j k [] n = refl
get-remove_ne j k ((i, v) ∷ o) n =
    ground (arith, eq_iff i j, eq_iff i k, eq_iff j k, get-remove_ne j k o n)

get-set_ne :
    (j k : String) (v : Value) (o : Object) → str_eq j k ≡ false → get k (set j v o) ≡ get k o
unfolding get set
get-set_ne j k v o n = rw n (get-remove_ne j k o n)

get-set_running :
    (r : Option Release) (o : Object)
    → get "update_status" (set_running r o) ≡ get "update_status" o
get-set_running none o = refl
get-set_running (some r) o =
    get-set_ne "is_running__release" "update_status"
      (Value.number (record { negative = false; magnitude = r.id })) o refl

-- A status, or none, that is the lowest of the releases of a report.
abbrev pub IsLowest : Option Value → Reports → Type 0
IsLowest v rs =
    (u : Option UpdateStatus) × (v ≡ as_value u)
    × All (λ r. Le u r.1.update_status) rs
    × ((u ≡ none) ⊎ Has u rs)

add_statuses-IsLowest :
    (rs : Reports) (m : Result (Option Release)) (o o' : Object)
    → get "update_status" o ≡ none
    → and_then m (λ r. ok (add_statuses rs (set_running r o))) ≡ ok o'
    → IsLowest (get "update_status" o') rs
add_statuses-IsLowest rs (ok r) o o' h e =
    let q : add_statuses rs (set_running r o) ≡ o' = cc in
    let given = get-add_statuses none rs (set_running r o) (get-set_running r o ∙ h) in
    (lowest none rs, rw (← q) given, (lowest-Le none rs).1, lowest-Has none rs)
add_statuses-IsLowest rs (err x) o o' h e = cc

-- The update status that a report gives its device is the lowest of those of the releases of the
-- device's application: it is one of them, none of them is lower, and it is missing only where
-- they all are.
pub columns-IsLowest :
    (f : Fetched) (d : Device) (apps : Apps) (o o' : Object)
    → get "update_status" o ≡ none
    → columns f d (some apps) o ≡ ok o'
    → let rs = releases_of (at_key d.application apps) in IsLowest (get "update_status" o') rs
unfolding columns
columns-IsLowest f d apps o o' h e =
    let app = at_key d.application apps in
    add_statuses-IsLowest (releases_of app)
      (maybe_running (at_key d.application f.found.releases) app) o o' h e
