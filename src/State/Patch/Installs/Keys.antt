-- ===== src/State/Patch/Installs/Keys.antt =====
-- The ids of image installs, and the updates of a whole transaction,
-- src/features/device-state/routes/state-patch-v3.ts with state-patch-utils.ts.
use open_balena_api.Base.{
  ℕ, suc, ◌<◌, ◌==◌, ◌≡◌, ◌≢◌, refl, ◌∙◌, inl, inr, false, not, ◌&&◌, Bool-cases, Option, none,
  some, List, [], ◌∷◌, ◌++◌, map, member, All, All-append, All-mono, arith,
}
use open_balena_api.State.Reports.{Body, Report, Write, post, patch, nothing}
use open_balena_api.State.Patch.{Settings, Object}
use open_balena_api.State.Patch.Installs.{
  ImgInstall, Install, Tables, is_accepted, created, patched, existing, stored_report, written,
  decided, upsert, upsert_all, marked, images_of, delete_old_image_installs, save_installs, Update,
  patch_of, installs_of, matches, patch_device, apply, apply_all,
}
use open_balena_api.State.Patch.Installs.Rows.{rows_of, IsKeyed}
use open_balena_api.State.Patch.Installs.Laws.{save_installs-others}

abbrev pub AllBelow : ℕ → List Install → Type 0
AllBelow n rows = All (λ r. r.id < n) rows

-- Ids are unique, and the next one is above them.
abbrev pub IsValid : Tables → Type 0
IsValid db = IsKeyed db.installs × AllBelow db.next_id db.installs

All-map :
    (P : ℕ → Type 0) (f : Install → Install)
    → ((r : Install) → (f r).id ≡ r.id)
    → (rows : List Install) → All (λ r. P r.id) rows
    → All (λ r. P r.id) (map f rows)
All-map P f h [] a = tt
All-map P f h (r ∷ rs) (p, a) = (rw (h r) p, All-map P f h rs a)

IsKeyed-map :
    (f : Install → Install)
    → ((r : Install) → (f r).id ≡ r.id)
    → (rows : List Install) → IsKeyed rows
    → IsKeyed (map f rows)
IsKeyed-map f h [] k = tt
IsKeyed-map f h (r ∷ rs) (fresh, k) =
    (rw (h r) (All-map (λ n. n ≢ r.id) f h rs fresh), IsKeyed-map f h rs k)

IsKeyed-append :
    (rows : List Install) (r : Install)
    → IsKeyed rows
    → AllBelow r.id rows
    → IsKeyed (rows ++ r ∷ [])
IsKeyed-append [] r k a = (tt, tt)
IsKeyed-append (s ∷ rows) r (fresh, k) (p, a) = (
  All-append (λ t. t.id ≢ s.id) rows (r ∷ []) fresh ((λ e. absurd (omega arith)), tt),
  IsKeyed-append rows r k a,
)

pub id-patched : (id : ℕ) (b : Body) (r : Install) → (patched id b r).id ≡ r.id
id-patched id b r = elim (Bool-cases (r.id == id)) [ inl e ↦ rw e | inr e ↦ rw e ]

pub id-marked : (d : ℕ) (ids : List ℕ) (r : Install) → (marked d ids r).id ≡ r.id
id-marked d ids r = elim (Bool-cases (r.device == d && not (member r.installs_image ids))) [
  | inl e ↦ rw e
  | inr e ↦ rw e
]

IsValid-map :
    (f : Install → Install) (db : Tables)
    → ((r : Install) → (f r).id ≡ r.id)
    → IsValid db
    → IsValid (record db { installs = map f db.installs })
IsValid-map f db h (k, a) =
    (IsKeyed-map f h db.installs k, All-map (λ n. n < db.next_id) f h db.installs a)

IsValid-written :
    (d image : ℕ) (id : Option ℕ) (w : Write) (db : Tables)
    → IsValid db
    → IsValid (written d image id w db)
IsValid-written d image id (post b) db (k, a) =
    let r = created db.next_id d image b in
    let older : AllBelow (suc db.next_id) db.installs =
      All-mono (λ t p. omega arith) db.installs a in
    elim (Bool-cases (is_accepted d image b db)) [
      | inl y ↦ rw y (
        IsKeyed-append db.installs r k a,
        All-append (λ s. s.id < suc db.next_id) db.installs (r ∷ []) older (omega arith, tt),
      )
      | inr y ↦ rw y (k, a)
    ]
IsValid-written d image none (patch b) db v = v
IsValid-written d image none nothing db v = v
IsValid-written d image (some id) (patch b) db v = IsValid-map (patched id b) db (id-patched id b) v
IsValid-written d image (some id) nothing db v = v

IsValid-stored_report :
    (id : Option ℕ) (r : Option Report) (db : Tables) → IsValid db → IsValid (stored_report id r db)
IsValid-stored_report none r db v = v
IsValid-stored_report (some id) r db v = v

upsert_all-IsValid :
    (s : Settings) (now d : ℕ) (rows : List Install) (is : List ImgInstall) (db : Tables)
    → IsValid db
    → IsValid (upsert_all s now d rows is db)
unfolding upsert_all upsert
upsert_all-IsValid s now d rows [] db v = v
upsert_all-IsValid s now d rows (i ∷ is) db v =
    let id = existing d i.image rows in
    let w = decided s now i id db in
    upsert_all-IsValid s now d rows is (upsert s now d i id db) (
      IsValid-written d i.image id w.0 (stored_report id w.1 db)
        (IsValid-stored_report id w.1 db v))

apply-IsValid :
    (s : Settings) (now : ℕ) (u : Update) (db : Tables) → IsValid db → IsValid (apply s now u db)
unfolding apply patch_device save_installs delete_old_image_installs
apply-IsValid s now (patch_of d filter body) db v =
    elim (Bool-cases (matches filter (db.devices d))) [ inl e ↦ rw e v | inr e ↦ rw e v ]
apply-IsValid s now (installs_of d is) db v =
    IsValid-map (marked d (images_of is)) (upsert_all s now d db.installs is db)
      (id-marked d (images_of is)) (upsert_all-IsValid s now d db.installs is db v)

-- Every transaction keeps the ids of image installs unique, and below the next one.
pub apply_all-IsValid :
    (s : Settings) (now : ℕ) (us : List Update) (db : Tables)
    → IsValid db
    → IsValid (apply_all s now us db)
unfolding apply_all
apply_all-IsValid s now [] db v = v
apply_all-IsValid s now (u ∷ us) db v =
    apply_all-IsValid s now us (apply s now u db) (apply-IsValid s now u db v)

-- The device that an update is for.
abbrev pub device_of : Update → ℕ
device_of (patch_of d filter body) = d
device_of (installs_of d is) = d

-- The columns and the image installs of a device.
abbrev pub view : ℕ → Tables → Object × List Install
view e db = (db.devices e, rows_of e db.installs)

devices-written :
    (d image : ℕ) (id : Option ℕ) (w : Write) (db : Tables)
    → (written d image id w db).devices ≡ db.devices
devices-written d image id (post b) db = elim (Bool-cases (is_accepted d image b db)) [
  | inl y ↦ rw y refl
  | inr y ↦ rw y refl
]
devices-written d image none (patch b) db = refl
devices-written d image none nothing db = refl
devices-written d image (some id) (patch b) db = refl
devices-written d image (some id) nothing db = refl

devices-stored_report :
    (id : Option ℕ) (r : Option Report) (db : Tables) → (stored_report id r db).devices ≡ db.devices
devices-stored_report none r db = refl
devices-stored_report (some id) r db = refl

devices-upsert_all :
    (s : Settings) (now d : ℕ) (rows : List Install) (is : List ImgInstall) (db : Tables)
    → (upsert_all s now d rows is db).devices ≡ db.devices
unfolding upsert_all upsert
devices-upsert_all s now d rows [] db = refl
devices-upsert_all s now d rows (i ∷ is) db =
    let id = existing d i.image rows in
    let w = decided s now i id db in
    devices-upsert_all s now d rows is (upsert s now d i id db)
    ∙ devices-written d i.image id w.0 (stored_report id w.1 db)
    ∙ devices-stored_report id w.1 db

apply-others :
    (s : Settings) (now e : ℕ) (u : Update) (db : Tables)
    → IsKeyed db.installs
    → e ≢ device_of u
    → view e (apply s now u db) ≡ view e db
unfolding apply patch_device save_installs delete_old_image_installs
apply-others s now e (patch_of d filter body) db k n =
    elim (Bool-cases (matches filter (db.devices d))) [
      | inl h ↦ rw h refl
      | inr h ↦ let away : (e == d) ≡ false = grind (arith, n) in rw (h, away) refl
    ]
apply-others s now e (installs_of d is) db k n = λ i.
    (devices-upsert_all s now d db.installs is db i e, save_installs-others s now d e is db n k i)

-- A transaction changes neither the columns nor the image installs of a device that none of its
-- updates is for, in tables where ids are unique.
pub apply_all-others :
    (s : Settings) (now e : ℕ) (us : List Update) (db : Tables)
    → IsValid db
    → All (λ u. e ≢ device_of u) us
    → view e (apply_all s now us db) ≡ view e db
unfolding apply_all
apply_all-others s now e [] db v h = refl
apply_all-others s now e (u ∷ us) db v (n, h) =
    apply_all-others s now e us (apply s now u db) (apply-IsValid s now u db v) h
    ∙ apply-others s now e u db v.0 n
