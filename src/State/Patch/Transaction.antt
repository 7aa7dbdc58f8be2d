-- ===== src/State/Patch/Transaction.antt =====
-- What the handlers of src/features/device-state/routes/state-patch-v2.ts and state-patch-v3.ts end
-- with: their updates in one transaction, or the status of an error. The store of the last reports
-- of metrics is written before.
use open_balena_api.Base.{
  ℕ, ◌≡◌, ◌≢◌, refl, str_eq, String, Bool, true, false, Option, List, [], ◌∷◌, if◌then◌else◌, All,
  Result, ok, err, Error, Eff, continue, bad_request, unauthorized,
}
use open_balena_api.State.Patch.{
  Settings, Object, is_empty, merge, truncate_constrained_device_fields,
}
use open_balena_api.State.Patch.Installs.{Tables, Update, patch_of, apply_all}
use open_balena_api.State.Patch.Installs.Keys.{
  IsValid, view, device_of, apply_all-IsValid, apply_all-others,
}

abbrev pub and_then : {A B : Type 0} → Result A → (A → Result B) → Result B
and_then (ok a) f = f a
and_then (err e) f = err e

-- What holds of a result that is no error.
abbrev pub OnOk : {A : Type 0} → (A → Type 0) → Result A → Type 0
OnOk P (ok a) = P a
OnOk P (err e) = Unit

pub OnOk-and_then :
    {A B : Type 0} (P : A → Type 0) (Q : B → Type 0) (m : Result A) (f : A → Result B)
    → OnOk P m
    → ((a : A) → P a → OnOk Q (f a))
    → OnOk Q (and_then m f)
OnOk-and_then P Q (ok a) f h k = k a h
OnOk-and_then P Q (err e) f h k = tt

pub OnOk-any_of : {A : Type 0} (r : Result A) → OnOk (λ _. Unit {0}) r
OnOk-any_of (ok a) = tt
OnOk-any_of (err e) = tt

pub OnOk-mono :
    {A : Type 0} (P Q : A → Type 0) (r : Result A) → ((a : A) → P a → Q a) → OnOk P r → OnOk Q r
OnOk-mono P Q (ok a) f h = f a h
OnOk-mono P Q (err e) f h = tt

pub OnOk-continue :
    {S A B : Type 0} (P : A → Type 0) (Q : B → Type 0) (m : Result A × S) (f : A → Eff S B)
    → OnOk P m.0
    → ((a : A) (s : S) → P a → OnOk Q (f a s).0)
    → OnOk Q (continue m f).0
OnOk-continue P Q (ok a, s) f h k = k a s h
OnOk-continue P Q (err e, s) f h k = tt

-- The times of the last reports of metrics, by device.
abbrev pub Store : Type 0
Store = String → Option ℕ

abbrev pub stored_at : String → Option ℕ → Store → Store
stored_at uuid t store = λ k. if str_eq k uuid then t else store k

abbrev pub lift : {A : Type 0} → Result A → Eff Store A
lift r store = (r, store)

-- Metrics that are not due are written with the columns, if any column changes.
abbrev pub patch_updates : ℕ → Object → Object → List Update
patch_updates d o metrics =
    if is_empty o
    then []
    else patch_of d (truncate_constrained_device_fields o)
        (merge (truncate_constrained_device_fields o) metrics)
      ∷ []

-- The status of a response to an error.
abbrev pub status_of : Error → ℕ
status_of bad_request = 400
status_of unauthorized = 401
status_of e = 500

pub record World : Type 0 where
  pub store : Store
  pub tables : Tables

-- The response after the updates, which are kept if the database has refused none of their rows.
abbrev pub committed : Settings → Tables → Store → Bool → Tables → ℕ × World
committed s db store false t = (200, record { store = store; tables = t })
committed s db store true t =
    (s.refusal, record { store = store; tables = record db { last_reports = t.last_reports } })

abbrev pub all_applied : Settings → ℕ → Tables → List Update → Tables
all_applied s now db us = apply_all s now us (record db { refused = false })

abbrev pub respond : Settings → ℕ → Tables → Result (List Update) × Store → ℕ × World
respond s now db (ok us, store) =
    committed s db store (all_applied s now db us).refused (all_applied s now db us)
respond s now db (err e, store) = (status_of e, record { store = store; tables = db })

module _ (s : Settings) (now : ℕ) where
  committed-others :
      (e : ℕ) (db : Tables) (store : Store) (b : Bool) (t : Tables)
      → view e t ≡ view e db
      → view e (committed s db store b t).1.tables ≡ view e db
  committed-others e db store false t h = h
  committed-others e db store true t h = refl

  pub respond-others :
      (e : ℕ) (db : Tables) (r : Result (List Update) × Store)
      → IsValid db
      → OnOk (All (λ u. e ≢ device_of u)) r.0
      → view e (respond s now db r).1.tables ≡ view e db
  respond-others e db (ok us, store) v a =
      committed-others e db store (all_applied s now db us).refused (all_applied s now db us)
        (apply_all-others s now e us (record db { refused = false }) v a)
  respond-others e db (err x, store) v a = refl

  -- The rows of two tables are the same.
  abbrev pub SameRows : Tables → Tables → Type 0
  SameRows t db = (t.devices ≡ db.devices) × (t.installs ≡ db.installs)

  committed-refused :
      (db : Tables) (store : Store) (b : Bool) (t : Tables)
      → (committed s db store b t).0 ≢ 200
      → SameRows (committed s db store b t).1.tables db
  committed-refused db store false t h = absurd (h refl)
  committed-refused db store true t h = (refl, refl)

  pub respond-refused :
      (db : Tables) (r : Result (List Update) × Store)
      → (respond s now db r).0 ≢ 200
      → SameRows (respond s now db r).1.tables db
  respond-refused db (ok us, store) h =
      committed-refused db store (all_applied s now db us).refused (all_applied s now db us) h
  respond-refused db (err e, store) h = (refl, refl)

  committed-IsValid :
      (db : Tables) (store : Store) (b : Bool) (t : Tables)
      → IsValid db
      → IsValid t
      → IsValid (committed s db store b t).1.tables
  committed-IsValid db store false t v w = w
  committed-IsValid db store true t v w = v

  pub respond-IsValid :
      (db : Tables) (r : Result (List Update) × Store)
      → IsValid db
      → IsValid (respond s now db r).1.tables
  respond-IsValid db (ok us, store) v =
      committed-IsValid db store (all_applied s now db us).refused (all_applied s now db us) v
        (apply_all-IsValid s now us (record db { refused = false }) v)
  respond-IsValid db (err e, store) v = v
