-- ===== src/State/Patch/Installs.antt =====
-- `upsertImageInstall` and `deleteOldImageInstalls` of src/features/device-state/state-patch-utils.ts,
-- with the functions of the routes that call them: what a report does to the table of image
-- installs. The requests of one report run in the order of its images.
pub mod Rows
pub mod Laws
pub mod Keys
pub mod Stale
use open_balena_api.Base.{
  ℕ, suc, ◌==◌, String, Bool, true, false, not, ◌&&◌, Option, none, some, List, [], ◌∷◌, ◌++◌, map,
  member, is_some, if◌then◌else◌,
}
use open_balena_api.State.Reports.{
  Progress, undefined, null, percent, Body, Report, Write, post, patch, nothing,
  upsert_image_install,
}
use open_balena_api.State.Patch.{Object, Value, get, merge, Settings, same_value}

-- An image that a report names, with the release that it is from.
pub record ImgInstall : Type 0 where
  pub image : ℕ
  pub release : ℕ
  pub status : Option String
  pub download_progress : Progress

-- A row of `image_install`; its status and progress may be NULL.
pub record Install : Type 0 where
  pub id : ℕ
  pub device : ℕ
  pub installs_image : ℕ
  pub release : ℕ
  pub status : Option String
  pub download_progress : Option ℕ

-- The tables, the next id of an image install, the store of last reports, which is no table, and
-- whether a row was refused, after which the transaction is rolled back.
pub record Tables : Type 0 where
  pub devices : ℕ → Object
  pub installs : List Install
  pub next_id : ℕ
  pub last_reports : ℕ → Option Report
  pub refused : Bool

-- A column after it is written; what is undefined is not written.
abbrev pub progress_after : Option ℕ → Progress → Option ℕ
progress_after p undefined = p
progress_after p null = none
progress_after p (percent n) = some n

abbrev pub status_after : Option String → Option String → Option String
status_after s none = s
status_after s (some t) = some t

abbrev pub created : ℕ → ℕ → ℕ → Body → Install
created id d image b = record {
  id = id;
  device = d;
  installs_image = image;
  release = b.release;
  status = b.status;
  download_progress = progress_after none b.progress;
}

-- The filter of the request spares a row that has the values already.
abbrev pub patched : ℕ → Body → Install → Install
patched id b r =
    if r.id == id
    then record r {
      release = b.release;
      status = status_after r.status b.status;
      download_progress = progress_after r.download_progress b.progress;
    }
    else r

-- The row of an image of a device: of several, `_.keyBy` has the last.
abbrev pub or_id : Option ℕ → ℕ → Option ℕ
or_id (some n) m = some n
or_id none m = some m

abbrev pub is_of : ℕ → ℕ → Install → Bool
is_of d image r = r.device == d && r.installs_image == image

unfoldable pub existing : ℕ → ℕ → List Install → Option ℕ
existing d image [] = none
existing d image (r ∷ rs) =
    let later = existing d image rs in if is_of d image r then or_id later r.id else later

abbrev pub report_of : Option ℕ → Tables → Option Report
report_of none db = none
report_of (some id) db = db.last_reports id

abbrev pub stored_report : Option ℕ → Option Report → Tables → Tables
stored_report none r db = db
stored_report (some id) r db = record db {
  last_reports = λ k. if k == id then r else db.last_reports k;
}

-- An image install has a status, and there is one at most of an image of a device
-- (src/balena.sbvr).
abbrev pub is_accepted : ℕ → ℕ → Body → Tables → Bool
is_accepted d image b db = is_some b.status && not (is_some (existing d image db.installs))

abbrev pub added : ℕ → ℕ → Body → Tables → Tables
added d image b db = record db {
  installs = db.installs ++ created db.next_id d image b ∷ [];
  next_id = suc db.next_id;
}

abbrev pub posted_row : Bool → ℕ → ℕ → Body → Tables → Tables
posted_row true d image b db = added d image b db
posted_row false d image b db = record db { refused = true }

abbrev pub written : ℕ → ℕ → Option ℕ → Write → Tables → Tables
written d image id (post b) db = posted_row (is_accepted d image b db) d image b db
written d image none w db = db
written d image (some id) (patch b) db = record db { installs = map (patched id b) db.installs }
written d image (some id) nothing db = db

-- The request and the report that is then stored.
abbrev pub decided : Settings → ℕ → ImgInstall → Option ℕ → Tables → Write × Option Report
decided s now i id db =
    upsert_image_install s.install_interval (is_some id) (report_of id db) i.status i.release
      i.download_progress now

unfoldable pub upsert : Settings → ℕ → ℕ → ImgInstall → Option ℕ → Tables → Tables
upsert s now d i id db =
    let w = decided s now i id db in written d i.image id w.0 (stored_report id w.1 db)

-- The rows are read once, before any is written.
unfoldable pub upsert_all : Settings → ℕ → ℕ → List Install → List ImgInstall → Tables → Tables
upsert_all s now d rows [] db = db
upsert_all s now d rows (i ∷ is) db =
    upsert_all s now d rows is (upsert s now d i (existing d i.image rows) db)

abbrev pub marked : ℕ → List ℕ → Install → Install
marked d ids r =
    if r.device == d && not (member r.installs_image ids)
    then record r { status = some "deleted"; download_progress = none }
    else r

-- `deleteOldImageInstalls`
unfoldable pub delete_old_image_installs : ℕ → List ℕ → Tables → Tables
delete_old_image_installs d ids db = record db { installs = map (marked d ids) db.installs }

abbrev pub images_of : List ImgInstall → List ℕ
images_of is = map (λ i. i.image) is

-- The update of the image installs of a device.
unfoldable pub save_installs : Settings → ℕ → ℕ → List ImgInstall → Tables → Tables
save_installs s now d is db =
    delete_old_image_installs d (images_of is) (upsert_all s now d db.installs is db)

-- `{ $not: filter }` spares a row that has all of these values.
abbrev pub same_field : Value → Option Value → Bool
unfolding same_value
same_field v none = same_value v Value.null
same_field v (some w) = same_value v w

unfoldable pub matches : Object → Object → Bool
unfolding get same_value
matches [] row = true
matches ((k, v) ∷ f) row = same_field v (get k row) && matches f row

-- The patch of a device by the filter and the body.
unfoldable pub patch_device : ℕ → Object → Object → Tables → Tables
patch_device d filter body db =
    if matches filter (db.devices d)
    then db
    else record db { devices = λ k. if k == d then merge (db.devices d) body else db.devices k }

-- One function of the routes' `updateFns`.
pub data Update : Type 0 where
  patch_of : ℕ → Object → Object → Update
  installs_of : ℕ → List ImgInstall → Update

unfoldable pub apply : Settings → ℕ → Update → Tables → Tables
apply s now (patch_of d filter body) db = patch_device d filter body db
apply s now (installs_of d is) db = save_installs s now d is db

-- The transaction: the updates of different devices do not meet, and of one device they write
-- different tables, so their order plays no part.
unfoldable pub apply_all : Settings → ℕ → List Update → Tables → Tables
apply_all s now [] db = db
apply_all s now (u ∷ us) db = apply_all s now us (apply s now u db)
