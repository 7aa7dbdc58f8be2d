-- ===== src/State/Reports.antt =====
-- src/features/device-state/state-patch-utils.ts: which reports of devices reach the database. What
-- the stores of last reports hold is an argument; an entry of theirs may have expired.
pub mod Laws
mod Examples
use open_balena_api.Base.{
  ℕ, ◌+◌, ◌*◌, ltb, ◌==◌, str_eq, String, Bool, true, false, not, ◌&&◌, ◌||◌, Option, none, some,
  List, [], ◌∷◌, includes, if◌then◌else◌,
}

-- `shouldUpdateMetrics`: the time of the last report, the answer and the time that is then stored.
unfoldable pub should_update_metrics : ℕ → Option ℕ → ℕ → Bool × Option ℕ
should_update_metrics interval none now = (true, some now)
should_update_metrics interval (some last) now =
    if ltb (last + interval) now then (true, some now) else (false, some last)

-- The download progress of a report: it is missing, null, or a percentage.
pub data Progress : Type 0 where
  undefined null : Progress
  percent : ℕ → Progress

abbrev pub same_progress : Progress → Progress → Bool
same_progress undefined undefined = true
same_progress null null = true
same_progress (percent a) (percent b) = a == b
same_progress _ _ = false

-- `p != null`
abbrev pub is_given : Progress → Bool
is_given (percent a) = true
is_given _ = false

abbrev pub same_text : Option String → Option String → Bool
same_text none none = true
same_text (some a) (some b) = str_eq a b
same_text _ _ = false

-- `ImageInstallUpdateBody`
pub record Body : Type 0 where
  pub status : Option String
  pub release : ℕ
  pub progress : Progress

pub record Report : Type 0 where
  pub body : Body
  pub open body use *
  pub update_time : ℕ

-- The last report has the progress of the one before, if it came with none.
abbrev pub kept_progress : Option Report → Progress → Progress
kept_progress none undefined = undefined
kept_progress (some last) undefined = last.progress
kept_progress _ p = p

abbrev pub stored : Option Report → Body → ℕ → Report
stored last b now = record {
  body = record b { progress = kept_progress last b.progress };
  update_time = now;
}

-- The conditions of `shouldUpdateImageInstall`, in their order.
pub is_due : ℕ → Option Report → Body → ℕ → Bool
is_due interval none b now = true
is_due interval (some last) b now =
    (not (same_progress last.progress b.progress) && ltb (last.update_time + interval) now)
    || not (same_text last.status b.status)
    || not (last.release == b.release)
    || (not (is_given last.progress) && is_given b.progress)
    || (is_given last.progress && not (is_given b.progress))
    || same_progress b.progress (percent 100)

-- The answer, and the last report after it.
unfoldable pub should_update_image_install : ℕ → Option Report → Body → ℕ → Bool × Option Report
unfolding is_due
should_update_image_install interval last b now =
    if is_due interval last b now then (true, some (stored last b now)) else (false, last)

abbrev pub known_statuses : List String
known_statuses =
    "Downloading" ∷ "Downloaded" ∷ "Installing" ∷ "Installed" ∷ "Starting" ∷ "Running" ∷ "Idle"
    ∷ "Handing over" ∷ "Awaiting handover" ∷ "Stopping" ∷ "Stopped" ∷ "exited" ∷ "Deleting"
    ∷ "deleted" ∷ "Dead" ∷ "paused" ∷ "restarting" ∷ "removing" ∷ "configuring" ∷ "Unknown" ∷ []

unfoldable pub normalize_status : Option String → Option String
normalize_status none = none
normalize_status (some s) = if includes known_statuses s then some s else none

-- What `upsertImageInstall` asks of the database.
pub data Write : Type 0 where
  post patch : Body → Write
  nothing : Write

-- The second component is the last report of the image install afterwards.
unfoldable pub upsert_image_install :
    ℕ → Bool → Option Report → Option String → ℕ → Progress → ℕ → Write × Option Report
upsert_image_install interval exists last status release progress now =
    let b : Body = record {
      status = normalize_status status;
      release = release;
      progress = progress;
    } in
    if not exists
    then (post b, last)
    else (let (due, last') = should_update_image_install interval last b now in
        (if due then patch b else nothing, last'))
