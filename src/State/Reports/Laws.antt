-- ===== src/State/Reports/Laws.antt =====
-- How often reports reach the database, src/features/device-state/state-patch-utils.ts.
use open_balena_api.Base.{
  ℕ, ◌+◌, ◌≤◌, ◌≡◌, refl, ◌≢◌, eq_iff, String, Bool, true, false, not, ◌&&◌, Bool-cases, inl, inr,
  Option, none, some, List, [], ◌∷◌, All, includes, if◌then◌else◌, arith, ap,
}
use open_balena_api.State.Reports.{
  should_update_metrics, Progress, undefined, null, percent, same_progress, is_given, same_text,
  Body, Report, kept_progress, stored, is_due, should_update_image_install, normalize_status,
  known_statuses, Write, post, patch, nothing, upsert_image_install,
}

-- How many of the reports at these times are passed on, from this state of the store.
abbrev pub passed : ℕ → Option ℕ → List ℕ → ℕ
passed interval last [] = 0
passed interval last (now ∷ ts) =
    let (due, last') = should_update_metrics interval last now in
    (if due then 1 else 0) + passed interval last' ts

-- Reports of metrics within the interval of the last one that was passed on are all held back.
pub metrics_held :
    (interval last : ℕ) (ts : List ℕ)
    → All (λ t. t ≤ last + interval) ts
    → passed interval (some last) ts ≡ 0
unfolding should_update_metrics
metrics_held interval last [] h = refl
metrics_held interval last (t ∷ ts) (p, h) = ground (arith, metrics_held interval last ts h)

same_text_refl : (t : Option String) → same_text t t ≡ true
same_text_refl none = refl
same_text_refl (some s) = (eq_iff s s).1 refl

same_progress_refl : (p : Progress) → same_progress p p ≡ true
same_progress_refl undefined = refl
same_progress_refl null = refl
same_progress_refl (percent n) = ground arith

same_progress-unlike : (p : Progress) (n : ℕ) → p ≢ percent n → same_progress p (percent n) ≡ false
same_progress-unlike undefined n h = refl
same_progress-unlike null n h = refl
same_progress-unlike (percent k) n h = grind (arith, λ (e : k ≡ n). h (ap percent e))

kept_progress-given :
    (last : Option Report) (p : Progress) → p ≢ undefined → kept_progress last p ≡ p
kept_progress-given none undefined h = refl
kept_progress-given none null h = refl
kept_progress-given none (percent n) h = refl
kept_progress-given (some r) undefined h = elim (h refl) [ ]
kept_progress-given (some r) null h = refl
kept_progress-given (some r) (percent n) h = refl

is_given-and_not : (p : Progress) → (is_given p && not (is_given p)) ≡ false
is_given-and_not undefined = refl
is_given-and_not null = refl
is_given-and_not (percent n) = refl

not_and-is_given : (p : Progress) → (not (is_given p) && is_given p) ≡ false
not_and-is_given undefined = refl
not_and-is_given null = refl
not_and-is_given (percent n) = refl

is_due-stored :
    (interval : ℕ) (last : Option Report) (b : Body) (now later : ℕ)
    → b.progress ≢ undefined
    → b.progress ≢ percent 100
    → is_due interval (some (stored last b now)) b later ≡ false
unfolding is_due
is_due-stored interval last b now later u c =
    let e = kept_progress-given last b.progress u in
    let d = same_progress-unlike b.progress 100 c in
    let g = is_given-and_not b.progress in
    let n = not_and-is_given b.progress in
    rw (e, d, g, n, same_progress_refl, same_text_refl) (ground arith)

-- A report of an image install with the body of the one that was stored last is held back, however
-- much later it comes, if it comes with a progress, or null, other than 100.
pub repeat_held :
    (interval : ℕ) (last : Option Report) (b : Body) (now later : ℕ)
    → b.progress ≢ undefined
    → b.progress ≢ percent 100
    → should_update_image_install interval (some (stored last b now)) b later
      ≡ (false, some (stored last b now))
unfolding should_update_image_install
repeat_held interval last b now later u c = rw (is_due-stored interval last b now later u c) refl

kept_progress-undefined :
    (last : Report) (p : Progress) → p ≡ undefined → kept_progress (some last) p ≡ last.progress
kept_progress-undefined last undefined h = refl
kept_progress-undefined last null h = cc
kept_progress-undefined last (percent n) h = cc

is_due-omitted :
    (interval : ℕ) (last : Report) (b : Body) (now : ℕ)
    → is_given last.progress ≡ true
    → b.progress ≡ undefined
    → is_due interval (some last) b now ≡ true
unfolding is_due
is_due-omitted interval last b now g u = rw (u, g) (ground arith)

-- The reports of an image install at these times, all with the same body.
abbrev pub answers : ℕ → Option Report → Body → List ℕ → List Bool
answers interval last b [] = []
answers interval last b (now ∷ ts) =
    let (due, last') = should_update_image_install interval last b now in
    due ∷ answers interval last' b ts

-- Where the stored report of an image install has a percentage, reports with one body that comes
-- without a progress are all passed on, however close they are.
pub omitted_passed :
    (interval : ℕ) (last : Report) (b : Body) (ts : List ℕ)
    → is_given last.progress ≡ true
    → b.progress ≡ undefined
    → All (λ a. a ≡ true) (answers interval (some last) b ts)
unfolding should_update_image_install
omitted_passed interval last b [] g u = tt
omitted_passed interval last b (t ∷ ts) g u =
    let e = is_due-omitted interval last b t g u in
    let k = kept_progress-undefined last b.progress u in
    rw e (refl, omitted_passed interval (stored (some last) b t) b ts (rw k g) u)

includes_if :
    (l : List String) (s t : String)
    → (if includes l s then some s else none) ≡ some t
    → includes l t ≡ true
includes_if l s t h = elim (Bool-cases (includes l s)) [
  | inl e ↦ cc (e, rw e at h)
  | inr e ↦ cc (rw e at h)
]

normalize_status-known :
    (status : Option String) (t : String)
    → normalize_status status ≡ some t
    → includes known_statuses t ≡ true
unfolding normalize_status
normalize_status-known none t h = cc
normalize_status-known (some s) t h = includes_if known_statuses s t h

abbrev updated : Option String → ℕ → Progress → Body
updated status release progress = record {
  status = normalize_status status;
  release = release;
  progress = progress;
}

abbrev pub status_of : Write → Option String
status_of (post b) = b.status
status_of (patch b) = b.status
status_of nothing = none

-- Where the creation or the update of an image install sets a status, it is one of the known ones.
pub upsert-known :
    (interval : ℕ) (exists : Bool) (last : Option Report) (status : Option String) (release : ℕ)
    (progress : Progress) (now : ℕ)
    → (t : String)
    → status_of (upsert_image_install interval exists last status release progress now).0 ≡ some t
    → includes known_statuses t ≡ true
unfolding upsert_image_install should_update_image_install
upsert-known interval false last status release progress now t h = normalize_status-known status t h
upsert-known interval true last status release progress now t h =
    elim (Bool-cases (is_due interval last (updated status release progress) now)) [
      | inl e ↦ normalize_status-known status t (rw (should_update_image_install, e) at h)
      | inr e ↦ cc (rw (should_update_image_install, e) at h)
    ]
