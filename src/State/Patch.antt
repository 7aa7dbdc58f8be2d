-- ===== src/State/Patch.antt =====
-- src/features/device-state/state-patch-utils.ts and what routes/state-patch-v2.ts and
-- routes/state-patch-v3.ts share: the fields of a report that are written to the device. Numbers
-- are whole, texts are lists of code units, and the order of an object's keys plays no part.

pub mod Installs
pub mod Transaction
pub mod V2
pub mod V3
mod Examples
use open_balena_api.Base.{
  ℕ, ltb, leb, ◌==◌, str_eq, String, Bool, true, false, not, ◌&&◌, ◌||◌, Option, none, some, List,
  [], ◌∷◌, if◌then◌else◌,
}
use open_balena_api.Base.Parse.{Signed}
use open_balena_api.State.Reports.{should_update_metrics}
use open_balena_api.State.Truncate.{Text, truncate_constrained_fields, device_fields}

-- The update statuses of a release.
pub data UpdateStatus : Type 0 where
  rejected aborted downloading downloaded applying_changes done : UpdateStatus

-- `updateStatusPrecedence`
unfoldable pub precedence : UpdateStatus → ℕ
precedence rejected = 0
precedence aborted = 1
precedence downloading = 2
precedence downloaded = 3
precedence applying_changes = 4
precedence done = 5

pub data Value : Type 0 where
  null : Value
  bool : Bool → Value
  number : Signed → Value
  text : Text → Value
  update_status : UpdateStatus → Value

abbrev pub Object : Type 0
Object = List (String × Value)

abbrev xor : Bool → Bool → Bool
xor a b = if a then not b else b

abbrev pub same_units : Text → Text → Bool
same_units [] [] = true
same_units (c ∷ t) (d ∷ u) = c == d && same_units t u
same_units t u = false

abbrev same_number : Signed → Signed → Bool
same_number a b = not (xor a.negative b.negative) && a.magnitude == b.magnitude

-- Equality of columns, where NULL is NULL.
unfoldable pub same_value : Value → Value → Bool
unfolding precedence
same_value null null = true
same_value (bool a) (bool b) = not (xor a b)
same_value (number a) (number b) = same_number a b
same_value (text t) (text u) = same_units t u
same_value (update_status a) (update_status b) = precedence a == precedence b
same_value v w = false

-- `o[k]`, none for undefined
unfoldable pub get : String → Object → Option Value
get k [] = none
get k ((j, v) ∷ o) = if str_eq j k then some v else get k o

-- `delete o[k]`
unfoldable pub remove : String → Object → Object
remove k [] = []
remove k ((j, v) ∷ o) = if str_eq j k then remove k o else (j, v) ∷ remove k o

-- `o[k] = v`
unfoldable pub set : String → Value → Object → Object
unfolding remove
set k v o = (k, v) ∷ remove k o

-- `{ ...o, ...p }`
unfoldable pub merge : Object → Object → Object
unfolding set
merge o [] = o
merge o ((k, v) ∷ p) = set k v (merge o p)

abbrev pub picked : String → Option Value → Object → Object
picked k none o = o
picked k (some v) o = (k, v) ∷ o

-- `_.pick(o, keys)`
unfoldable pub pick : List String → Object → Object
unfolding get
pick [] o = []
pick (k ∷ ks) o = picked k (get k o) (pick ks o)

abbrev pub is_empty : Object → Bool
is_empty [] = true
is_empty (e ∷ o) = false

-- The fields of version 3, without the update status, which no report has as a field of its own.
abbrev pub v3_valid_patch_fields : List String
v3_valid_patch_fields =
    "status" ∷ "is_online" ∷ "os_version" ∷ "os_variant" ∷ "supervisor_version"
    ∷ "provisioning_progress" ∷ "provisioning_state" ∷ "ip_address" ∷ "mac_address" ∷ "api_port"
    ∷ "api_secret" ∷ "cpu_id" ∷ "is_undervolted" ∷ "update_status" ∷ []

abbrev pub metrics_patch_numbers : List String
metrics_patch_numbers =
    "memory_usage" ∷ "memory_total" ∷ "storage_usage" ∷ "storage_total" ∷ "cpu_temp" ∷ "cpu_usage"
    ∷ []

abbrev pub metrics_patch_fields : List String
metrics_patch_fields =
    "memory_usage" ∷ "memory_total" ∷ "storage_usage" ∷ "storage_total" ∷ "cpu_temp" ∷ "cpu_usage"
    ∷ "storage_block_device" ∷ []

-- Whether a number is above a bound.
abbrev pub exceeds : ℕ → Signed → Bool
exceeds most n = not n.negative && ltb most n.magnitude

-- One key of `limitMetricNumbers`, with its value.
abbrev pub limit_field : ℕ → String → Option Value → Object → Object
limit_field most k (some (number n)) o =
    if exceeds most n then set k (number (record { negative = false; magnitude = most })) o else o
limit_field most k v o = o

unfoldable pub limit_metric_numbers : ℕ → List String → Object → Object
unfolding set get
limit_metric_numbers most [] o = o
limit_metric_numbers most (k ∷ ks) o = limit_metric_numbers most ks (limit_field most k (get k o) o)

-- The UTF-16 code units of the two variants.
abbrev dev : Text
dev = b'd' ∷ b'e' ∷ b'v' ∷ []

abbrev prod : Text
prod = b'p' ∷ b'r' ∷ b'o' ∷ b'd' ∷ []

abbrev pub is_variant : Value → Bool
is_variant null = true
is_variant (text t) = same_units t dev || same_units t prod
is_variant v = false

abbrev pub normalized : Option Value → Object → Object
normalized none o = o
normalized (some v) o = if is_variant v then o else remove "os_variant" o

-- `normalizeDeviceWriteBody`
unfoldable pub normalize_device_write_body : Object → Object
unfolding get remove
normalize_device_write_body o = normalized (get "os_variant" o) o

-- Whether `/[^\x20-\x7E]/` finds nothing.
abbrev pub is_printable : Text → Bool
is_printable [] = true
is_printable (c ∷ t) = leb 0x20 c && leb c 0x7e && is_printable t

-- The columns of the device, and the metrics that are written only with these.
pub record Bodies : Type 0 where
  pub device_body : Object
  pub metrics_body : Object

-- The metrics are moved to the columns if they are due.
abbrev pub split_metrics : Bool → Object → Object → Bodies
split_metrics due body metrics =
    if due
    then record { device_body = merge body metrics; metrics_body = [] }
    else record { device_body = body; metrics_body = metrics }

-- What the routes are configured with: the intervals of reports, the bound on a metric, and the
-- `toLowerCase` of texts.
pub record Settings : Type 0 where
  pub metrics_interval : ℕ
  pub install_interval : ℕ
  pub metrics_max : ℕ
  pub to_lower_case : Text → Text
  -- the status of the error where the database refuses a row
  pub refusal : ℕ

abbrev pub fixed_cpu : Settings → Option Value → Object → Object
fixed_cpu s (some (text t)) o =
    if is_printable t then set "cpu_id" (text (s.to_lower_case t)) o else remove "cpu_id" o
fixed_cpu s v o = o

unfoldable pub fix_cpu_id : Settings → Object → Object
unfolding get set remove
fix_cpu_id s o = fixed_cpu s (get "cpu_id" o) o

abbrev pub fix_bodies : Settings → Bodies → Bodies
fix_bodies s b = record b { device_body = fix_cpu_id s b.device_body }

-- The metrics of a report, and whether they are due; the time of the last report is stored anew
-- only where there are any.
abbrev pub metrics_of : Settings → Object → Object
metrics_of s fields =
    limit_metric_numbers s.metrics_max metrics_patch_numbers (pick metrics_patch_fields fields)

abbrev pub metrics_due : Settings → Object → Option ℕ → ℕ → Bool × Option ℕ
metrics_due s metrics last now =
    if is_empty metrics then (false, last) else should_update_metrics s.metrics_interval last now

-- The bodies of a report before its CPU id is looked at, and the time of the last report of
-- metrics afterwards.
unfoldable pub bodies_of : Settings → List String → Option ℕ → ℕ → Object → Bodies × Option ℕ
unfolding limit_metric_numbers normalize_device_write_body pick merge
bodies_of s valid last now fields =
    let metrics = metrics_of s fields in
    let due = metrics_due s metrics last now in
    (split_metrics due.0 (normalize_device_write_body (pick valid fields)) metrics, due.1)

unfoldable pub prepare : Settings → List String → Option ℕ → ℕ → Object → Bodies × Option ℕ
unfolding bodies_of fix_cpu_id
prepare s valid last now fields =
    let b = bodies_of s valid last now fields in (fix_bodies s b.0, b.1)

abbrev pub text_of : Option Value → Option Text
text_of (some (text t)) = some t
text_of v = none

abbrev pub with_text : Value → Option Text → Value
with_text (text t) (some u) = text u
with_text v t = v

abbrev truncate_entries : (String → Option Text) → Object → Object
truncate_entries f [] = []
truncate_entries f ((k, v) ∷ o) = (k, with_text v (f k)) ∷ truncate_entries f o

-- `truncateConstrainedDeviceFields`
unfoldable pub truncate_constrained_device_fields : Object → Object
unfolding get
truncate_constrained_device_fields o =
    truncate_entries (truncate_constrained_fields device_fields (λ k. text_of (get k o))) o
