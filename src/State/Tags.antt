-- ===== src/State/Tags.antt =====
-- src/features/device-state/routes/tags-patch-v3.ts: the tags that devices report. The rows that the
-- request may read are the tags and the devices given; whether the client takes a filter by an
-- undefined list of keys is a parameter.
pub mod Laws
pub mod Requests
mod Examples
use open_balena_api.Base.{
  ℕ, ◌==◌, str_eq, String, Bool, true, false, not, ◌&&◌, ◌||◌, Option, none, some, List, [], ◌∷◌,
  ◌++◌, map, member, includes, length, keep, last, if◌then◌else◌, Result, ok, err, Error,
  bad_request, unauthorized, other,
}
use open_balena_api.Names.{check_tag_key_validity}
use open_balena_api.State.Patch.Transaction.{and_then, status_of}

-- A row of `device_tag`, whose device and key identify it.
pub record Tag : Type 0 where
  pub device : ℕ
  pub tag_key : String
  pub value : String

pub record Device : Type 0 where
  pub id : ℕ
  pub uuid : String

-- The tags of a device, by their keys, and the body: those of each device, by its uuid.
abbrev pub Tags : Type 0
Tags = List (String × String)

abbrev pub Body : Type 0
Body = List (String × Tags)

abbrev pub is_of : ℕ → String → Tag → Bool
is_of d k t = t.device == d && str_eq t.tag_key k

-- The value of a tag, if there is one.
unfoldable pub value_of : ℕ → String → List Tag → Option String
value_of d k [] = none
value_of d k (t ∷ ts) = if is_of d k t then some t.value else value_of d k ts

-- The keys under which every object has something, from `Object.prototype`.
unfoldable pub inherited_names : List String
inherited_names =
    "constructor" ∷ "hasOwnProperty" ∷ "isPrototypeOf" ∷ "propertyIsEnumerable" ∷ "toLocaleString"
    ∷ "toString" ∷ "valueOf" ∷ "__defineGetter__" ∷ "__defineSetter__" ∷ "__lookupGetter__"
    ∷ "__lookupSetter__" ∷ "__proto__" ∷ []

-- What is found under a key: the value of a tag, or what the object inherits, which is no text.
pub data Existing : Type 0 where
  own : String → Existing
  inherited : Existing

abbrev pub existing_of : Option String → Bool → Option Existing
existing_of (some v) b = some (own v)
existing_of none true = some inherited
existing_of none false = none

-- `existingTags[tagKey]`; keys that were not asked for are not looked up.
abbrev pub existing_tags : ℕ → List Tag → String → Option Existing
existing_tags d rows k = existing_of (value_of d k rows) (includes inherited_names k)

-- Whether a tag is updated, and whether it is new.
abbrev pub is_updated : Option Existing → String → Bool
is_updated none v = false
is_updated (some (own w)) v = not (str_eq w v)
is_updated (some inherited) v = true

abbrev pub is_new : Option Existing → Bool
is_new none = true
is_new (some w) = false

pub data Write : Type 0 where
  patch post : ℕ → String → String → Write

unfoldable pub updated_writes : ℕ → (String → Option Existing) → Tags → List Write
updated_writes d e [] = []
updated_writes d e ((k, v) ∷ ts) =
    if is_updated (e k) v then patch d k v ∷ updated_writes d e ts else updated_writes d e ts

unfoldable pub new_writes : ℕ → (String → Option Existing) → Tags → List Write
new_writes d e [] = []
new_writes d e ((k, v) ∷ ts) =
    if is_new (e k) then post d k v ∷ new_writes d e ts else new_writes d e ts

-- The writes of one device, against the tags that it has.
unfoldable pub device_writes : ℕ → List Tag → Tags → List Write
unfolding updated_writes new_writes
device_writes d rows tags =
    updated_writes d (existing_tags d rows) tags ++ new_writes d (existing_tags d rows) tags

abbrev pub patched : ℕ → String → String → Tag → Tag
patched d k v t = if is_of d k t then record t { value = v } else t

abbrev pub write : Write → List Tag → List Tag
write (patch d k v) rows = map (patched d k v) rows
write (post d k v) rows = rows ++ record { device = d; tag_key = k; value = v } ∷ []

-- The transaction.
unfoldable pub write_all : List Write → List Tag → List Tag
write_all [] rows = rows
write_all (w ∷ ws) rows = write_all ws (write w rows)

abbrev is_nil : Tags → Bool
is_nil [] = true
is_nil (t ∷ ts) = false

-- `tagsByDevice[uuid]`
abbrev pub device_of : String → List Device → Option Device
device_of uuid ds = last (keep (λ d. str_eq d.uuid uuid) ds)

abbrev type_error : Error
type_error = other 1

abbrev pub found_writes : Option Device → List Tag → Tags → Result (List Write)
found_writes none rows tags = err type_error
found_writes (some d) rows tags = ok (device_writes d.id rows tags)

-- The loop over the devices of the body: one without tags is passed over.
unfoldable pub all_writes : List Device → List Tag → Body → Result (List Write)
all_writes ds rows [] = ok []
all_writes ds rows ((uuid, []) ∷ b) = all_writes ds rows b
all_writes ds rows ((uuid, t ∷ ts) ∷ b) =
    and_then (found_writes (device_of uuid ds) rows (t ∷ ts))
      (λ us. and_then (all_writes ds rows b) (λ ws. ok (us ++ ws)))

abbrev pub has_tags : Body → String → Bool
has_tags [] uuid = false
has_tags ((u, ts) ∷ b) uuid = (str_eq u uuid && not (is_nil ts)) || has_tags b uuid

abbrev pub any_tags : Body → Bool
any_tags [] = false
any_tags ((u, ts) ∷ b) = not (is_nil ts) || any_tags b

-- The requests for the tags of the devices: one whose device has no tags in the body is asked for
-- by an undefined list.
abbrev pub asked : Result (Unit {0}) → Body → List Device → Result (Unit {0})
asked undefined_in b [] = ok tt
asked undefined_in b (d ∷ ds) =
    and_then (if has_tags b d.uuid then ok tt else undefined_in) (λ _. asked undefined_in b ds)

-- `fetchData`
unfoldable pub fetch_data : Result (Unit {0}) → List Device → List ℕ → Body → Result (List Device)
fetch_data undefined_in devices ids b =
    let ds = keep (λ d. member d.id ids) devices in
    if not (length ds == length ids)
    then err unauthorized
    else and_then (asked undefined_in b ds) (λ _. ok ds)

abbrev valid_keys : Tags → Result (Unit {0})
valid_keys [] = ok tt
valid_keys ((k, v) ∷ ts) = and_then (check_tag_key_validity k) (λ _. valid_keys ts)

-- `bodySchema`
unfoldable pub check_body : Body → Result (Unit {0})
check_body [] = ok tt
check_body ((u, ts) ∷ b) = and_then (valid_keys ts) (λ _. check_body b)

-- The writes of a request, for the ids that the middleware found.
unfoldable pub writes_of :
    Result (Unit {0}) → List Device → List ℕ → List Tag → Body → Result (List Write)
writes_of undefined_in devices ids rows b = and_then (check_body b) (λ _.
    if any_tags b
    then and_then (fetch_data undefined_in devices ids b) (λ ds. all_writes ds rows b)
    else err bad_request)

abbrev pub respond : List Tag → Result (List Write) → ℕ × List Tag
respond rows (ok ws) = (200, write_all ws rows)
respond rows (err e) = (status_of e, rows)

-- `tagsPatchV3`
unfoldable pub tags_patch_v3 :
    Result (Unit {0}) → List Device → List ℕ → Body → List Tag → ℕ × List Tag
tags_patch_v3 undefined_in devices ids b rows =
    respond rows (writes_of undefined_in devices ids rows b)
