-- ===== src/Releases/Versioning.antt =====
-- src/features/ci-cd/hooks/release-versioning.ts: the hooks that number the final releases of one
-- version. The rows of the table are a list. A request runs in a transaction, so an error leaves no
-- trace of it; requests on one application wait for each other at its advisory lock.
mod Rows
mod Revisions
pub mod Selection
pub mod Requests
use open_balena_api.Base.{
  ℕ, ◌+◌, max, ◌==◌, str_eq, String, Bool, false, not, ◌&&◌, ◌||◌, Option, none, some, List, [],
  ◌∷◌, map, is_some, if◌then◌else◌,
}
use open_balena_api.Base.Regex.{
  Regex, at_start, at_end, class, group, plus, digit, literal, all_of, exec, group_of, Cursor,
}

-- The parts of a version that count, with the prerelease as it is joined by dots.
pub record Version : Type 0 where
  pub major : ℕ
  pub minor : ℕ
  pub patch : ℕ
  pub prerelease : String

-- What the package `semver` parses.
pub record Semver : Type 0 where
  pub version : Version
  pub build : List String

-- What a revision is unique for.
pub record Key : Type 0 where
  pub application : ℕ
  pub version : Version
  pub variant : String

pub record Release : Type 0 where
  pub id : ℕ
  pub key : Key
  pub build : List String
  pub revision : Option ℕ
  pub finalized : Option ℕ

abbrev pub Table : Type 0
Table = List Release

-- The values of a request, as far as the hooks read them.
pub record Values : Type 0 where
  pub semver : Option String
  pub application : Option ℕ
  pub variant : Option String
  pub is_final : Option Bool

abbrev pub same_version : Version → Version → Bool
same_version v w =
    v.major == w.major
    && v.minor == w.minor
    && v.patch == w.patch
    && str_eq v.prerelease w.prerelease

abbrev pub same_key : Key → Key → Bool
same_key k l =
    k.application == l.application && same_version k.version l.version && str_eq k.variant l.variant

abbrev greater : Option ℕ → Option ℕ → Option ℕ
greater none b = b
greater (some a) none = some a
greater (some a) (some b) = some (max a b)

-- The revision of the first of the releases with this key, the greatest revision first.
pub latest_revision : Table → Key → Option ℕ
latest_revision [] k = none
latest_revision (r ∷ rs) k =
    let others = latest_revision rs k in
    if same_key r.key k then greater r.revision others else others

abbrev pub after : Option ℕ → ℕ
after none = 0
after (some n) = n + 1

pub get_next_revision : Table → Key → ℕ
get_next_revision db k = after (latest_revision db k)

-- /^rev(\d+)$/
abbrev revision_regexp : Regex
revision_regexp = all_of (at_start ∷ literal "rev" ∷ group 1 (plus (class digit)) ∷ at_end ∷ [])

abbrev first_group : Option Cursor → Option String
first_group none = none
first_group (some m) = group_of 1 m.groups

abbrev differs : String → Option String → Bool
differs n none = false
differs n (some given) = not (str_eq n given)

pub any : {A : Type 0} → (A → Bool) → List A → Bool
any p [] = false
any p (x ∷ xs) = p x || any p xs

-- Whether `checkNotDifferentRevision` throws; the text of the revision is given.
pub is_different_revision : String → List String → Bool
unfolding any
is_different_revision n build = any (λ b. differs n (first_group (exec revision_regexp b))) build

-- The changes of a row, by its id.
abbrev pub on_row : ℕ → (Release → Release) → Release → Release
on_row i f r = if r.id == i then f r else r

abbrev number : ℕ → Option ℕ → Release → Release
number n date r = record r { revision = some n; finalized = date }

-- The PATCH of one release; a date is left as it is, if there is none.
pub set_revision : Table → ℕ → ℕ → Option ℕ → Table
set_revision db i n date =
    map (on_row i (λ r. number n (if is_some date then date else r.finalized) r)) db
