-- ===== src/State/Truncate.antt =====
-- src/features/device-state/state-patch-utils.ts: cutting the texts of a report to the sizes of
-- their columns. A text is the list of its UTF-16 code units, which is what `length` counts.
mod Laws
mod Examples
use open_balena_api.Base.{
  ℕ, zero, suc, leb, ◌==◌, str_eq, String, Bool, ◌&&◌, ◌||◌, Option, none, some, List, [], ◌∷◌,
  ◌++◌, length, if◌then◌else◌,
}

abbrev pub Text : Type 0
Text = List ℕ

-- The first list backwards before the second.
unfoldable pub reverse_onto : Text → Text → Text
reverse_onto [] r = r
reverse_onto (c ∷ t) r = reverse_onto t (c ∷ r)

-- `t.substring(0, n)`
pub take : ℕ → Text → Text
take n [] = []
take zero (c ∷ t) = []
take (suc n) (c ∷ t) = c ∷ take n t

-- White space of `String.prototype.trim`.
abbrev pub is_space : ℕ → Bool
is_space c =
    (leb 9 c && leb c 13)
    || c == 32
    || c == 160
    || c == 5760
    || (leb 8192 c && leb c 8202)
    || c == 8232
    || c == 8233
    || c == 8239
    || c == 8287
    || c == 12288
    || c == 65279

pub trim_start : Text → Text
trim_start [] = []
trim_start (c ∷ t) = let rest = trim_start t in if is_space c then rest else c ∷ t

pub trim : Text → Text
trim t = reverse_onto (trim_start (reverse_onto (trim_start t) [])) []

-- `t.split(d)` for a delimiter of one code unit.
unfoldable pub split_go : ℕ → Text → Text → List Text
split_go d part [] = reverse_onto part [] ∷ []
split_go d part (c ∷ t) =
    if c == d then reverse_onto part [] ∷ split_go d [] t else split_go d (c ∷ part) t

unfoldable pub split : ℕ → Text → List Text
split d t = split_go d [] t

-- The callback of the `reduce`.
pub add_fragment : ℕ → ℕ → Text → Text → Text
add_fragment most d text fragment =
    let text_with_fragment = text ++ d ∷ fragment in
    if leb (length text_with_fragment) most then text_with_fragment else text

pub add_fragments : ℕ → ℕ → Text → List Text → Text
add_fragments most d text [] = text
add_fragments most d text (f ∷ fs) = add_fragments most d (add_fragment most d text f) fs

-- `truncateText`
pub truncate_text : Text → ℕ → Option ℕ → Text
truncate_text long_text most none = take most long_text
truncate_text long_text most (some d) = trim (add_fragments most d [] (split d long_text))

-- An object maps a key to its text, if its value is a text.
abbrev pub Object : Type 0
Object = String → Option Text

abbrev pub Constraint : Type 0
Constraint = String × ℕ × Option ℕ

abbrev pub set_field : Object → String → Text → Object
set_field o key t k = if str_eq k key then some t else o k

abbrev pub truncate_value : Object → String → ℕ → Option ℕ → Option Text → Object
truncate_value o key most d none = o
truncate_value o key most d (some v) =
    if leb (length v) most then o else set_field o key (truncate_text v most d)

pub truncate_field : Object → Constraint → Object
truncate_field o (key, most, d) = truncate_value o key most d (o key)

-- `truncateConstrainedFields`
pub truncate_constrained_fields : List Constraint → Object → Object
truncate_constrained_fields [] o = o
truncate_constrained_fields (c ∷ cs) o = truncate_constrained_fields cs (truncate_field o c)

-- The constraints of `truncateConstrainedDeviceFields`; an address list is delimited by spaces.
abbrev pub device_fields : List Constraint
device_fields =
    ("status", 50, none)
    ∷ ("os_version", 70, none)
    ∷ ("supervisor_version", 20, none)
    ∷ ("api_secret", 64, none)
    ∷ ("ip_address", 2000, some 32)
    ∷ ("mac_address", 900, some 32)
    ∷ ("note", 1000000, none)
    ∷ []
