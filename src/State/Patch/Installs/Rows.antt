-- ===== src/State/Patch/Installs/Rows.antt =====
-- The rows of image installs that a report creates, changes and marks,
-- src/features/device-state/state-patch-utils.ts.
use open_balena_api.Base.{
  ℕ, ◌==◌, ◌≡◌, ◌≢◌, refl, sym, ◌∙◌, inl, inr, Bool, true, false, not, ◌&&◌, ◌||◌, Bool-cases,
  Option, none, some, Option-cases, List, [], ◌∷◌, ◌++◌, map, member, keep, All, All-append,
  All-mono, arith,
}
use open_balena_api.State.Reports.{Body, Report, Write, post, patch, nothing}
use open_balena_api.State.Patch.Installs.{
  Install, Tables, is_accepted, created, patched, is_of, existing, stored_report, written, marked,
}

-- Whether a device has a row of an image.
abbrev pub has_row : ℕ → ℕ → List Install → Bool
has_row d image [] = false
has_row d image (r ∷ rs) = is_of d image r || has_row d image rs

-- The rows of a device.
abbrev pub rows_of : ℕ → List Install → List Install
rows_of d rows = keep (λ r. r.device == d) rows

-- No id is that of two rows.
abbrev pub IsKeyed : List Install → Type 0
IsKeyed [] = Unit
IsKeyed (r ∷ rs) = All (λ s. s.id ≢ r.id) rs × IsKeyed rs

-- The rows with this id are those of the device.
abbrev pub Owns : ℕ → ℕ → List Install → Type 0
Owns d id rows = All (λ r. r.id ≡ id → r.device ≡ d) rows

pub patched-is_of :
    (id : ℕ) (b : Body) (r : Install) (d image : ℕ)
    → is_of d image (patched id b r) ≡ is_of d image r
patched-is_of id b r d image = elim (Bool-cases (r.id == id)) [ inl e ↦ rw e | inr e ↦ rw e ]

pub marked-is_of :
    (e : ℕ) (ids : List ℕ) (r : Install) (d image : ℕ)
    → is_of d image (marked e ids r) ≡ is_of d image r
marked-is_of e ids r d image =
    elim (Bool-cases (r.device == e && not (member r.installs_image ids))) [
      | inl h ↦ rw h
      | inr h ↦ rw h
    ]

pub has_row-map :
    (f : Install → Install) (d image : ℕ)
    → ((r : Install) → is_of d image (f r) ≡ is_of d image r)
    → (rows : List Install) → has_row d image (map f rows) ≡ has_row d image rows
has_row-map f d image h [] = refl
has_row-map f d image h (r ∷ rs) = λ i. h r i || has_row-map f d image h rs i

pub has_row-append :
    (d image : ℕ) (rows more : List Install)
    → has_row d image (rows ++ more) ≡ (has_row d image rows || has_row d image more)
has_row-append d image [] more = refl
has_row-append d image (r ∷ rs) more = ground (arith, has_row-append d image rs more)

pub has_row-existing :
    (d image : ℕ) (rows : List Install) → existing d image rows ≢ none → has_row d image rows ≡ true
unfolding existing
has_row-existing d image [] h = elim (h refl) [ ]
has_row-existing d image (r ∷ rs) h = elim (Bool-cases (is_of d image r)) [
  | inl e ↦ rw e
  | inr e ↦ rw e (has_row-existing d image rs (rw e at h))
]

-- What is written takes no row of an image away.
pub has_row-written :
    (e d image j : ℕ) (id : Option ℕ) (w : Write) (db : Tables)
    → has_row e j db.installs ≡ true
    → has_row e j (written d image id w db).installs ≡ true
has_row-written e d image j id (post b) db h = elim (Bool-cases (is_accepted d image b db)) [
  | inl a ↦ rw a (rw (has_row-append, h))
  | inr a ↦ rw a h
]
has_row-written e d image j none (patch b) db h = h
has_row-written e d image j none nothing db h = h
has_row-written e d image j (some id) (patch b) db h =
    rw (has_row-map (patched id b) e j (λ r. patched-is_of id b r e j) db.installs) h
has_row-written e d image j (some id) nothing db h = h

pub installs-stored_report :
    (id : Option ℕ) (r : Option Report) (db : Tables)
    → (stored_report id r db).installs ≡ db.installs
installs-stored_report none r db = refl
installs-stored_report (some id) r db = refl

-- The rows of another device are not written.
rows_of-patched :
    (e d id : ℕ) (b : Body) (rows : List Install)
    → e ≢ d
    → Owns d id rows
    → rows_of e (map (patched id b) rows) ≡ rows_of e rows
rows_of-patched e d id b [] n o = refl
rows_of-patched e d id b (r ∷ rs) n (p, o) = elim (Bool-cases (r.id == id)) [
  | inl h ↦
      let away : (r.device == e) ≡ false = grind (arith, p, n) in
      rw (h, away) (rows_of-patched e d id b rs n o)
  | inr h ↦ rw h (ground (arith, rows_of-patched e d id b rs n o))
]

rows_of-append :
    (e : ℕ) (rows : List Install) (r : Install)
    → (r.device == e) ≡ false
    → rows_of e (rows ++ r ∷ []) ≡ rows_of e rows
rows_of-append e [] r h = rw h
rows_of-append e (s ∷ rows) r h = ground (arith, rows_of-append e rows r h)

-- The id of a write is that of a row of the device, if there is one.
abbrev pub OwnsMaybe : ℕ → Option ℕ → List Install → Type 0
OwnsMaybe d none rows = Unit
OwnsMaybe d (some id) rows = Owns d id rows

pub rows_of-written :
    (e d image : ℕ) (id : Option ℕ) (w : Write) (db : Tables)
    → e ≢ d
    → OwnsMaybe d id db.installs
    → rows_of e (written d image id w db).installs ≡ rows_of e db.installs
rows_of-written e d image id (post b) db n o = elim (Bool-cases (is_accepted d image b db)) [
  | inl a ↦ rw a (rows_of-append e db.installs (created db.next_id d image b) (grind (arith, n)))
  | inr a ↦ rw a refl
]
rows_of-written e d image none (patch b) db n o = refl
rows_of-written e d image none nothing db n o = refl
rows_of-written e d image (some id) (patch b) db n o = rows_of-patched e d id b db.installs n o
rows_of-written e d image (some id) nothing db n o = refl

pub rows_of-marked :
    (e d : ℕ) (ids : List ℕ) (rows : List Install)
    → e ≢ d
    → rows_of e (map (marked d ids) rows) ≡ rows_of e rows
rows_of-marked e d ids [] n = refl
rows_of-marked e d ids (r ∷ rs) n = elim (Bool-cases (r.device == d)) [
  | inl h ↦
      let away : (r.device == e) ≡ false = grind (arith, n) in
      ground (arith, rows_of-marked e d ids rs n)
  | inr h ↦ rw h (ground (arith, rows_of-marked e d ids rs n))
]

-- What `existing` finds is the id of a row.
existing-ne :
    (d image id k : ℕ) (rows : List Install)
    → existing d image rows ≡ some id
    → All (λ s. s.id ≢ k) rows
    → id ≢ k
unfolding existing
existing-ne d image id k [] h a = cc
existing-ne d image id k (r ∷ rs) h (p, a) = elim (Option-cases (existing d image rs)) [
  | inl none_later ↦ grind (arith, none_later, p)
  | inr (m, later) ↦ existing-ne d image id k rs (later ∙ grind (arith, later)) a
]

-- A row that is found by its device and image is one of the device.
pub Owns-existing :
    (d image id : ℕ) (rows : List Install)
    → IsKeyed rows
    → existing d image rows ≡ some id
    → Owns d id rows
unfolding existing
Owns-existing d image id [] k h = tt
Owns-existing d image id (r ∷ rs) (fresh, k) h = elim (Option-cases (existing d image rs)) [
  | inl none_later ↦
      let same : r.id ≡ id = grind (arith, none_later) in
      let own : r.device ≡ d = grind (arith, none_later) in
      ((λ e. own), All-mono (λ s n e. absurd (n (e ∙ sym same))) rs fresh)
  | inr (m, later) ↦
      let found : existing d image rs ≡ some id = later ∙ grind (arith, later) in
      (
        (λ e. absurd (existing-ne d image id r.id rs found fresh (sym e))),
        Owns-existing d image id rs k found,
      )
]

Owns-patched :
    (d n id : ℕ) (b : Body) (rows : List Install)
    → Owns d n rows
    → Owns d n (map (patched id b) rows)
Owns-patched d n id b [] o = tt
Owns-patched d n id b (r ∷ rs) (p, o) = elim (Bool-cases (r.id == id)) [
  | inl e ↦ rw e (p, Owns-patched d n id b rs o)
  | inr e ↦ rw e (p, Owns-patched d n id b rs o)
]

pub Owns-written :
    (d image n : ℕ) (id : Option ℕ) (w : Write) (db : Tables)
    → Owns d n db.installs
    → Owns d n (written d image id w db).installs
Owns-written d image n id (post b) db o = elim (Bool-cases (is_accepted d image b db)) [
  | inl a ↦ rw a (
      All-append (λ r. r.id ≡ n → r.device ≡ d) db.installs (created db.next_id d image b ∷ []) o
        ((λ e. refl), tt))
  | inr a ↦ rw a o
]
Owns-written d image n none (patch b) db o = o
Owns-written d image n none nothing db o = o
Owns-written d image n (some id) (patch b) db o = Owns-patched d n id b db.installs o
Owns-written d image n (some id) nothing db o = o

-- A refusal stays.
pub refused-written :
    (d image : ℕ) (id : Option ℕ) (w : Write) (db : Tables)
    → (written d image id w db).refused ≡ false
    → db.refused ≡ false
refused-written d image id (post b) db h = elim (Bool-cases (is_accepted d image b db)) [
  | inl a ↦ rw a at h
  | inr a ↦ cc (rw a at h)
]
refused-written d image none (patch b) db h = h
refused-written d image none nothing db h = h
refused-written d image (some id) (patch b) db h = h
refused-written d image (some id) nothing db h = h

pub refused-stored_report :
    (id : Option ℕ) (r : Option Report) (db : Tables) → (stored_report id r db).refused ≡ db.refused
refused-stored_report none r db = refl
refused-stored_report (some id) r db = refl
