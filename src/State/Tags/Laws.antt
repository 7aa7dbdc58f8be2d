-- ===== src/State/Tags/Laws.antt =====
-- The tags of a device after a report, src/features/device-state/routes/tags-patch-v3.ts.
use open_balena_api.Base.{
  ℕ, ◌==◌, ◌≡◌, refl, ap, ◌∙◌, inl, inr, str_eq, eq_iff, String, Bool, true, false, ◌&&◌,
  Bool-cases, subst, Option, none, some, List, [], ◌∷◌, ◌++◌, includes, map, if◌then◌else◌, arith,
}
use open_balena_api.State.Config.{lookup}
use open_balena_api.State.Tags.{
  Tag, Tags, Existing, existing_of, existing_tags, inherited_names, is_of, value_of, is_updated,
  is_new, Write, post, updated_writes, new_writes, device_writes, patched, write, write_all,
}

-- No key stands twice.
abbrev pub IsKeyed : Tags → Type 0
IsKeyed [] = Unit
IsKeyed ((k, v) ∷ ts) = (lookup k ts ≡ none) × IsKeyed ts

abbrev over : String → Option String → Option String
over v none = none
over v (some w) = some v

abbrev pub or_else : Option String → Option String → Option String
or_else none y = y
or_else (some w) y = some w

value_of-patched :
    (e d : ℕ) (j k v : String) (rows : List Tag)
    → value_of e k (map (patched d j v) rows)
      ≡ (if d == e && str_eq j k then over v (value_of e k rows) else value_of e k rows)
unfolding value_of
value_of-patched e d j k v [] = elim (Bool-cases (d == e && str_eq j k)) [
  | inl h ↦ rw h
  | inr h ↦ rw h
]
value_of-patched e d j k v (t ∷ rows) =
    ground
      (arith, value_of-patched e d j k v rows, eq_iff t.tag_key j, eq_iff t.tag_key k, eq_iff j k)

value_of-append :
    (e : ℕ) (k : String) (rows : List Tag) (t : Tag)
    → value_of e k (rows ++ t ∷ [])
      ≡ or_else (value_of e k rows) (if is_of e k t then some t.value else none)
unfolding value_of
value_of-append e k [] t = refl
value_of-append e k (r ∷ rows) t = ground (arith, value_of-append e k rows t)

-- What the patches of a device make of a value, and what the posts do.
abbrev after_updates : Bool → Option String → Option Existing → Option String → Option String
after_updates false t o x = x
after_updates true none o x = x
after_updates true (some v) o x = if is_updated o v then over v x else x

abbrev after_posts : Bool → Option String → Option Existing → Option String → Option String
after_posts false t o x = x
after_posts true none o x = x
after_posts true (some v) o x = if is_new o then or_else x (some v) else x

-- One tag more, whose key is `k` if `m` holds.
updated_step :
    (b m : Bool) (v : String) (t : Option String) (o : Option Existing) (x : Option String)
    → (m ≡ true → (t ≡ none) × (is_updated o v ≡ true))
    → after_updates b t o (if b && m then over v x else x)
      ≡ after_updates b (if m then some v else t) o x
updated_step false m v t o x h = refl
updated_step true false v t o x h = refl
updated_step true true v t o x h = rw ((h refl).0, (h refl).1) refl

kept_step :
    (b m : Bool) (v : String) (t : Option String) (o : Option Existing) (x : Option String)
    → (m ≡ true → (t ≡ none) × (is_updated o v ≡ false))
    → after_updates b t o x ≡ after_updates b (if m then some v else t) o x
kept_step false m v t o x h = refl
kept_step true false v t o x h = refl
kept_step true true v t o x h = rw ((h refl).0, (h refl).1) refl

or_else-none : (x : Option String) → or_else x none ≡ x
or_else-none none = refl
or_else-none (some w) = refl

new_step :
    (b m : Bool) (v : String) (t : Option String) (o : Option Existing) (x : Option String)
    → (m ≡ true → (t ≡ none) × (is_new o ≡ true))
    → after_posts b t o (or_else x (if b && m then some v else none))
      ≡ after_posts b (if m then some v else t) o x
new_step false m v t o x h = or_else-none x
new_step true false v t o x h = rw (or_else-none x) refl
new_step true true v t o x h = rw ((h refl).0, (h refl).1) refl

old_step :
    (b m : Bool) (v : String) (t : Option String) (o : Option Existing) (x : Option String)
    → (m ≡ true → (t ≡ none) × (is_new o ≡ false))
    → after_posts b t o x ≡ after_posts b (if m then some v else t) o x
old_step false m v t o x h = refl
old_step true false v t o x h = refl
old_step true true v t o x h = rw ((h refl).0, (h refl).1) refl

-- What holds of a key holds of an equal one.
same_key :
    (j k : String) (ts : Tags) (P : String → Type 0)
    → lookup j ts ≡ none
    → P j
    → str_eq j k ≡ true
    → (lookup k ts ≡ none) × P k
same_key j k ts P f p m =
    let e = (eq_iff j k).0 m in (subst (λ i. lookup i ts ≡ none) e f, subst P e p)

module _ (e d : ℕ) (k : String) (o : String → Option Existing) where
  value_of-updated :
      (ts : Tags) (rows : List Tag)
      → IsKeyed ts
      → value_of e k (write_all (updated_writes d o ts) rows)
        ≡ after_updates (d == e) (lookup k ts) (o k) (value_of e k rows)
  unfolding updated_writes write_all lookup
  value_of-updated [] rows h = elim (Bool-cases (d == e)) [ inl p ↦ rw p | inr p ↦ rw p ]
  value_of-updated ((j, v) ∷ ts) rows (f, h) = elim (Bool-cases (is_updated (o j) v)) [
    | inl u ↦ rw u (
        value_of-updated ts (map (patched d j v) rows) h
        ∙ ap (after_updates (d == e) (lookup k ts) (o k)) (value_of-patched e d j k v rows)
        ∙ updated_step (d == e) (str_eq j k) v (lookup k ts) (o k) (value_of e k rows)
            (same_key j k ts (λ i. is_updated (o i) v ≡ true) f u))
    | inr u ↦ rw u (
        value_of-updated ts rows h
        ∙ kept_step (d == e) (str_eq j k) v (lookup k ts) (o k) (value_of e k rows)
            (same_key j k ts (λ i. is_updated (o i) v ≡ false) f u))
  ]

  value_of-new :
      (ts : Tags) (rows : List Tag)
      → IsKeyed ts
      → value_of e k (write_all (new_writes d o ts) rows)
        ≡ after_posts (d == e) (lookup k ts) (o k) (value_of e k rows)
  unfolding new_writes write_all lookup
  value_of-new [] rows h = elim (Bool-cases (d == e)) [ inl p ↦ rw p | inr p ↦ rw p ]
  value_of-new ((j, v) ∷ ts) rows (f, h) = elim (Bool-cases (is_new (o j))) [
    | inl u ↦ rw u (
        value_of-new ts (write (post d j v) rows) h
        ∙ ap (after_posts (d == e) (lookup k ts) (o k))
            (value_of-append e k rows (record { device = d; tag_key = j; value = v }))
        ∙ new_step (d == e) (str_eq j k) v (lookup k ts) (o k) (value_of e k rows)
            (same_key j k ts (λ i. is_new (o i) ≡ true) f u))
    | inr u ↦ rw u (
        value_of-new ts rows h
        ∙ old_step (d == e) (str_eq j k) v (lookup k ts) (o k) (value_of e k rows)
            (same_key j k ts (λ i. is_new (o i) ≡ false) f u))
  ]

pub write_all-append :
    (ws vs : List Write) (rows : List Tag)
    → write_all (ws ++ vs) rows ≡ write_all vs (write_all ws rows)
unfolding write_all
write_all-append [] vs rows = refl
write_all-append (w ∷ ws) vs rows = write_all-append ws vs (write w rows)

after_both :
    (b : Bool) (t x : Option String)
    → after_posts b t (existing_of x false) (after_updates b t (existing_of x false) x)
      ≡ (if b then or_else t x else x)
after_both false t x = refl
after_both true none x = refl
after_both true (some v) none = refl
after_both true (some v) (some w) = ground (arith, eq_iff w v)

of_own :
    (b : Bool) (t : Option String) (o : Option Existing) (x : Option String)
    → (b ≡ true → o ≡ existing_of x false)
    → after_posts b t o (after_updates b t o x) ≡ (if b then or_else t x else x)
of_own false t o x h = refl
of_own true t o x h = rw (h refl) (after_both true t x)

-- The writes of a device, made against the values that it still has: each of its tags has the value
-- that the report gives it, or else the value that it had; other devices keep theirs. The key is none
-- that all objects have.
pub value_of-device_writes :
    (e d : ℕ) (k : String) (tags : Tags) (old rows : List Tag)
    → includes inherited_names k ≡ false
    → IsKeyed tags
    → ((d == e) ≡ true → value_of d k old ≡ value_of e k rows)
    → value_of e k (write_all (device_writes d old tags) rows)
      ≡ (if d == e then or_else (lookup k tags) (value_of e k rows) else value_of e k rows)
unfolding device_writes
value_of-device_writes e d k tags old rows free h same =
    let o = λ (j : String). existing_tags d old j in
    let updates = updated_writes d o tags in
    ap (value_of e k) (write_all-append updates (new_writes d o tags) rows)
    ∙ value_of-new e d k o tags (write_all updates rows) h
    ∙ ap (after_posts (d == e) (lookup k tags) (o k)) (value_of-updated e d k o tags rows h)
    ∙ of_own (d == e) (lookup k tags) (o k) (value_of e k rows)
        (λ q. ap (existing_of (value_of d k old)) free ∙ ap (λ x. existing_of x false) (same q))
