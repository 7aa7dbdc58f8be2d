-- ===== src/State/Truncate/Laws.antt =====
-- The sizes of the texts of a report, src/features/device-state/state-patch-utils.ts.
use open_balena_api.Base.{
  ℕ, zero, suc, ◌+◌, ◌≤◌, ◌≡◌, subst, ◌≢◌, ◌⊎◌, refl, leb, str_eq, eq_iff, String, false,
  Bool-cases, inl, inr, Option, none, some, List, [], ◌∷◌, length, All, arith,
}
use open_balena_api.State.Truncate.{
  Text, take, reverse_onto, trim_start, trim, add_fragment, add_fragments, split, truncate_text,
  Object, Constraint, set_field, truncate_value, truncate_field, truncate_constrained_fields,
}

length-reverse_onto : (t r : Text) → length (reverse_onto t r) ≡ length t + length r
unfolding reverse_onto
length-reverse_onto [] r = omega arith
length-reverse_onto (c ∷ t) r = ground (arith, length-reverse_onto t (c ∷ r))

length-take : (n : ℕ) (t : Text) → length (take n t) ≤ n
unfolding take
length-take n [] = omega arith
length-take zero (c ∷ t) = omega arith
length-take (suc n) (c ∷ t) = ground (arith, length-take n t)

length-trim_start : (t : Text) → length (trim_start t) ≤ length t
unfolding trim_start
length-trim_start [] = omega arith
length-trim_start (c ∷ t) = ground (arith, length-trim_start t)

length-trim : (t : Text) → length (trim t) ≤ length t
unfolding trim
length-trim t =
    let start = trim_start t in
    let back = reverse_onto start [] in
    ground (
      arith,
      length-trim_start t,
      length-reverse_onto start [],
      length-trim_start back,
      length-reverse_onto (trim_start back) [],
    )

length-add_fragment :
    (most d : ℕ) (text fragment : Text)
    → length text ≤ most
    → length (add_fragment most d text fragment) ≤ most
unfolding add_fragment
length-add_fragment most d text fragment h = ground arith

length-add_fragments :
    (most d : ℕ) (fs : List Text) (text : Text)
    → length text ≤ most
    → length (add_fragments most d text fs) ≤ most
unfolding add_fragments
length-add_fragments most d [] text h = h
length-add_fragments most d (f ∷ fs) text h =
    length-add_fragments most d fs (add_fragment most d text f)
      (length-add_fragment most d text f h)

-- The text that is left is no longer than asked for.
pub length-truncate_text :
    (t : Text) (most : ℕ) (d : Option ℕ) → length (truncate_text t most d) ≤ most
unfolding truncate_text
length-truncate_text t most none = length-take most t
length-truncate_text t most (some d) =
    let kept = add_fragments most d [] (split d t) in
    ground (arith, length-trim kept, length-add_fragments most d (split d t) [] (omega arith))

abbrev pub size : Option Text → ℕ
size none = 0
size (some t) = length t

size-set_field :
    (o : Object) (key k : String) (t : Text)
    → length t ≤ size (o key)
    → size (set_field o key t k) ≤ size (o k)
size-set_field o key k t h = elim (Bool-cases (str_eq k key)) [
  | inl e ↦ let same : k ≡ key = (eq_iff k key).0 e in rw (e, same) h
  | inr e ↦ rw e (omega arith)
]

size-set_field_self :
    (o : Object) (key : String) (t : Text) → size (set_field o key t key) ≡ length t
size-set_field_self o key t = rw ((eq_iff key key).1 refl) refl

size-truncate_value :
    (o : Object) (key : String) (most : ℕ) (d : Option ℕ) (k : String) (v : Option Text)
    → o key ≡ v
    → size (truncate_value o key most d v k) ≤ size (o k)
size-truncate_value o key most d k none e = omega arith
size-truncate_value o key most d k (some v) e = elim (Bool-cases (leb (length v) most)) [
  | inl c ↦ rw c (omega arith)
  | inr c ↦ rw c (
      size-set_field o key k (truncate_text v most d)
        (rw e (ground (arith, length-truncate_text v most d))))
]

size-truncate_value_self :
    (o : Object) (key : String) (most : ℕ) (d : Option ℕ) (v : Option Text)
    → o key ≡ v
    → size (truncate_value o key most d v key) ≤ most
size-truncate_value_self o key most d none e = rw e (omega arith)
size-truncate_value_self o key most d (some v) e = elim (Bool-cases (leb (length v) most)) [
  | inl c ↦ rw (c, e) (ground arith)
  | inr c ↦
      ground
        (arith, length-truncate_text v most d, size-set_field_self o key (truncate_text v most d))
]

size-truncate_fields :
    (cs : List Constraint) (o : Object) (k : String)
    → size (truncate_constrained_fields cs o k) ≤ size (o k)
unfolding truncate_constrained_fields truncate_field
size-truncate_fields [] o k = omega arith
size-truncate_fields ((key, most, d) ∷ cs) o k =
    let first = size-truncate_value o key most d k (o key) refl in
    let others = size-truncate_fields cs (truncate_field o (key, most, d)) k in
    omega (arith, first, others)

abbrev pub Fits : Object → Constraint → Type 0
Fits o (key, most, d) = size (o key) ≤ most

-- After the truncation the text of every constrained field, if it has one, is within its bound, also
-- where two constraints are on one field.
pub truncate-Fits :
    (cs : List Constraint) (o : Object) → All (Fits (truncate_constrained_fields cs o)) cs
unfolding truncate_constrained_fields truncate_field
truncate-Fits [] o = tt
truncate-Fits ((key, most, d) ∷ cs) o =
    let o' = truncate_field o (key, most, d) in
    let self = size-truncate_value_self o key most d (o key) refl in
    let others = size-truncate_fields cs o' key in
    (omega (arith, self, others), truncate-Fits cs o')

abbrev pub Within : String → Option Text → Constraint → Type 0
Within k v (key, most, d) = (k ≢ key) ⊎ (size v ≤ most)

length-not_leb : (w : Text) (most : ℕ) → leb (length w) most ≡ false → ¬ (length w ≤ most)
length-not_leb w most c h = ground arith

truncate_value-Within :
    (o : Object) (key : String) (most : ℕ) (d : Option ℕ) (k : String) (v w : Option Text)
    → o key ≡ w
    → o k ≡ v
    → Within k v (key, most, d)
    → truncate_value o key most d w k ≡ v
truncate_value-Within o key most d k v none e f h = f
truncate_value-Within o key most d k v (some w) e f h = elim (Bool-cases (leb (length w) most)) [
  | inl c ↦ rw c f
  | inr c ↦ elim (Bool-cases (str_eq k key)) [
    | inr n ↦ rw (c, n) f
    | inl s ↦
        let same : k ≡ key = (eq_iff k key).0 s in
        let held : v ≡ some w = cc (f, e, same) in
        elim h [
          | inl other ↦ elim (other same) [ ]
          | inr short ↦ elim (length-not_leb w most c (subst (λ z. size z ≤ most) held short)) [ ]
        ]
  ]
]

-- The truncation leaves a field as it is whose text is within the bound of every constraint on it,
-- whatever happens to the others.
pub truncate-Within :
    (cs : List Constraint) (o : Object) (k : String) (v : Option Text)
    → o k ≡ v
    → All (Within k v) cs
    → truncate_constrained_fields cs o k ≡ v
unfolding truncate_constrained_fields truncate_field
truncate-Within [] o k v f h = f
truncate-Within ((key, most, d) ∷ cs) o k v f (h, hs) =
    let step = truncate_value-Within o key most d k v (o key) refl f h in
    truncate-Within cs (truncate_field o (key, most, d)) k v step hs
