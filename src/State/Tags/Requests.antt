-- ===== src/State/Tags/Requests.antt =====
-- The tags after a request, src/features/device-state/routes/tags-patch-v3.ts.
use open_balena_api.Base.{
  ℕ, ◌==◌, ◌≡◌, ◌≢◌, refl, sym, ap, ◌∙◌, inl, inr, String, true, false, Bool-cases, subst, Option,
  none, some, includes, List, [], ◌∷◌, ◌++◌, if◌then◌else◌, All, All-mono, Result, ok, err, Error,
  bad_request, unauthorized, not_found, unavailable, unsupported_media, too_many_requests, other,
  keep, member, not, length, arith,
}
use open_balena_api.State.Config.{lookup}
use open_balena_api.State.Patch.Transaction.{
  OnOk-any_of, status_of, OnOk, OnOk-and_then, OnOk-mono, and_then,
}
use open_balena_api.State.Tags.{
  Tag, Tags, Device, Body, inherited_names, value_of, Write, device_writes, write_all, device_of,
  found_writes, all_writes, fetch_data, check_body, any_tags, asked, writes_of, respond,
  tags_patch_v3,
}
use open_balena_api.State.Tags.Laws.{IsKeyed, or_else, value_of-device_writes, write_all-append}

abbrev pub Differ : Option Device → Option Device → Type 0
Differ none o = Unit
Differ (some a) none = Unit
Differ (some a) (some b) = a.id ≢ b.id

abbrev Owner : Option Device → ℕ → Type 0
Owner none e = ⊥
Owner (some d) e = d.id ≡ e

Differ-Owner : (o p : Option Device) (e : ℕ) → Differ o p → Owner o e → Owner p e → ⊥
Differ-Owner none p e h a b = absurd a
Differ-Owner (some c) none e h a b = absurd b
Differ-Owner (some c) (some d) e h a b = h (a ∙ sym b)

abbrev pub given : Option Device → Tags → ℕ → String → Option String → Option String
given none ts e k rest = rest
given (some d) ts e k rest = if d.id == e then lookup k ts else rest

module _ (ds : List Device) where
  -- The value that a body gives to a tag of a device.
  abbrev pub reported : Body → ℕ → String → Option String
  reported [] e k = none
  reported ((u, ts) ∷ b) e k = given (device_of u ds) ts e k (reported b e k)

  -- The entries of a body are for different devices, and give no key twice.
  abbrev pub IsApart : Body → Type 0
  IsApart [] = Unit
  IsApart ((u, ts) ∷ b) =
      IsKeyed ts × All (λ p. Differ (device_of u ds) (device_of p.0 ds)) b × IsApart b

  given-none :
      (o : Option Device) (ts : Tags) (e : ℕ) (k : String)
      → (Owner o e → ⊥)
      → given o ts e k none ≡ none
  given-none none ts e k h = refl
  given-none (some d) ts e k h = elim (Bool-cases (d.id == e)) [
    | inl q ↦ absurd (h (ground arith))
    | inr q ↦ rw q refl
  ]

  reported-none :
      (o : Option Device) (e : ℕ) (k : String) (b : Body)
      → Owner o e
      → All (λ p. Differ o (device_of p.0 ds)) b
      → reported b e k ≡ none
  reported-none o e k [] a h = refl
  reported-none o e k ((u, ts) ∷ b) a (q, h) =
      ap (given (device_of u ds) ts e k) (reported-none o e k b a h)
      ∙ given-none (device_of u ds) ts e k (λ c. Differ-Owner o (device_of u ds) e q a c)

  module _ (old : List Tag) (e : ℕ) (k : String) where
    abbrev Agrees : List Tag → Body → Type 0
    Agrees rows b = All (λ p. Owner (device_of p.0 ds) e → value_of e k old ≡ value_of e k rows) b

    abbrev Gives : Body → List Write → Type 0
    Gives b ws =
        (rows : List Tag)
        → Agrees rows b
        → value_of e k (write_all ws rows) ≡ or_else (reported b e k) (value_of e k rows)

    -- An entry without tags gives none.
    skip :
        (o : Option Device) (b : Body) (x : Option String)
        → All (λ p. Differ o (device_of p.0 ds)) b
        → or_else (reported b e k) x ≡ or_else (given o [] e k (reported b e k)) x
    unfolding lookup
    skip none b x h = refl
    skip (some d) b x h = elim (Bool-cases (d.id == e)) [
      | inl q ↦ rw q (ap (λ r. or_else r x) (reported-none (some d) e k b (ground arith) h))
      | inr q ↦ rw q refl
    ]

    same_id : (d : Device) → (d.id == e) ≡ true → d.id ≡ e
    same_id d h = ground arith

    -- An entry for a device, before those behind it.
    entry :
        includes inherited_names k ≡ false
        → (d : Device) (ts : Tags) (b : Body) (ws : List Write) (rows : List Tag) → IsKeyed ts
        → All (λ p. Differ (some d) (device_of p.0 ds)) b
        → Gives b ws
        → (d.id ≡ e → value_of e k old ≡ value_of e k rows)
        → Agrees rows b
        → value_of e k (write_all (device_writes d.id old ts ++ ws) rows)
          ≡ or_else (if d.id == e then lookup k ts else reported b e k) (value_of e k rows)
    entry free d ts b ws rows h apart ih own agrees =
        let us = device_writes d.id old ts in
        let x = value_of e k rows in
        let own_id = λ (q : (d.id == e) ≡ true). same_id d q in
        let now =
          value_of-device_writes e d.id k ts old rows free h
            (λ q. ap (λ n. value_of n k old) (own_id q) ∙ own (own_id q)) in
        let both = ap (value_of e k) (write_all-append us ws rows) in
        elim (Bool-cases (d.id == e)) [
          | inl q ↦
              let apart_from =
                All-mono
                  (λ p differ owner.
                    absurd (Differ-Owner (some d) (device_of p.0 ds) e differ (own_id q) owner))
                  b apart in
              both
              ∙ ih (write_all us rows) apart_from
              ∙ ap (λ r. or_else r (value_of e k (write_all us rows)))
                  (reported-none (some d) e k b (own_id q) apart)
              ∙ now
              ∙ rw q refl
          | inr q ↦
              let same : value_of e k (write_all us rows) ≡ x = now ∙ rw q refl in
              both
              ∙ ih (write_all us rows) (All-mono (λ p a owner. a owner ∙ sym same) b agrees)
              ∙ ap (or_else (reported b e k)) same
              ∙ rw q refl
        ]

    abbrev GivesBy : Option Device → Tags → Body → List Write → Type 0
    GivesBy o ts b ws =
        (rows : List Tag)
        → (Owner o e → value_of e k old ≡ value_of e k rows) × Agrees rows b
        → value_of e k (write_all ws rows)
          ≡ or_else (given o ts e k (reported b e k)) (value_of e k rows)

    entry_of :
        includes inherited_names k ≡ false
        → (o : Option Device) (ts : Tags) (b : Body) → IsKeyed ts
        → All (λ p. Differ o (device_of p.0 ds)) b
        → OnOk (Gives b) (all_writes ds old b)
        → OnOk (GivesBy o ts b) (
            and_then
              (found_writes o old ts)
              (λ us. and_then (all_writes ds old b) (λ ws. ok (us ++ ws))))
    entry_of free none ts b h apart g = tt
    entry_of free (some d) ts b h apart g =
        OnOk-and_then (Gives b) (GivesBy (some d) ts b) (all_writes ds old b) _ g
          (λ ws ih rows a. entry free d ts b ws rows h apart ih a.0 a.1)

    all_writes-Gives :
        includes inherited_names k ≡ false
        → (b : Body) → IsApart b
        → OnOk (Gives b) (all_writes ds old b)
    unfolding all_writes write_all
    all_writes-Gives free [] h = λ rows a. refl
    all_writes-Gives free ((u, []) ∷ b) h =
        OnOk-mono (Gives b) (Gives ((u, []) ∷ b)) (all_writes ds old b)
          (λ ws g rows a. g rows a.1 ∙ skip (device_of u ds) b (value_of e k rows) h.1)
          (all_writes-Gives free b h.2)
    all_writes-Gives free ((u, t ∷ ts) ∷ b) h =
        entry_of free (device_of u ds) (t ∷ ts) b h.0 h.1 (all_writes-Gives free b h.2)

status_of-ne : (e : Error) → status_of e ≢ 200
status_of-ne bad_request h = absurd (omega arith)
status_of-ne unauthorized h = absurd (omega arith)
status_of-ne not_found h = absurd (omega arith)
status_of-ne unavailable h = absurd (omega arith)
status_of-ne unsupported_media h = absurd (omega arith)
status_of-ne too_many_requests h = absurd (omega arith)
status_of-ne (other n) h = absurd (omega arith)

module _ (undefined_in : Result (Unit {0})) (devices : List Device) (ids : List ℕ) where
  -- The devices that the request reads.
  abbrev pub read : List Device
  read = keep (λ d. member d.id ids) devices

  fetch_data-read : (b : Body) → OnOk (λ ds. ds ≡ read) (fetch_data undefined_in devices ids b)
  unfolding fetch_data
  fetch_data-read b = elim (Bool-cases (not (length read == length ids))) [
    | inl q ↦ rw q tt
    | inr q ↦ rw q (
        OnOk-and_then (λ _. Unit {0}) (λ ds. ds ≡ read) (asked undefined_in b read) _
          (OnOk-any_of (asked undefined_in b read)) (λ _ _. refl))
  ]

  module _ (e : ℕ) (k : String) (rows : List Tag) where
    abbrev Writes : Body → List Write → Type 0
    Writes b ws =
        value_of e k (write_all ws rows) ≡ or_else (reported read b e k) (value_of e k rows)

    unmoved : (b : Body) → Agrees read rows e k rows b
    unmoved [] = tt
    unmoved (p ∷ b) = ((λ _. refl), unmoved b)

    fetched-Writes :
        includes inherited_names k ≡ false
        → (b : Body) → IsApart read b
        → OnOk
            (Writes b)
            (and_then (fetch_data undefined_in devices ids b) (λ ds. all_writes ds rows b))
    fetched-Writes free b h =
        let writes =
          OnOk-mono (Gives read rows e k b) (Writes b) (all_writes read rows b)
            (λ ws g. g rows (unmoved b)) (all_writes-Gives read rows e k free b h) in
        OnOk-and_then (λ ds. ds ≡ read) (Writes b) (fetch_data undefined_in devices ids b) _
          (fetch_data-read b)
          (λ ds same. subst (λ z. OnOk (Writes b) (all_writes z rows b)) (sym same) writes)

    writes_of-Writes :
        includes inherited_names k ≡ false
        → (b : Body) → IsApart read b
        → OnOk (Writes b) (writes_of undefined_in devices ids rows b)
    unfolding writes_of
    writes_of-Writes free b h =
        OnOk-and_then (λ _. Unit {0}) (Writes b) (check_body b) _ (OnOk-any_of (check_body b))
          (λ _ _. elim (Bool-cases (any_tags b)) [
            | inl t ↦ rw t (fetched-Writes free b h)
            | inr t ↦ rw t tt
          ])

    respond-values :
        (b : Body) (r : Result (List Write))
        → OnOk (Writes b) r
        → (respond rows r).0 ≡ 200
        → value_of e k (respond rows r).1 ≡ or_else (reported read b e k) (value_of e k rows)
    respond-values b (ok ws) h s = h
    respond-values b (err x) h s = absurd (status_of-ne x s)

  -- After a request that is answered with 200, each tag of each device has the value that the body
  -- gives it, or else the value that it had, if the entries of the body are for different devices and
  -- give no key twice. The key of the tag is none that every object of the language has, as toString.
  pub tags_patch_v3-values :
      (e : ℕ) (k : String) (b : Body) (rows : List Tag)
      → includes inherited_names k ≡ false
      → IsApart read b
      → (tags_patch_v3 undefined_in devices ids b rows).0 ≡ 200
      → value_of e k (tags_patch_v3 undefined_in devices ids b rows).1
        ≡ or_else (reported read b e k) (value_of e k rows)
  unfolding tags_patch_v3
  tags_patch_v3-values e k b rows free h s =
      respond-values e k rows b (writes_of undefined_in devices ids rows b)
        (writes_of-Writes e k rows free b h) s
