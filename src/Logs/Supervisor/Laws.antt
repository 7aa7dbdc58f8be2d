-- ===== src/Logs/Supervisor/Laws.antt =====
-- Which batches src/features/device-logs/lib/supervisor.ts accepts, and what it makes of them.
use open_balena_api.Base.{
  ℕ, suc, ◌≤◌, ◌≡◌, refl, ◌↔◌, ◌⊎◌, inl, inr, true, false, not, Option, none, some, List, [], ◌∷◌,
  length, keep, All, ok, arith, Result-cases,
}
use open_balena_api.Logs.{InternalDeviceLog}
use open_balena_api.Logs.Supervisor.{
  Value, number, text, SupervisorLog, is_truthy, is_given, is_old_log, convert_log, convert_any_log,
  convert_each, convert_logs, max_logs_per_batch, prepend,
}

abbrev pub IsText : Value → Type 0
IsText (text s) = Unit
IsText _ = ⊥

abbrev pub IsNumber : Value → Type 0
IsNumber (number n) = Unit
IsNumber _ = ⊥

-- The service id is absent or a number.
abbrev pub IsService : Option Value → Type 0
IsService none = Unit
IsService (some v) = IsNumber v

-- A log that has no field of the old format, and is for a dependent device or well typed.
abbrev pub IsAccepted : SupervisorLog → Type 0
IsAccepted l =
    ((is_given l.old_is_stderr ≡ false)
      × (is_given l.old_is_system ≡ false)
      × (is_given l.old_image_id ≡ false))
    × ((is_truthy l.uuid ≡ true)
        ⊎ (IsText l.message × IsNumber l.timestamp × IsService l.service_id))

-- The logs that are the device's own.
abbrev pub own : List SupervisorLog → List SupervisorLog
own = keep (λ l. not (is_truthy l.uuid))

convert_any-IsAccepted :
    (nano : ℕ) (l : SupervisorLog) (o : Option InternalDeviceLog)
    → convert_any_log nano l ≡ ok o
    → IsAccepted l
unfolding convert_any_log convert_log is_old_log
convert_any-IsAccepted nano l o h = ground arith

-- The time of the call is not read where the log is passed over.
IsAccepted-convert_any :
    (nano : ℕ) (l : SupervisorLog)
    → IsAccepted l
    → (o : Option InternalDeviceLog) × (convert_any_log nano l ≡ ok o)
      × (length (elim o [ none ↦ [] | some x ↦ x ∷ [] ]) ≡ length (own (l ∷ [])))
unfolding convert_any_log convert_log is_old_log
IsAccepted-convert_any nano l h = elim (Result-cases (convert_any_log nano l)) [
  | inl (o, e) ↦ (o, e, ground arith)
  | inr (e, f) ↦ absurd (ground arith)
]

module _ (clock : ℕ → ℕ) where
  convert_each-IsAccepted :
      (i : ℕ) (ls : List SupervisorLog) (o : List InternalDeviceLog)
      → convert_each clock i ls ≡ ok o
      → All IsAccepted ls
  unfolding convert_each
  convert_each-IsAccepted i [] o h = tt
  convert_each-IsAccepted i (l ∷ ls) o h = elim (Result-cases (convert_any_log (clock i) l)) [
    | inl (x, e) ↦ elim (Result-cases (convert_each clock (suc i) ls)) [
      | inl (xs, f) ↦
          (convert_any-IsAccepted (clock i) l x e, convert_each-IsAccepted (suc i) ls xs f)
      | inr (y, f) ↦ cc (rw (e, f, convert_each) at h)
    ]
    | inr (y, e) ↦ cc (rw (e, convert_each) at h)
  ]

  IsAccepted-convert_each :
      (i : ℕ) (ls : List SupervisorLog)
      → All IsAccepted ls
      → (o : List InternalDeviceLog) × (convert_each clock i ls ≡ ok o)
        × (length o ≡ length (own ls))
  unfolding convert_each
  IsAccepted-convert_each i [] h = ([], refl, refl)
  IsAccepted-convert_each i (l ∷ ls) (p, h) =
      let (x, e, n) = IsAccepted-convert_any (clock i) l p in
      let (xs, f, m) = IsAccepted-convert_each (suc i) ls h in
      (prepend x xs, rw (e, f, convert_each), ground arith)

  -- A batch is converted exactly if it has ten logs at most, and each has no field of the old format and is for
  -- a dependent device or has a text, a numeric time and no service id but a number.
  pub convert_logs_iff :
      (ls : List SupervisorLog)
      → ((o : List InternalDeviceLog) × (convert_logs clock ls ≡ ok o))
        ↔ ((length ls ≤ max_logs_per_batch) × All IsAccepted ls)
  unfolding convert_logs
  convert_logs_iff ls = (
    (λ (o, h). (ground arith, convert_each-IsAccepted 0 ls o (ground arith))),
    (λ (n, h). let (o, e, _) = IsAccepted-convert_each 0 ls h in (o, ground arith)),
  )

  -- A converted batch has the device's own logs, as many as there were.
  pub length-convert_logs :
      (ls : List SupervisorLog) (o : List InternalDeviceLog)
      → convert_logs clock ls ≡ ok o
      → length o ≡ length (own ls)
  unfolding convert_logs
  length-convert_logs ls o h =
      let (o', e, n) =
        IsAccepted-convert_each 0 ls (convert_each-IsAccepted 0 ls o (ground arith)) in
      ground arith
