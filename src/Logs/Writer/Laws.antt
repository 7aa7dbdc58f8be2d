-- ===== src/Logs/Writer/Laws.antt =====
-- The stream of logs of src/features/device-logs/lib/store.ts, while events arrive in any order.
use open_balena_api.Base.{
  ℕ, zero, suc, ◌+◌, ◌-◌, ◌≤◌, ◌<◌, ◌≡◌, refl, true, false, List, [], ◌∷◌, ◌++◌, length, drop, All,
  All-append, if◌then◌else◌, arith, length-append, length-drop, ◌∙◌,
}
use open_balena_api.Logs.{InternalDeviceLog, rate_limiting}
use open_balena_api.Logs.Writer.{Writer, trim, Event, line, timer, answer, step, run}

-- The flag is set while a timer is set, a batch is awaited or a publish has failed, of which there is
-- one at most; and logs wait in the buffer only while the flag is set.
pub record IsScheduled (w : Writer) : Type 0 where
  pub idle :
      w.publish_scheduled ≡ false
      → (w.timers ≡ 0) × (w.in_flight ≡ 0) × (w.failed ≡ false) × (w.buffer ≡ [])
  pub busy : w.publish_scheduled ≡ true → w.timers + w.in_flight + (if w.failed then 1 else 0) ≡ 1

module _ (limit : ℕ) where
  step-IsScheduled : (e : Event) (w : Writer) → IsScheduled w → IsScheduled (step limit w e)
  unfolding step
  step-IsScheduled (line a l) w h = ground (arith, h.idle, h.busy)
  step-IsScheduled (timer a) w h = ground (arith, h.idle, h.busy)
  step-IsScheduled (answer a) w h = ground (arith, h.idle, h.busy)

  -- However the events of a stream interleave, a publish is scheduled, awaited or failed while logs
  -- wait in the buffer, one of the three at a time, and none where nothing was scheduled.
  pub run-IsScheduled :
      (es : List Event) (w : Writer) → IsScheduled w → IsScheduled (run limit w es)
  unfolding run
  run-IsScheduled [] w h = h
  run-IsScheduled (e ∷ es) w h = run-IsScheduled es (step limit w e) (step-IsScheduled e w h)

  step-failed :
      (e : Event) (w : Writer)
      → IsScheduled w
      → w.failed ≡ true
      → ((step limit w e).handed_over ≡ w.handed_over) × ((step limit w e).failed ≡ true)
  unfolding step
  step-failed (line a l) w h f = ground (arith, h.idle, h.busy)
  step-failed (timer a) w h f = ground (arith, h.idle, h.busy)
  step-failed (answer a) w h f = ground (arith, h.idle, h.busy)

  -- After a publish has failed the stream publishes nothing more, although it may go on buffering.
  pub run-failed :
      (es : List Event) (w : Writer)
      → IsScheduled w
      → w.failed ≡ true
      → (run limit w es).handed_over ≡ w.handed_over
  unfolding run
  run-failed [] w h f = refl
  run-failed (e ∷ es) w h f =
      let (p, f') = step-failed e w h f in
      run-failed es (step limit w e) (step-IsScheduled e w h) f' ∙ p

  -- A buffer over the limit is published with one entry more than the limit, the warning; a buffer
  -- within it as it is.
  pub length-trim :
      (l : InternalDeviceLog) (ls : List InternalDeviceLog)
      → (limit < length (l ∷ ls) → length (trim limit (l ∷ ls)) ≡ limit + 1)
        × (length (l ∷ ls) ≤ limit → trim limit (l ∷ ls) ≡ l ∷ ls)
  unfolding trim
  length-trim l ls =
      ((λ h. ground (arith, length-drop (length (l ∷ ls) - limit) (l ∷ ls))), (λ h. ground arith))

-- How many logs an entry of a batch tells of: itself, or as many as its warning names.
abbrev pub told : InternalDeviceLog → ℕ
told l = elim l.message [ rate_limiting n ↦ n | _ ↦ 1 ]

abbrev pub told_all : List InternalDeviceLog → ℕ
told_all [] = 0
told_all (l ∷ ls) = told l + told_all ls

abbrev pub told_batches : List (List InternalDeviceLog) → ℕ
told_batches [] = 0
told_batches (b ∷ bs) = told_all b + told_batches bs

told_batches-append :
    (bs : List (List InternalDeviceLog)) (b : List InternalDeviceLog)
    → told_batches (bs ++ b ∷ []) ≡ told_batches bs + told_all b
told_batches-append [] b = omega arith
told_batches-append (x ∷ bs) b = omega (arith, told_batches-append bs b)

abbrev pub IsOrdinary : InternalDeviceLog → Type 0
IsOrdinary l = told l ≡ 1

told_all_ordinary : (ls : List InternalDeviceLog) → All IsOrdinary ls → told_all ls ≡ length ls
told_all_ordinary [] h = refl
told_all_ordinary (l ∷ ls) (p, h) = omega (arith, told_all_ordinary ls h, p)

All-drop : (n : ℕ) (ls : List InternalDeviceLog) → All IsOrdinary ls → All IsOrdinary (drop n ls)
All-drop zero ls h = h
All-drop (suc n) [] h = tt
All-drop (suc n) (l ∷ ls) (p, h) = All-drop n ls h

module _ (limit : ℕ) where
  told_all-trim :
      (ls : List InternalDeviceLog) → All IsOrdinary ls → told_all (trim limit ls) ≡ length ls
  unfolding trim
  told_all-trim [] h = refl
  told_all-trim (l ∷ ls) h =
      let n = length (l ∷ ls) - limit in
      ground (
        arith,
        told_all_ordinary (drop n (l ∷ ls)) (All-drop n (l ∷ ls) h),
        told_all_ordinary (l ∷ ls) h,
        length-drop n (l ∷ ls),
      )

  -- The logs that a stream was given, as the batches and the buffer tell of them.
  abbrev pub accounted : Writer → ℕ
  accounted w = told_batches w.handed_over + length w.buffer

  abbrev pub given : Event → ℕ
  given (line a l) = 1
  given _ = 0

  abbrev pub GivesOrdinary : Event → Type 0
  GivesOrdinary (line a l) = IsOrdinary l
  GivesOrdinary _ = Unit

  step-accounted :
      (e : Event) (w : Writer)
      → GivesOrdinary e
      → All IsOrdinary w.buffer
      → (accounted (step limit w e) ≡ accounted w + given e)
        × All IsOrdinary (step limit w e).buffer
  unfolding step
  step-accounted (line a l) w o h =
      ground (arith, length-append w.buffer (l ∷ []), All-append IsOrdinary w.buffer (l ∷ []) h)
  step-accounted (timer a) w o h =
      ground
        (arith, told_batches-append w.handed_over (trim limit w.buffer), told_all-trim w.buffer h)
  step-accounted (answer a) w o h = ground arith

  abbrev pub count_given : List Event → ℕ
  count_given [] = 0
  count_given (e ∷ es) = given e + count_given es

  -- Where no log that a stream is given or has in its buffer is itself a warning of this kind: with
  -- every log that the stream is given the sum of three numbers grows by one, that of the logs in
  -- the buffer, that of the logs in the batches that the backend was given, and that of the logs
  -- counted in the warnings of these batches. Whether the backend then succeeds with a batch is
  -- left open.
  pub run-told :
      (es : List Event) (w : Writer)
      → All GivesOrdinary es
      → All IsOrdinary w.buffer
      → accounted (run limit w es) ≡ accounted w + count_given es
  unfolding run
  run-told [] w o h = omega arith
  run-told (e ∷ es) w (o, os) h =
      let (a, h') = step-accounted e w o h in omega (arith, run-told es (step limit w e) os h', a)
