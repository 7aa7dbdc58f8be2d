-- ===== src/Logs/Reader/Laws.antt =====
-- What a client of src/features/device-logs/lib/read.ts receives.
use open_balena_api.Base.{
  ℕ, ◌+◌, ◌-◌, last, ◌≤◌, ◌<◌, ◌≡◌, refl, ◌≢◌, ◌⊎◌, ltb, Bool, true, false, some, List, [], ◌∷◌,
  ◌++◌, map, length, keep, All, arith, length-append, length-drop, ◌∙◌,
}
use mathlib.Core.List.{append_assoc, append-nil}
use open_balena_api.Logs.{
  OutputDeviceLog, slow_reading, buffering, flushing, writable, saturated, closed,
}
use open_balena_api.Logs.Reader.{
  Chunk, line, blank, Reader, warning, newer, retain, merge, on_log, close, send_each, on_history,
  Event, arrives, drains, beats, finishes, step, run, created_or_zero,
}

-- Logs in the order of their creation.
abbrev pub IsSorted : List OutputDeviceLog → Type 0
IsSorted [] = Unit
IsSorted (l ∷ ls) = All (λ m. l.created_at ≤ m.created_at) ls × IsSorted ls

keep-All :
    (after : ℕ) (l : ℕ) (ls : List OutputDeviceLog)
    → after < l
    → All (λ m. l ≤ m.created_at) ls
    → keep (λ m. ltb after m.created_at) ls ≡ ls
keep-All after l [] h k = refl
keep-All after l (m ∷ ls) h (p, k) = ground (arith, keep-All after l ls h k)

-- Of a buffer in the order of creation, exactly the logs after the date go out.
pub newer-eq-keep :
    (after : ℕ) (ls : List OutputDeviceLog)
    → IsSorted ls
    → newer after ls ≡ keep (λ m. ltb after m.created_at) ls
unfolding newer
newer-eq-keep after [] h = refl
newer-eq-keep after (l ∷ ls) (p, h) =
    ground (arith, newer-eq-keep after ls h, keep-All after l.created_at ls)

retain_le : (limit : ℕ) (ls : List OutputDeviceLog) → limit ≢ 0 → length (retain limit ls) ≤ limit
unfolding retain
retain_le limit ls h = ground (arith, length-drop (length ls - limit) ls)

merge_le : (limit : ℕ) (h b : List OutputDeviceLog) → limit ≢ 0 → length (merge limit h b) ≤ limit
unfolding merge
merge_le limit h b p = retain_le limit (h ++ newer (created_or_zero (last h)) b) p

module _ (accepts : ℕ → Bool) where
  send_each-flushing :
      (ls : List OutputDeviceLog) (r : Reader)
      → r.state ≡ flushing
      → send_each accepts ls r ≡ record r { sent = r.sent ++ map line ls }
  unfolding send_each
  send_each-flushing [] r h = ground (arith, append-nil r.sent)
  send_each-flushing (l ∷ ls) r h =
      send_each-flushing ls (on_log accepts l r) (ground arith)
      ∙ ground (arith, append_assoc r.sent (line l ∷ []) (map line ls))

  closed-step :
      (e : Event) (r : Reader)
      → r.state ≡ closed
      → ((step accepts r e).state ≡ closed)
        × ((step accepts r e).sent ≡ r.sent)
        × ((step accepts r e).subscribed ≡ r.subscribed)
  unfolding step
  closed-step (arrives l) r h = ground arith
  closed-step (drains now) r h = ground arith
  closed-step beats r h = ground arith
  closed-step finishes r h = ground arith

  on_history-sent_lem :
      (limit : ℕ) (history : List OutputDeviceLog) (r : Reader)
      → r.state ≡ buffering
      → on_history accepts limit (some history) r ≡ record r {
        state = writable;
        buffer = [];
        sent = r.sent ++ map line (merge limit history r.buffer);
      }
  unfolding on_history
  on_history-sent_lem limit history r h = ground (
    arith,
    send_each-flushing (merge limit history r.buffer) (record r { state = flushing; buffer = [] })
        refl,
  )

  run-closed :
      (es : List Event) (r : Reader)
      → r.state ≡ closed
      → ((run accepts r es).sent ≡ r.sent) × ((run accepts r es).subscribed ≡ r.subscribed)
  unfolding run
  run-closed [] r h = (refl, refl)
  run-closed (e ∷ es) r h =
      let (c, s, u) = closed-step e r h in
      let (s', u') = run-closed es (step accepts r e) c in (s' ∙ s, u' ∙ u)

-- How many logs a chunk tells of: itself, or as many as its warning names.
abbrev pub told : Chunk → ℕ
told blank = 0
told (line l) = elim l.message [ slow_reading n ↦ n | _ ↦ 1 ]

abbrev pub told_all : List Chunk → ℕ
told_all [] = 0
told_all (c ∷ cs) = told c + told_all cs

told_all-append : (xs : List Chunk) (c : Chunk) → told_all (xs ++ c ∷ []) ≡ told_all xs + told c
told_all-append [] c = omega arith
told_all-append (x ∷ xs) c = omega (arith, told_all-append xs c)

-- The logs of which a client has been told or will be: sent, named in a warning, counted for the next
-- warning, or kept for the time after the history.
abbrev pub accounted : Reader → ℕ
accounted r = told_all r.sent + r.dropped + length r.buffer

-- Logs are dropped only for a client that is saturated, and may then have gone.
abbrev pub DropsSaturated : Reader → Type 0
DropsSaturated r = (r.dropped ≢ 0) → (r.state ≡ saturated) ⊎ (r.state ≡ closed)

abbrev pub IsOrdinary : Event → Type 0
IsOrdinary (arrives l) = told (line l) ≡ 1
IsOrdinary _ = Unit

abbrev pub arrived : Event → ℕ
arrived (arrives l) = 1
arrived _ = 0

abbrev pub count_arrived : List Event → ℕ
count_arrived [] = 0
count_arrived (e ∷ es) = arrived e + count_arrived es

abbrev pub finished : Event → Bool
finished finishes = true
finished _ = false

module _ (accepts : ℕ → Bool) where
  step-accounted :
      (e : Event) (r : Reader)
      → IsOrdinary e
      → DropsSaturated r
      → r.state ≢ closed
      → (accounted (step accepts r e) ≡ accounted r + arrived e) × DropsSaturated (step accepts r e)
  unfolding step
  step-accounted (arrives l) r o d h =
      ground (arith, told_all-append r.sent (line l), length-append r.buffer (l ∷ []))
  step-accounted (drains now) r o d h = ground (
    arith,
    told_all-append r.sent (line (warning now r.dropped)),
    length-append r.buffer ((warning now r.dropped) ∷ []),
  )
  step-accounted beats r o d h = ground (arith, told_all-append r.sent blank)
  step-accounted finishes r o d h = ground arith

  step-open :
      (e : Event) (r : Reader)
      → finished e ≡ false
      → r.state ≢ closed
      → (step accepts r e).state ≢ closed
  unfolding step
  step-open (arrives l) r f h = ground arith
  step-open (drains now) r f h = ground arith
  step-open beats r f h = ground arith
  step-open finishes r f h = cc

  -- In a run of events without the arrival of the history and without the end of the client, be it
  -- before the history or after it: as many logs more are sent, buffered, counted for the next
  -- warning or named in a warning that was sent, as have arrived. The client has not gone before
  -- and has logs counted only if it is saturated, and no log that arrives is itself a warning of
  -- this kind.
  pub run-accounted :
      (es : List Event) (r : Reader)
      → All IsOrdinary es
      → All (λ e. finished e ≡ false) es
      → DropsSaturated r
      → r.state ≢ closed
      → accounted (run accepts r es) ≡ accounted r + count_arrived es
  unfolding run
  run-accounted [] r o f d h = omega arith
  run-accounted (e ∷ es) r (o, os) (f, fs) d h =
      let (a, d') = step-accounted e r o d h in
      omega (arith, run-accounted es (step accepts r e) os fs d' (step-open e r f h), a)

  -- A client that is still waiting for its history is sent all of it that the limit leaves, and behind
  -- it the buffered logs from the first on that is newer, whether it reads fast enough or not; it is
  -- sent no more logs than the retention limit, where there is one.
  pub on_history-sent :
      (limit : ℕ) (history : List OutputDeviceLog) (r : Reader)
      → r.state ≡ buffering
      → (on_history accepts limit (some history) r ≡ record r {
        state = writable;
        buffer = [];
        sent = r.sent ++ map line (merge limit history r.buffer);
      })
        × (limit ≢ 0 → length (merge limit history r.buffer) ≤ limit)
  on_history-sent limit history r h =
      (on_history-sent_lem accepts limit history r h, merge_le limit history r.buffer)

  -- A client that has gone is unsubscribed, and is sent nothing more whatever happens.
  pub run-close :
      (es : List Event) (r : Reader)
      → r.state ≢ closed
      → ((run accepts (close accepts r) es).sent ≡ r.sent)
        × ((run accepts (close accepts r) es).subscribed ≡ false)
  unfolding close
  run-close es r h =
      let (s, u) = run-closed accepts es (close accepts r) (ground arith) in
      (s ∙ ground arith, u ∙ ground arith)
