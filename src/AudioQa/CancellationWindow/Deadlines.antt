-- ===== src/AudioQa/CancellationWindow/Deadlines.antt =====
-- When a cancellation window reports a missed deadline (tools/audio_qa/cancellation_window.cpp).
use ayther_runtime.Prelude.{
  ℕ, ◌+◌, ◌≤◌, ◌<◌, ◌≡◌, ◌↔◌, refl, sym, inl, inr, Bool, true, false, Option, none, some, leb,
  if◌then◌else◌, Bool-cases, List, [], ◌∷◌, is_some, arith, All,
}
use ayther_runtime.Prelude.Word.{u64_mod}
use ayther_runtime.AudioQa.CancellationWindow.{
  CancellationWindow, CancellationTrigger, CancellationDeadlineReason,
  CancellationDeadlineDiagnostic, response_timeout, wait_timeout, new, attempt_cancel,
  observe_response, confirm_cessation, timely_response, deadline_reason, diagnose, check, Event,
  cancels, responds, ceases, step, run,
}

abbrev pub No : Option ℕ → Type 0
No o = o ≡ none

-- A time, where there is one, is a word and not before another.
abbrev pub After : Option ℕ → Option ℕ → Type 0
After none o = Unit {0}
After (some t) none = ⊥
After (some t) (some r) = (r ≤ t) × (t < u64_mod)

abbrev FromDetection : ℕ → Option ℕ → Type 0
FromDetection detected none = Unit {0}
FromDetection detected (some r) = (detected ≤ r) × (r < u64_mod)

pub record Inv (w : CancellationWindow) : Type 0 where
  pub request_after : FromDetection w.detected_ms w.requested_ms
  pub response_after : After w.response_ms w.requested_ms
  pub cessation_after : After w.cessation_ms w.requested_ms

abbrev pub IsWord : Event → Type 0
IsWord (cancels now delivered) = now < u64_mod
IsWord (responds now) = now < u64_mod
IsWord (ceases now) = now < u64_mod

-- An event that is not the end of the process and comes after a time.
abbrev pub IsLater : ℕ → Event → Type 0
IsLater now (cancels t delivered) = (now < t) × (t < u64_mod)
IsLater now (responds t) = (now < t) × (t < u64_mod)
IsLater now (ceases t) = ⊥

step-Inv : (w : CancellationWindow) (e : Event) → IsWord e → Inv w → Inv (step w e)
unfolding step attempt_cancel observe_response confirm_cessation
step-Inv w (cancels now delivered) h v = ground arith
step-Inv w (responds now) h v = ground arith
step-Inv w (ceases now) h v = ground arith

run_from-Inv : (w : CancellationWindow) (es : List Event) → All IsWord es → Inv w → Inv (run w es)
unfolding run
run_from-Inv w [] h v = v
run_from-Inv w (e ∷ es) h v = run_from-Inv (step w e) es h.1 (step-Inv w e h.0 v)

abbrev pub cancel_time : Event → Option ℕ
cancel_time (cancels now delivered) = some now
cancel_time e = none

abbrev pub response_time : Event → Option ℕ
response_time (responds now) = some now
response_time e = none

abbrev pub cessation_time : Event → Option ℕ
cessation_time (ceases now) = some now
cessation_time e = none

-- A time not before another, or else what comes later.
abbrev pub chosen : ℕ → Option ℕ → Option ℕ → Option ℕ
chosen since none rest = rest
chosen since (some now) rest = if leb since now then some now else rest

-- The first time not before another among the events of a kind.
pub first_since : (Event → Option ℕ) → ℕ → List Event → Option ℕ
first_since time since [] = none
first_since time since (e ∷ es) = chosen since (time e) (first_since time since es)

-- The first attempt to cancel, not before the detection.
abbrev pub requested_at : ℕ → List Event → Option ℕ
requested_at detected es = first_since cancel_time detected es

-- The first event of a kind after that attempt and not at an earlier time.
pub after_request : (Event → Option ℕ) → ℕ → List Event → Option ℕ
after_request time detected [] = none
after_request time detected (cancels now delivered ∷ es) =
    let rest = after_request time detected es in
    if leb detected now then first_since time now es else rest
after_request time detected (e ∷ es) = after_request time detected es

abbrev pub responded_at : ℕ → List Event → Option ℕ
responded_at detected es = after_request response_time detected es

abbrev pub ceased_at : ℕ → List Event → Option ℕ
ceased_at detected es = after_request cessation_time detected es

abbrev or_else : Option ℕ → Option ℕ → Option ℕ
or_else none o = o
or_else (some now) o = some now

-- The times a window holds.
record Holds (w : CancellationWindow) (requested response cessation : Option ℕ) : Type 0 where
  requested_held : w.requested_ms ≡ requested
  response_held : w.response_ms ≡ response
  cessation_held : w.cessation_ms ≡ cessation

requested_step :
    (w : CancellationWindow) (e : Event) (r : ℕ)
    → w.requested_ms ≡ some r
    → Holds
        (step w e)
        (some r)
        (or_else w.response_ms (chosen r (response_time e) none))
        (or_else w.cessation_ms (chosen r (cessation_time e) none))
unfolding step attempt_cancel observe_response confirm_cessation
requested_step w (cancels now delivered) r h = ground arith
requested_step w (responds now) r h = ground arith
requested_step w (ceases now) r h = ground arith

-- Once the cancellation is requested, a window holds the first response and the first end.
requested_run :
    (w : CancellationWindow) (es : List Event) (r : ℕ)
    → w.requested_ms ≡ some r
    → Holds
        (run w es)
        (some r)
        (or_else w.response_ms (first_since response_time r es))
        (or_else w.cessation_ms (first_since cessation_time r es))
unfolding run first_since
requested_run w [] r h = ground arith
requested_run w (e ∷ es) r h =
    let s = requested_step w e r h in
    let v = requested_run (step w e) es r s.requested_held in ground arith

response_unmoved :
    (w : CancellationWindow) (now : ℕ) → w.requested_ms ≡ none → step w (responds now) ≡ w
unfolding step observe_response
response_unmoved w now h = rw h refl

cessation_unmoved :
    (w : CancellationWindow) (now : ℕ) → w.requested_ms ≡ none → step w (ceases now) ≡ w
unfolding step confirm_cessation
cessation_unmoved w now h = rw h refl

attempt_moved :
    (w : CancellationWindow) (now : ℕ) (delivered : Bool)
    → Holds w none none none
    → leb w.detected_ms now ≡ true
    → Holds (step w (cancels now delivered)) (some now) none none
unfolding step attempt_cancel
attempt_moved w now delivered h l = ground arith

attempt_unmoved :
    (w : CancellationWindow) (now : ℕ) (delivered : Bool)
    → Holds w none none none
    → leb w.detected_ms now ≡ false
    → step w (cancels now delivered) ≡ w
unfolding step attempt_cancel
attempt_unmoved w now delivered h l = ground arith

-- Until then, it holds nothing.
unrequested_run :
    (w : CancellationWindow) (es : List Event)
    → Holds w none none none
    → Holds
        (run w es)
        (requested_at w.detected_ms es)
        (responded_at w.detected_ms es)
        (ceased_at w.detected_ms es)
unfolding run first_since after_request
unrequested_run w [] h = ground arith
unrequested_run w (cancels now delivered ∷ es) h = elim (Bool-cases (leb w.detected_ms now)) [
  | inl l ↦
      let s = attempt_moved w now delivered h l in
      let v = requested_run (step w (cancels now delivered)) es now s.requested_held in ground arith
  | inr l ↦
      let v = unrequested_run w es h in rw (attempt_unmoved w now delivered h l) (ground arith)
]
unrequested_run w (responds now ∷ es) h =
    rw (response_unmoved w now h.requested_held) (unrequested_run w es h)
unrequested_run w (ceases now ∷ es) h =
    rw (cessation_unmoved w now h.requested_held) (unrequested_run w es h)

-- The cancellation was requested, has waited for so long, and the process has not ceased.
abbrev pub Waits : Option ℕ → Option ℕ → ℕ → ℕ → Type 0
Waits none cessation now waited = ⊥
Waits (some requested) cessation now waited = (requested + waited ≤ now) × (cessation ≡ none)

-- No response came within 2 s of the request.
abbrev pub Late : Option ℕ → Option ℕ → Type 0
Late none o = Unit {0}
Late (some response) none = ⊥
Late (some response) (some requested) = requested + 2000 < response

abbrev pub reason_of : Option CancellationDeadlineDiagnostic → Option CancellationDeadlineReason
reason_of none = none
reason_of (some d) = some d.reason

module _ (w : CancellationWindow) (now : ℕ) (h : now < u64_mod) (v : Inv w) where
  check_wait :
      (reason_of (check w now) ≡ some wait_timeout) ↔ Waits w.requested_ms w.cessation_ms now 5000
  unfolding check diagnose deadline_reason timely_response
  check_wait = (λ e. ground arith, λ o. ground arith)

  check_response : (reason_of (check w now) ≡ some response_timeout) ↔ (
      Waits w.requested_ms w.cessation_ms now 2000
      × Late w.response_ms w.requested_ms
      × (¬ Waits w.requested_ms w.cessation_ms now 5000))
  unfolding check diagnose deadline_reason timely_response
  check_response = (λ e. (ground arith, ground arith, λ o. ground arith), λ o. ground arith)

-- After any events, a check reports a wait timeout exactly if the process has not ceased 5 s after
-- the request, and a response timeout exactly if it has not ceased 2 s after the request, no
-- response came within those 2 s and the 5 s have not passed. The request is the first attempt that
-- is not before the detection, and the response and the end of the process are the first events of
-- their kinds after it that are not at an earlier time.
pub check_deadlines :
    (trigger : CancellationTrigger) (detected now : ℕ) (es : List Event)
    → now < u64_mod
    → All IsWord es
    → let w = run (new trigger detected) es in
      ((reason_of (check w now) ≡ some wait_timeout)
        ↔ Waits (requested_at detected es) (ceased_at detected es) now 5000)
      × ((reason_of (check w now) ≡ some response_timeout) ↔ (
          Waits (requested_at detected es) (ceased_at detected es) now 2000
          × Late (responded_at detected es) (requested_at detected es)
          × (¬ Waits (requested_at detected es) (ceased_at detected es) now 5000)))
unfolding new
check_deadlines trigger detected now es h k =
    let w = run (new trigger detected) es in
    let v = run_from-Inv (new trigger detected) es k (ground arith) in
    let s = unrequested_run (new trigger detected) es (ground arith) in
    rw (sym s.requested_held, sym s.response_held, sym s.cessation_held)
      (check_wait w now h v, check_response w now h v)

module _ (now : ℕ) (h : now < u64_mod) where
  overdue_step :
      (w : CancellationWindow) (e : Event)
      → IsLater now e
      → Inv w
      → is_some (check w now) ≡ true
      → is_some (check (step w e) now) ≡ true
  unfolding check diagnose deadline_reason timely_response step attempt_cancel observe_response
      confirm_cessation
  overdue_step w (cancels t delivered) k v o = ground arith
  overdue_step w (responds t) k v o = ground arith
  overdue_step w (ceases t) k v o = absurd k

  IsLater-IsWord : (e : Event) → IsLater now e → IsWord e
  IsLater-IsWord (cancels t delivered) k = k.1
  IsLater-IsWord (responds t) k = k.1
  IsLater-IsWord (ceases t) k = absurd k

  overdue_run :
      (w : CancellationWindow) (es : List Event)
      → All (IsLater now) es
      → Inv w
      → is_some (check w now) ≡ true
      → (is_some (check (run w es) now) ≡ true) × Inv (run w es)
  unfolding run
  overdue_run w [] k v o = (o, v)
  overdue_run w (e ∷ es) k v o =
      overdue_run (step w e) es k.1 (step-Inv w e (IsLater-IsWord e k.0) v)
        (overdue_step w e k.0 v o)

  overdue_later :
      (w : CancellationWindow) (later : ℕ)
      → now ≤ later
      → later < u64_mod
      → Inv w
      → is_some (check w now) ≡ true
      → is_some (check w later) ≡ true
  unfolding check diagnose deadline_reason timely_response
  overdue_later w later l k v o = ground arith

-- A missed deadline stays missed: what a check reported at a time is still reported at every later
-- time, after any attempts and responses that come after the report, unless the end of the process
-- was confirmed.
pub overdue_persists :
    (trigger : CancellationTrigger) (detected now later : ℕ) (es fs : List Event)
    → now ≤ later
    → later < u64_mod
    → All IsWord es
    → All (IsLater now) fs
    → is_some (check (run (new trigger detected) es) now) ≡ true
    → is_some (check (run (run (new trigger detected) es) fs) later) ≡ true
unfolding new
overdue_persists trigger detected now later es fs l h k m o =
    let w = run (new trigger detected) es in
    let v = run_from-Inv (new trigger detected) es k (ground arith) in
    let p = overdue_run now (omega arith) w fs m v o in
    overdue_later now (omega arith) (run w fs) later l h p.1 p.0
