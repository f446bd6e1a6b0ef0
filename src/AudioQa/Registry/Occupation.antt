-- ===== src/AudioQa/Registry/Occupation.antt =====
-- A session has one run until that run has ceased (tools/audio_qa/session_occupancy.cpp).
use text.Mathlib.Text.{◌==◌ as str_eq}
use ayther_runtime.Prelude.{◌≡◌, refl, ap, ◌∙◌, true, false, ◌&&◌, List, [], ◌∷◌, arith, All}
use Prim.Native.String.{String}
use ayther_runtime.AudioQa.Lifecycle.{Run}
use ayther_runtime.AudioQa.Registry.{Request, SessionOccupancy, is_closed, occupied, admit, observe}

pub data Event : Type 0 where
  admits : Request → String → Event
  observes : Run → Event

pub step : SessionOccupancy → Event → SessionOccupancy
unfolding admit observe
step s (admits request run_id) = (admit s request run_id).0
step s (observes run) = (observe s run).0

pub run : SessionOccupancy → List Event → SessionOccupancy
run s [] = s
run s (e ∷ es) = run (step s e) es

-- An event that is not the end of a run: its close with its cessation confirmed.
abbrev pub EndsNot : SessionOccupancy → Event → Type 0
EndsNot s (admits request run_id) = Unit {0}
EndsNot s (observes r) =
    (str_eq r.request_id s.request_id
      && (str_eq r.run_id s.run_id && (is_closed r.phase && r.cessation_confirmed)))
    ≡ false

step_keeps : (s : SessionOccupancy) (e : Event) → occupied s ≡ true → EndsNot s e → step s e ≡ s
unfolding step admit observe occupied
step_keeps s (admits request run_id) o h = ground arith
step_keeps s (observes r) o h = ground arith

-- From the moment a session has a run, no admission and no report takes the session from it, except
-- the report that this very run is closed and its cessation confirmed: after any events but that one,
-- the session still has the same request and run.
pub occupied_until_ceased :
    (s : SessionOccupancy) (es : List Event) → occupied s ≡ true → All (EndsNot s) es → run s es ≡ s
unfolding run
occupied_until_ceased s [] o h = refl
occupied_until_ceased s (e ∷ es) o h =
    let k = step_keeps s e o h.0 in ap (λ t. run t es) k ∙ occupied_until_ceased s es o h.1
