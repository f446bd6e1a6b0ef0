-- ===== src/Replay/Health/Incidents.antt =====
-- Losses, recoveries and the incidents that they leave
-- (src/replay_inspection/presentation_health.cpp).
use ayther_runtime.Prelude.{
  ℕ, ◌+◌, ◌<◌, ◌≡◌, refl, ◌∙◌, Bool, false, not, ◌&&◌, List, [], ◌∷◌, if◌then◌else◌, arith,
}
use ayther_runtime.Prelude.Word.{u32_mod}
use ayther_runtime.Replay.Health.{
  PresentationState, lost, device_lost, unrecoverable, PresentationHealth, frame_result,
  audio_device_removed, audio_device_added, minimized, focus, poll, Report, frames, removes,
  minimizes, focuses, adds, polls, step, run, is_healthy,
}

-- A healthy presentation has no known loss.
pub record Inv (h : PresentationHealth) : Type 0 where
  pub video_ok : h.state ≡ PresentationState.healthy → h.video_lost ≡ false
  pub audio_ok : h.state ≡ PresentationState.healthy → h.audio_lost ≡ false
  pub visible : h.state ≡ PresentationState.healthy → h.is_minimized ≡ false
  pub incidents_fit : h.incidents < u32_mod

-- Whether a report takes a healthy presentation out of health.
abbrev breaks : PresentationHealth → Report → ℕ
breaks h e = if is_healthy h.state && not (is_healthy (step h e).state) then 1 else 0

-- How often a sequence of reports does.
pub outages : PresentationHealth → List Report → ℕ
outages h [] = 0
outages h (e ∷ es) = breaks h e + outages (step h e) es

step_lost :
    (h : PresentationHealth) (e : Report)
    → h.state ≡ lost
    → ((step h e).state ≡ lost)
      × ((step h e).incidents ≡ h.incidents)
      × (h.cause ≡ "device_lost" → (step h e).cause ≡ "device_lost")
unfolding step frame_result audio_device_removed audio_device_added minimized focus poll
step_lost h (frames result) l = ground arith
step_lost h (removes in_use) l = ground arith
step_lost h (minimizes value) l = ground arith
step_lost h (focuses value) l = ground arith
step_lost h adds l = ground arith
step_lost h (polls s a) l = ground arith

run_lost :
    (h : PresentationHealth) (es : List Report)
    → h.state ≡ lost
    → h.cause ≡ "device_lost"
    → ((run h es).state ≡ lost)
      × ((run h es).incidents ≡ h.incidents)
      × ((run h es).cause ≡ "device_lost")
unfolding run
run_lost h [] l c = (l, refl, c)
run_lost h (e ∷ es) l c =
    let (l', n, c') = step_lost h e l in
    let (l'', m, c'') = run_lost (step h e) es l' (c' c) in (l'', m ∙ n, c'')

poll_lost : (h : PresentationHealth) (s a : Bool) → h.state ≡ lost → (poll h s a).1 ≡ unrecoverable
unfolding poll
poll_lost h s a l = ground arith

-- A lost device cannot recover: after it no reports change the state, the cause or the number of
-- incidents, and every attempt to recover answers that it cannot.
pub device_lost_absorbs :
    (h : PresentationHealth) (es : List Report) (swapchain_ready audio_ready : Bool)
    → let h' = run h (frames device_lost ∷ es) in
      (h'.state ≡ lost)
      × (h'.cause ≡ "device_lost")
      × (h'.incidents ≡ (frame_result h device_lost).incidents)
      × ((poll h' swapchain_ready audio_ready).1 ≡ unrecoverable)
unfolding run step frame_result
device_lost_absorbs h es s a =
    let (l, n, c) = run_lost (frame_result h device_lost) es refl refl in
    (l, c, n, poll_lost (run (frame_result h device_lost) es) s a l)
