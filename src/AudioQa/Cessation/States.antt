-- ===== src/AudioQa/Cessation/States.antt =====
-- What holds of a process that ends (tools/audio_qa/process_cessation.cpp).
use text.Mathlib.TextEquality.{eq_iff}
use ayther_runtime.Prelude.{
  ℕ, ◌≤◌, ◌≡◌, refl, false, Option, none, some, List, [], ◌∷◌, arith, is_some,
}
use ayther_runtime.Prelude.Int.{ℤ}
use ayther_runtime.AudioQa.Cessation.{
  ProcessCessationState, connected, disconnected, stop_requested, unconfirmed, confirmed, Run,
  Status, is_confirmed, new, observe_run, observe_disconnect, request_stop, mark_unconfirmed,
  confirm_exit, Event, observes, disconnects, stops, gives_up, exits, step, run_all,
}

-- The states follow one another in this order; the exit can be confirmed from each.
abbrev pub rank : ProcessCessationState → ℕ
rank connected = 0
rank disconnected = 1
rank stop_requested = 2
rank unconfirmed = 3
rank confirmed = 4

module _ {Detail : Type 0} where
  abbrev pub SameRun : Run Detail → Run Detail → Type 0
  SameRun r q = (r.run_id ≡ q.run_id) × (r.request_id ≡ q.request_id) × (r.take_id ≡ q.take_id)

  -- The first exit that is reported.
  abbrev pub first_exit : List (Event Detail) → Option ℤ
  first_exit [] = none
  first_exit (exits code ∷ es) = some code
  first_exit (e ∷ es) = first_exit es

  rank-step : (s : Status Detail) (e : Event Detail) → rank s.state ≤ rank (step s e).state
  unfolding step observe_run observe_disconnect request_stop mark_unconfirmed confirm_exit
  rank-step s (observes run) = ground arith
  rank-step s disconnects = ground arith
  rank-step s stops = ground arith
  rank-step s gives_up = ground arith
  rank-step s (exits code) = ground arith

  run_rank :
      (s : Status Detail) (es : List (Event Detail)) → rank s.state ≤ rank (run_all s es).state
  unfolding run_all
  run_rank s [] = omega arith
  run_rank s (e ∷ es) = omega (arith, rank-step s e, run_rank (step s e) es)

  observe_same :
      (s : Status Detail) (run : Run Detail)
      → SameRun (observe_run s run).0.last_known_run s.last_known_run
  unfolding observe_run
  observe_same s run = ground (
    arith,
    (eq_iff run.run_id s.last_known_run.run_id).0,
    (eq_iff run.request_id s.last_known_run.request_id).0,
    (eq_iff run.take_id s.last_known_run.take_id).0,
  )

  step_same :
      (s : Status Detail) (e : Event Detail) → SameRun (step s e).last_known_run s.last_known_run
  unfolding step observe_disconnect request_stop mark_unconfirmed confirm_exit
  step_same s (observes run) = observe_same s run
  step_same s disconnects = ground arith
  step_same s stops = ground arith
  step_same s gives_up = ground arith
  step_same s (exits code) = ground arith

  run_same :
      (s : Status Detail) (es : List (Event Detail))
      → SameRun (run_all s es).last_known_run s.last_known_run
  unfolding run_all
  run_same s [] = (refl, refl, refl)
  run_same s (e ∷ es) = ground (arith, run_same (step s e) es, step_same s e)

  step_confirmed : (s : Status Detail) (e : Event Detail) → s.state ≡ confirmed → step s e ≡ s
  unfolding step observe_run observe_disconnect request_stop mark_unconfirmed confirm_exit
  step_confirmed s (observes run) h = ground arith
  step_confirmed s disconnects h = ground arith
  step_confirmed s stops h = ground arith
  step_confirmed s gives_up h = ground arith
  step_confirmed s (exits code) h = ground arith

  run_confirmed :
      (s : Status Detail) (es : List (Event Detail)) → s.state ≡ confirmed → run_all s es ≡ s
  unfolding run_all
  run_confirmed s [] h = refl
  run_confirmed s (e ∷ es) h = rw (step_confirmed s e h) (run_confirmed s es h)

  -- Where the exit is not confirmed there is no exit code.
  abbrev Running : Status Detail → Type 0
  Running s = (is_confirmed s.state ≡ false) × (s.exit_code ≡ none)

  run_exit :
      (s : Status Detail) (es : List (Event Detail))
      → Running s
      → ((run_all s es).exit_code ≡ first_exit es)
        × (is_confirmed (run_all s es).state ≡ is_some (first_exit es))
  unfolding run_all step observe_run observe_disconnect request_stop mark_unconfirmed confirm_exit
  run_exit s [] h = ground arith
  run_exit s (exits code ∷ es) h =
      ground (arith, run_confirmed (step s (exits code)) es (ground arith))
  run_exit s (observes run ∷ es) h = run_exit (step s (observes run)) es (ground arith)
  run_exit s (disconnects ∷ es) h = run_exit (step s disconnects) es (ground arith)
  run_exit s (stops ∷ es) h = run_exit (step s stops) es (ground arith)
  run_exit s (gives_up ∷ es) h = run_exit (step s gives_up) es (ground arith)

-- After any events the exit is confirmed exactly if an exit was reported, and the exit code is that
-- of the first report, whatever came later; the run is still the one observed at first, by its
-- identity, its request and its take.
pub exit_is_first :
    {Detail : Type 0} (run : Run Detail) (es : List (Event Detail))
    → let s = run_all (new run) es in
      (s.exit_code ≡ first_exit es)
      × (is_confirmed s.state ≡ is_some (first_exit es))
      × SameRun s.last_known_run run
unfolding new
exit_is_first run es =
    let x = run_exit (new run) es (ground arith) in (x.0, x.1, run_same (new run) es)

-- The states only move forward: connected, disconnected, stop requested, unconfirmed, X
pub cessation_moves_forward :
    {Detail : Type 0} (run : Run Detail) (es fs : List (Event Detail))
    → rank (run_all (new run) es).state ≤ rank (run_all (run_all (new run) es) fs).state
cessation_moves_forward run es fs = run_rank (run_all (new run) es) fs
