-- ===== src/AudioQa/ReplayLoop/Frames.antt =====
-- The engine has the recorded inputs, each once and in order (tools/audio_qa/recording_replay_loop.cpp
-- with recording_input_source.cpp).
use mathlib.Core.Path.{subst}
use ayther_runtime.Prelude.{
  ℕ, suc, ◌≡◌, inl, inr, refl, sym, ap, ◌∙◌, true, Option, List, [], ◌∷◌, ◌++◌, arith, length, All,
}
use ayther_runtime.AudioQa.Progress.{Publisher}
use ayther_runtime.AudioQa.Recording.Layout.{RecordingLayout}
use ayther_runtime.AudioQa.Recording.Input.{make_recording_input_source}
use ayther_runtime.AudioQa.Recording.Input.Sequence.{
  IsMask, Stands, Fits, holds, made-Stands, length_end,
}
use ayther_runtime.AudioQa.Publication.{InitialStatePublication}
use ayther_runtime.AudioQa.ReplayLoop.{
  RecordingReplayLoop, ReplayFrameOperations, EngineCall, Execution, goes_on, start_progress,
  execute_next, new, calls,
}
use ayther_runtime.AudioQa.ReplayLoop.Outcome.{
  script, IsPrefix, Outcome, execution_cases, after_input-Outcome, no_calls-IsPrefix, stays-Stands,
}

failed_quiet :
    (loop : RecordingReplayLoop) (os : List ReplayFrameOperations)
    → loop.failed ≡ true
    → calls loop os ≡ []
unfolding calls execute_next
failed_quiet loop [] f = refl
failed_quiet loop (o ∷ os) f =
    let e : execute_next loop o ≡ goes_on loop (execute_next loop o).result [] = ground arith in
    ap (λ (x : Execution). x.calls ++ calls x.loop os) e ∙ failed_quiet loop os f

no_more : (xs ys zs : List EngineCall) → ys ≡ [] → IsPrefix xs zs → IsPrefix (xs ++ ys) zs
no_more [] ys zs e p = no_calls-IsPrefix ys zs e
no_more (x ∷ xs) ys [] e p = p
no_more (x ∷ xs) ys (z ∷ zs) e p = (p.0, no_more xs ys zs e p.1)

keeps_on :
    (xs ys zs : List EngineCall) (i j : EngineCall)
    → xs ≡ i ∷ j ∷ []
    → IsPrefix ys zs
    → IsPrefix (xs ++ ys) (i ∷ j ∷ zs)
keeps_on xs ys zs i j e p = subst (λ us. IsPrefix (us ++ ys) (i ∷ j ∷ zs)) (sym e) (refl, (refl, p))

quiet_then : (xs ys zs : List EngineCall) → xs ≡ [] → IsPrefix ys zs → IsPrefix (xs ++ ys) zs
quiet_then xs ys zs e p = subst (λ us. IsPrefix (us ++ ys) zs) (sym e) p

module _ (loop : RecordingReplayLoop) (o : ReplayFrameOperations) where
  execute-Outcome :
      (done rest : List ℕ)
      → Stands loop.inputs done rest
      → All IsMask rest
      → Outcome (execute_next loop o) done rest
  execute-Outcome done rest v h = elim (execution_cases loop o) [
    | inl (n, inl f) ↦ inl (f, no_calls-IsPrefix _ _ n)
    | inl (n, inr s) ↦ inr (inl (n, stays-Stands _ _ done rest s.0 v))
    | inr e ↦
        subst (λ x. Outcome x done rest) (sym e)
          (after_input-Outcome (record loop { progress = (start_progress loop.progress).0 }) o done
            rest v h)
  ]

-- The calls of any executions, from a loop that has the inputs of some masks before it.
calls-IsPrefix :
    (loop : RecordingReplayLoop) (os : List ReplayFrameOperations) (done rest : List ℕ)
    → Stands loop.inputs done rest
    → All IsMask rest
    → IsPrefix (calls loop os) (script (length done) rest)
unfolding calls
calls-IsPrefix loop [] done rest v h = tt
calls-IsPrefix loop (o ∷ os) done [] v h =
    let e = execute_next loop o in
    elim (execute-Outcome loop o done [] v h) [
      | inl (f, p) ↦ no_more e.calls (calls e.loop os) _ (failed_quiet e.loop os f) p
      | inr (inl (n, w)) ↦
          quiet_then e.calls (calls e.loop os) _ n (calls-IsPrefix e.loop os done [] w h)
      | inr (inr w) ↦ absurd w
    ]
calls-IsPrefix loop (o ∷ os) done (mask ∷ rest) v h =
    let e = execute_next loop o in
    elim (execute-Outcome loop o done (mask ∷ rest) v h) [
      | inl (f, p) ↦ no_more e.calls (calls e.loop os) _ (failed_quiet e.loop os f) p
      | inr (inl (n, w)) ↦
          quiet_then e.calls (calls e.loop os) _ n (calls-IsPrefix e.loop os done (mask ∷ rest) w h)
      | inr (inr (c, w)) ↦
          keeps_on e.calls (calls e.loop os) (script (suc (length done)) rest) _ _ c (
            subst (λ k. IsPrefix (calls e.loop os) (script k rest)) (length_end done mask)
              (calls-IsPrefix e.loop os (done ++ (mask ∷ [])) rest w h.1))
    ]

-- For a take that stores the buttons of 1 to 54,000 frames where its layout says: whatever the
-- engine answers, whatever the publication and the progress are, and however often the loop is
-- executed, the calls that the engine receives are a beginning of one script, which for each frame
-- of the take in turn sets exactly the recorded buttons and then steps once. No input is skipped,
-- repeated or changed.
pub engine_follows_take :
    (before masks after : List ℕ) (layout : RecordingLayout) (publication : InitialStatePublication)
    (progress : Option Publisher) (os : List ReplayFrameOperations)
    → Fits before masks layout
    → let source = (make_recording_input_source (holds before masks after) layout).source in
      IsPrefix (calls (new publication source progress) os) (script 0 masks)
unfolding new
engine_follows_take before masks after layout publication progress os f =
    calls-IsPrefix
      (new publication (make_recording_input_source (holds before masks after) layout).source
        progress)
      os [] masks (made-Stands before masks after layout f) f.are_masks
