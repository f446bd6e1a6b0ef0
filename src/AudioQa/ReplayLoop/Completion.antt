-- ===== src/AudioQa/ReplayLoop/Completion.antt =====
-- A replay that is not disturbed runs to its end (tools/audio_qa/recording_replay_loop.cpp).
use mathlib.Core.Path.{subst}
use ayther_runtime.Prelude.{
  ℕ, suc, ◌+◌, ◌≤◌, ◌≡◌, inr, refl, sym, ap, ◌∙◌, true, false, Option, some, List, [], ◌∷◌, ◌++◌,
  arith, length, All,
}
use ayther_runtime.AudioQa.Progress.{Publisher}
use ayther_runtime.AudioQa.Recording.Layout.{RecordingLayout}
use ayther_runtime.AudioQa.Recording.Input
use ayther_runtime.AudioQa.Recording.Input.{
  RecordingFrameInput, RecordingInputSource, input, make_recording_input_source,
}
use ayther_runtime.AudioQa.Recording.Input.Sequence.{
  IsMask, Stands, Fits, holds, made-Stands, next_stops, advance-Stands, length_end,
}
use ayther_runtime.AudioQa.Publication.{InitialStatePublication, next_input, input_permitted}
use ayther_runtime.AudioQa.ReplayLoop.{
  RecordingReplayLoop, ReplayFrameOperations, ReplayFrameError, input_exhausted, sets, steps,
  Execution, start_progress, run_frame, after_input, execute_next, new, run, calls,
}
use ayther_runtime.AudioQa.ReplayLoop.Outcome.{script, next_mask}
use ayther_runtime.AudioQa.ReplayLoop.Success.{
  Succeeds, Told, Ended, Started, start_succeeds, frame_succeeds, end_succeeds,
}

record Ready (loop : RecordingReplayLoop) (total : ℕ) (done rest : List ℕ) : Type 0 where
  permitted : input_permitted loop.publication ≡ true
  unfailed : loop.failed ≡ false
  stands : Stands loop.inputs done rest
  counted : loop.frames_completed ≡ length done
  told : Told total (length done) loop.progress
  all_frames : total ≡ length done + length rest

execute-Ready :
    (loop : RecordingReplayLoop) (total : ℕ) (done rest : List ℕ) (o : ReplayFrameOperations)
    → total ≤ 54000
    → Ready loop total done rest
    → o.available ≡ true
    → execute_next loop o
      ≡ after_input
          (record loop { progress = (start_progress loop.progress).0 })
          o
          (Input.next loop.inputs)
unfolding execute_next next_input
execute-Ready loop total done rest o small r a =
    let p = r.permitted in
    let f = r.unfailed in
    let c : loop.inputs.cursor ≡ loop.frames_completed = r.stands.at_cursor ∙ sym r.counted in
    let s = (start_succeeds total small (length done) loop.progress r.told).0 in ground arith

Started-Told : (total k : ℕ) (o : Option Publisher) → Started total k o → Told total k o
Started-Told total k Option.none t = tt
Started-Told total k (some p) t = (t.0, t.1, t.2, inr t.3)

-- A loop that is ready for a frame does it and is ready for the next one.
abbrev FrameOf : Execution → ℕ → List ℕ → ℕ → List ℕ → Type 0
FrameOf e total done mask rest =
    (e.result.error ≡ ReplayFrameError.none)
    × (e.calls ≡ sets (input (length done) mask) ∷ steps ∷ [])
    × Ready e.loop total (done ++ (mask ∷ [])) rest

module _ (loop : RecordingReplayLoop) (total : ℕ) (done rest : List ℕ) (o : ReplayFrameOperations)
    (small : total ≤ 54000) (ok : Succeeds o) where
  execute_frame :
      (mask : ℕ)
      → IsMask mask
      → Ready loop total done (mask ∷ rest)
      → FrameOf (execute_next loop o) total done mask rest
  unfolding after_input
  execute_frame mask h r =
      let k = length done in
      let s = loop.inputs in
      let moved : RecordingReplayLoop = record loop {
        inputs = record s { cursor = suc s.cursor };
      } in
      let progress = (start_progress loop.progress).0 in
      let t = (start_succeeds total small k loop.progress r.told).1 in
      let w =
        frame_succeeds total small moved o k mask progress (omega (arith, r.all_frames)) r.counted
          (ok.1 (input k mask)) ok.2 t in
      let n = length_end done mask in
      let x = run_frame (record moved { progress = progress }) o (input k mask) in
      let e =
        execute-Ready loop total done (mask ∷ rest) o small r ok.0
        ∙ ap (after_input (record loop { progress = progress }) o)
            (next_mask loop o s done rest mask r.stands h) in
      subst (λ y. FrameOf y total done mask rest) (sym e)
        (
          w.0,
          w.5,
          record {
            permitted = ap input_permitted w.1 ∙ r.permitted;
            unfailed = w.4 ∙ r.unfailed;
            stands =
                subst (λ u. Stands u (done ++ (mask ∷ [])) rest) (sym w.2)
                  (advance-Stands s done rest mask r.stands);
            counted = w.3 ∙ sym n;
            told =
                subst (λ j. Told total j x.loop.progress) (sym n)
                  (Started-Told total (suc k) x.loop.progress w.6);
            all_frames = omega (arith, r.all_frames, n);
          },
        )

-- The execution after the last frame tells the end, once.
abbrev pub EndOf : Execution → ℕ → Type 0
EndOf e total =
    (e.result.error ≡ input_exhausted)
    × (e.loop.failed ≡ false)
    × (e.loop.frames_completed ≡ total)
    × Ended e.loop.progress

execute_end :
    (loop : RecordingReplayLoop) (total : ℕ) (done : List ℕ) (o : ReplayFrameOperations)
    → total ≤ 54000
    → Succeeds o
    → Ready loop total done []
    → EndOf (execute_next loop o) total
unfolding after_input
execute_end loop total done o small ok r =
    let progress = (start_progress loop.progress).0 in
    let n : length done ≡ total = omega (arith, r.all_frames) in
    let t = (start_succeeds total small (length done) loop.progress r.told).1 in
    let x = end_succeeds total small loop progress (subst (λ k. Started total k progress) n t) in
    let e =
      execute-Ready loop total done [] o small r ok.0
      ∙ ap (after_input (record loop { progress = progress }) o)
          (next_stops loop.inputs (omega (arith, r.stands.all_frames, r.stands.at_cursor))) in
    subst (λ y. EndOf y total) (sym e) (x.0, x.1 ∙ r.unfailed, x.2 ∙ r.counted ∙ n, x.3)

run-Ready :
    (loop : RecordingReplayLoop) (total : ℕ) (done rest : List ℕ) (os : List ReplayFrameOperations)
    → total ≤ 54000
    → All IsMask rest
    → All Succeeds os
    → length os ≡ length rest
    → Ready loop total done rest
    → (done' : List ℕ) × Ready (run loop os) total done' []
      × (calls loop os ≡ script (length done) rest)
unfolding run calls
run-Ready loop total done [] [] small h ok l r = (done, r, refl)
run-Ready loop total done (mask ∷ rest) [] small h ok l r = ground arith
run-Ready loop total done [] (o ∷ os) small h ok l r = ground arith
run-Ready loop total done (mask ∷ rest) (o ∷ os) small h ok l r =
    let x = execute_frame loop total done rest o small ok.0 mask h.0 r in
    let e = execute_next loop o in
    let y = run-Ready e.loop total (done ++ (mask ∷ [])) rest os small h.1 ok.1 (omega arith) x.2 in
    (
      y.0,
      y.1,
      ap (λ cs. cs ++ calls e.loop os) x.1
          ∙ ap (λ cs. sets (input (length done) mask) ∷ steps ∷ cs)
              (y.2 ∙ ap (λ k. script k rest) (length_end done mask)),
    )

-- A replay that nothing disturbs ends: for a take that stores the buttons of 1 to 54,000 frames
-- where its layout says, after the initial state was acknowledged, with operations that succeed and
-- progress that is not told or was accepted for the take's frames, as many executions as the take
-- has frames make exactly the calls of the whole script of the take, and the next execution reports
-- that the input is exhausted, with all frames complete, the end told and no failure.
pub replay_completes :
    (before masks after : List ℕ) (layout : RecordingLayout) (publication : InitialStatePublication)
    (progress : Option Publisher) (os : List ReplayFrameOperations) (o : ReplayFrameOperations)
    → Fits before masks layout
    → input_permitted publication ≡ true
    → Told (length masks) 0 progress
    → All Succeeds os
    → length os ≡ length masks
    → Succeeds o
    → let source = (make_recording_input_source (holds before masks after) layout).source in
      let loop = new publication source progress in
      (calls loop os ≡ script 0 masks) × EndOf (execute_next (run loop os) o) (length masks)
unfolding new
replay_completes before masks after layout publication progress os o f p t oks l ok =
    let source = (make_recording_input_source (holds before masks after) layout).source in
    let loop = new publication source progress in
    let r : Ready loop (length masks) [] masks = record {
      permitted = p;
      unfailed = refl;
      stands = made-Stands before masks after layout f;
      counted = refl;
      told = t;
      all_frames = omega arith;
    } in
    let y = run-Ready loop (length masks) [] masks os f.few_frames f.are_masks oks l r in
    (y.2, execute_end (run loop os) (length masks) y.0 o f.few_frames ok y.1)
