-- ===== src/AudioQa/ReplayLoop/Outcome.antt =====
-- What one execution of the replay loop does to the inputs and the engine
-- (tools/audio_qa/recording_replay_loop.cpp with recording_input_source.cpp).
use mathlib.Core.Path.{subst}
use ayther_runtime.Prelude.{
  ℕ, suc, ◌*◌, ◌≡◌, ◌⊎◌, inl, inr, refl, sym, ap, ◌∙◌, true, some, List, [], ◌∷◌, ◌++◌, arith,
  length, All,
}
use ayther_runtime.Prelude.Word.{add_u32}
use ayther_runtime.AudioQa.Recording.Input
use ayther_runtime.AudioQa.Recording.Input.{
  RecordingFrameInput, RecordingInputSource, input, word_at,
}
use ayther_runtime.AudioQa.Recording.Input.Sequence.{
  IsMask, Stands, stored, next_moves, next_stops, advance-Stands, word_at-stored,
}
use ayther_runtime.AudioQa.Publication.{next_input}
use ayther_runtime.AudioQa.ReplayLoop.{
  RecordingReplayLoop, ReplayFrameOperations, EngineCall, sets, steps, Execution, start_progress,
  complete_frame, operate, run_frame, run_out, after_input, execute_next,
}

-- What the engine is to be told for the frames of a take, numbered from a first one.
abbrev pub script : ℕ → List ℕ → List EngineCall
script k [] = []
script k (mask ∷ masks) = sets (input k mask) ∷ steps ∷ script (suc k) masks

abbrev pub IsPrefix : List EngineCall → List EngineCall → Type 0
IsPrefix [] ys = Unit {0}
IsPrefix (x ∷ xs) [] = ⊥
IsPrefix (x ∷ xs) (y ∷ ys) = (x ≡ y) × IsPrefix xs ys

-- What one frame with an input does: a failure on the way, or the whole frame.
abbrev FrameDone : RecordingReplayLoop → RecordingFrameInput → Execution → Type 0
FrameDone loop i e =
    ((e.loop.failed ≡ true)
      × ((e.calls ≡ []) ⊎ ((e.calls ≡ sets i ∷ []) ⊎ (e.calls ≡ sets i ∷ steps ∷ []))))
    ⊎ ((e.calls ≡ sets i ∷ steps ∷ [])
        × (e.loop.inputs ≡ loop.inputs)
        × (e.loop.frames_completed ≡ add_u32 loop.frames_completed 1)
        × (i.frame ≡ loop.frames_completed))

frame_done :
    (loop : RecordingReplayLoop) (o : ReplayFrameOperations) (i : RecordingFrameInput)
    → FrameDone loop i (run_frame loop o i)
unfolding run_frame operate complete_frame
frame_done loop o i = ground arith

-- What one execution does: nothing is told and the inputs stay, or it is that of the next input.
abbrev pub ExecutionCases : RecordingReplayLoop → ReplayFrameOperations → Execution → Type 0
ExecutionCases loop o e =
    ((e.calls ≡ [])
      × ((e.loop.failed ≡ true)
          ⊎ ((e.loop.inputs ≡ loop.inputs) × (e.loop.frames_completed ≡ loop.frames_completed))))
    ⊎ (e
        ≡ after_input (record loop { progress = (start_progress loop.progress).0 }) o
            (Input.next loop.inputs))

pub execution_cases :
    (loop : RecordingReplayLoop) (o : ReplayFrameOperations)
    → ExecutionCases loop o (execute_next loop o)
unfolding execute_next next_input
execution_cases loop o = ground arith

run_out_quiet :
    (loop : RecordingReplayLoop)
    → ((run_out loop).calls ≡ []) × ((run_out loop).loop.inputs ≡ loop.inputs)
unfolding run_out
run_out_quiet loop = ground arith

-- Where the next frame of the masks was told and done in whole.
abbrev pub NextFrame : Execution → List ℕ → List ℕ → Type 0
NextFrame e done [] = ⊥
NextFrame e done (mask ∷ rest) =
    (e.calls ≡ sets (input (length done) mask) ∷ steps ∷ [])
    × Stands e.loop.inputs (done ++ (mask ∷ [])) rest

abbrev pub Outcome : Execution → List ℕ → List ℕ → Type 0
Outcome e done rest =
    ((e.loop.failed ≡ true) × IsPrefix e.calls (script (length done) rest))
    ⊎ (((e.calls ≡ []) × Stands e.loop.inputs done rest) ⊎ NextFrame e done rest)

pub no_calls-IsPrefix : (xs ys : List EngineCall) → xs ≡ [] → IsPrefix xs ys
no_calls-IsPrefix xs ys e = subst (λ zs. IsPrefix zs ys) (sym e) tt

pub stays-Stands :
    (s t : RecordingInputSource) (done rest : List ℕ)
    → t ≡ s
    → Stands s done rest
    → Stands t done rest
stays-Stands s t done rest e v = subst (λ u. Stands u done rest) (sym e) v

module _ (loop : RecordingReplayLoop) (o : ReplayFrameOperations) where
  -- The input that a source gives where it has a mask left.
  pub next_mask :
      (s : RecordingInputSource) (done rest : List ℕ) (mask : ℕ)
      → Stands s done (mask ∷ rest)
      → IsMask mask
      → Input.next s ≡ (record s { cursor = suc s.cursor }, some (input (length done) mask))
  next_mask s done rest mask v h =
      next_moves s (omega (arith, v.all_frames, v.at_cursor)) v.few_frames
      ∙ ap (λ b. (record s { cursor = suc s.cursor }, some (input s.cursor b)))
          (ap (λ bytes. word_at bytes (s.cursor * 2)) v.stored_bytes
            ∙ ap (λ k. word_at (stored done ++ stored (mask ∷ rest)) (k * 2)) v.at_cursor
            ∙ word_at-stored done rest mask h)
      ∙ ap (λ k. (record s { cursor = suc s.cursor }, some (input k mask))) v.at_cursor

  frame-Outcome :
      (s : RecordingInputSource) (done rest : List ℕ) (mask : ℕ)
      → Stands s done (mask ∷ rest)
      → Outcome
          (run_frame
            (record loop { inputs = record s { cursor = suc s.cursor } })
            o
            (input (length done) mask))
          done
          (mask ∷ rest)
  frame-Outcome s done rest mask v =
      let moved : RecordingReplayLoop = record loop {
        inputs = record s { cursor = suc s.cursor };
      } in
      let i = input (length done) mask in
      let later = script (suc (length done)) rest in
      elim (frame_done moved o i) [
        | inl f ↦ inl (
          f.0,
          elim (f.1) [
            | inl n ↦ no_calls-IsPrefix _ _ n
            | inr (inl t) ↦ subst (λ zs. IsPrefix zs (sets i ∷ steps ∷ later)) (sym t) (refl, tt)
            | inr (inr t) ↦
                subst (λ zs. IsPrefix zs (sets i ∷ steps ∷ later)) (sym t) (refl, (refl, tt))
          ],
        )
        | inr d ↦ inr (
            inr (
              d.0,
              stays-Stands _ _ (done ++ (mask ∷ [])) rest d.1 (advance-Stands s done rest mask v),
            ))
      ]

  pub after_input-Outcome :
      (done rest : List ℕ)
      → Stands loop.inputs done rest
      → All IsMask rest
      → Outcome (after_input loop o (Input.next loop.inputs)) done rest
  unfolding after_input run_out
  after_input-Outcome done [] v h =
      let e = next_stops loop.inputs (omega (arith, v.all_frames, v.at_cursor)) in
      let q = run_out_quiet loop in
      subst (λ p. Outcome (after_input loop o p) done []) (sym e)
        (inr (inl (q.0, stays-Stands _ _ done [] q.1 v)))
  after_input-Outcome done (mask ∷ rest) v h =
      subst (λ p. Outcome (after_input loop o p) done (mask ∷ rest))
        (sym (next_mask loop.inputs done rest mask v h.0))
        (frame-Outcome loop.inputs done rest mask v)
