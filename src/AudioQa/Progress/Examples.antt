-- ===== src/AudioQa/Progress/Examples.antt =====
-- A take of two inputs with calls out of turn (tools/audio_qa/replay_progress.cpp).
use ayther_runtime.Prelude.{true, List, [], ◌∷◌, arith}
use ayther_runtime.AudioQa.Progress.{
  new, Call, accepts, starts, finishes, consumes, completes, events,
}
use ayther_runtime.AudioQa.Progress.Trace.{requested, Follows, observer_sees_sequence}

abbrev calls : List Call
calls =
    starts
    ∷ accepts
    ∷ starts
    ∷ consumes 0
    ∷ finishes
    ∷ completes 0 7
    ∷ consumes 0
    ∷ consumes 1
    ∷ completes 1 8
    ∷ finishes
    ∷ []

observer_sees_sequence_example : Follows 2 requested (events (new true 2) calls)
observer_sees_sequence_example = observer_sees_sequence true 2 calls (omega arith)
