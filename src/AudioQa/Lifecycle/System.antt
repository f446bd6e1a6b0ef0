-- ===== src/AudioQa/Lifecycle/System.antt =====
-- The parts that share one run's lifecycle, and a call of any of them (tools/audio_qa:
-- run_lifecycle.cpp, replay_terminal_arbiter.cpp, replay_cancellation.cpp, evidence_close.cpp).
pub mod Order
mod Examples
use ayther_runtime.Prelude.{ℕ, Bool, false, Option, none, List, [], ◌∷◌}
use ayther_runtime.AudioQa.Lifecycle
use ayther_runtime.AudioQa.Lifecycle.{Run, RunLifecycle, mark_ready, start_playback}
use ayther_runtime.AudioQa.Lifecycle.Terminal.{ReplayTerminalEvent, resolve}
use ayther_runtime.AudioQa.Lifecycle.Evidence.{EvidenceCloseReport, finish}
use ayther_runtime.AudioQa.Lifecycle.Cancellation
use ayther_runtime.AudioQa.Lifecycle.Cancellation.{
  ReplayExternalControlCommand, ReplayCancellationRecord, handle, capture_request,
  apply_at_frame_boundary,
}

pub record Replay : Type 0 where
  pub lifecycle : RunLifecycle
  pub terminal : Option ReplayTerminalEvent
  pub cancellation_requested : Bool
  pub cancellation : ReplayCancellationRecord
  pub report : Option EvidenceCloseReport

pub new : Run → Replay
new run = record {
  lifecycle = Lifecycle.new run;
  terminal = none;
  cancellation_requested = false;
  cancellation = Cancellation.new;
  report = none;
}

pub data Call : Type 0 where
  readies starts : Call
  resolves : ReplayTerminalEvent → Call
  controls : ReplayExternalControlCommand → Call
  captures applies : ℕ → Option ℕ → Call
  closes : EvidenceCloseReport → Call

pub step : Replay → Call → Replay
step r readies = record r { lifecycle = (mark_ready r.lifecycle).0 }
step r starts = record r { lifecycle = (start_playback r.lifecycle).0 }
step r (resolves event) =
    let d = resolve r.terminal event r.lifecycle in record r { terminal = d.0; lifecycle = d.1 }
step r (controls command) = record r {
  cancellation_requested = (handle r.cancellation_requested command).0;
}
step r (captures frames engine_frame) = record r {
  cancellation = (capture_request r.cancellation r.cancellation_requested frames engine_frame).0;
}
step r (applies frames engine_frame) =
    let d = apply_at_frame_boundary r.cancellation frames engine_frame r.lifecycle in
    record r { cancellation = d.0; lifecycle = d.1 }
step r (closes report) =
    let d = finish r.report report r.lifecycle in record r { report = d.0; lifecycle = d.1 }

pub run : Replay → List Call → Replay
run r [] = r
run r (c ∷ cs) = run (step r c) cs
