-- ===== src/AudioQa/Lifecycle/Evidence.antt =====
-- tools/audio_qa/evidence_close.h and evidence_close.cpp: the one report that closes the evidence.
use ayther_runtime.Prelude.{ℕ, Bool, true, false, not, Option, some, if◌then◌else◌, is_some}
use ayther_runtime.AudioQa.CancellationWindow.{EvidenceResult, complete, incomplete}
use ayther_runtime.AudioQa.Lifecycle.{RunLifecycle, finish_closing, is_none}

pub data EvidenceCloseFailure : Type 0 where
  none fact_drain_failed pcm_drain_failed durable_write_failed : EvidenceCloseFailure

pub record EvidenceCloseReport : Type 0 where
  pub failure : EvidenceCloseFailure
  pub last_durable_sample : Option ℕ

abbrev pub result_of : EvidenceCloseFailure → EvidenceResult
result_of EvidenceCloseFailure.none = complete
result_of f = incomplete

-- `EvidenceClose::finish`; the state of its object is the report that it kept.
unfoldable pub finish :
    Option EvidenceCloseReport
    → EvidenceCloseReport
    → RunLifecycle
    → Option EvidenceCloseReport × RunLifecycle × Bool
finish kept report lifecycle =
    let closed = finish_closing lifecycle (result_of report.failure) in
    if is_some kept
    then (kept, lifecycle, false)
    else if not (is_none closed.1)
    then (kept, closed.0, false)
    else (some report, closed.0, true)
