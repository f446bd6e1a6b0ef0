-- ===== src/AudioQa.antt =====
-- tools/audio_qa: the supervisor of the audio checks.
pub mod Arbiter
pub mod CancellationWindow
pub mod Watchdog
pub mod Cessation
pub mod Quota
pub mod Progress
pub mod Lifecycle
pub mod Recording
pub mod Model
pub mod Publication
pub mod ReplayLoop
pub mod Timeline
pub mod Threshold
pub mod Registry
