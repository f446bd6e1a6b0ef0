-- ===== src/Replay.antt =====
-- src/replay_inspection: the inspection of a replayed take.
pub mod KeyRouter
pub mod CheckpointRing
pub mod RecoveryPlanner
pub mod Controller
pub mod Inspection
pub mod Cadence
pub mod Health
