-- ===== src/Music/Restore.antt =====
-- src/music_restore_*.h: what decides and carries out the restoration of the music state.
pub mod Limits
pub mod Classification
pub mod Position
pub mod Recovery
pub mod Transaction
mod Examples
