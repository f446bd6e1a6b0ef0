-- ===== src/Music.antt =====
-- src/music_*.h: the music side of a session, a header to a module.
pub mod Drain
pub mod Pcm
pub mod Restore
pub mod ProductFlow
pub mod Warning
pub mod Bundle
