-- ===== src/Hls.antt =====
-- `internal/hls`: the HLS packager of a stream.
pub mod Segments
pub mod Cue
pub mod Playlist
pub mod Muxer
pub mod Loop
mod Tests
