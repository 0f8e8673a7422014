-- ===== src/Archive.antt =====
-- `internal/archive`: the playback of recordings. The index of a recording is in Index, its cache in
-- Cache, the playlist and the segments in Playback, the export of internal/archive/export.go in Export.
pub mod Cache
pub mod Index
pub mod Playback
pub mod Export
mod Tests
