-- ===== src/Recorder.antt =====
-- internal/recorder: what happens to recordings after they are written.
pub mod Recovery
