-- ===== src/Rtsp.antt =====
-- internal/rtsp: the ingest side of a camera. Modelled: the timestamps.
pub mod Timestamp
