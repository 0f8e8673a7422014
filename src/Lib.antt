-- ===== src/Lib.antt =====
-- A model of the core of RUSEON Core, a server that ingests camera streams over RTSP, records them,
-- serves them to viewers and accounts for their traffic.
--
-- How the parts interact: the RTSP client puts the frames of a camera, with unwrapped timestamps, into the
-- camera's ring buffer, from which the muxers and the recorder read. The stream manager keeps one
-- stream per enabled camera of the storage and the counters of their traffic, which billing collects
-- and writes back to the storage. Components announce events on the event bus, which delivers them to
-- webhooks. Requests pass the authentication middlewares first. After a crash, the recordings left open
-- are validated. The HLS muxer cuts a stream into segments, whose buffers it shares with the readers
-- of a playlist and with the other muxers through a pool.
--
-- Which file models which part:
--   Common     lists, dictionaries for Go maps, byte strings, and Go's channels, panics and uint64
--   Buffer     internal/buffer/frame.go and internal/buffer/ring.go: `write` is Write, `subscribe`
--              Subscribe, `close` RingBuffer.Close, `close_reader` Reader.Close, and so on by name
--   EventBus   pkg/eventbus/eventbus.go and pkg/eventbus/webhook.go: `publish`, `stop`, and
--              workerLoop takes its events by `take_event`; EventBus.Worker has its loop over the webhooks:
--              the check that reads a circuit breaker (`check`) and the end of the request (`settle`) are
--              steps of their own, since the lock is free in between, and the steps of all workers
--              interleave on the shared breakers (`act`, `run`)
--   Rtsp       internal/rtsp/timestamp.go
--   Auth       pkg/auth/local.go and internal/models/user.go
--   Storage    pkg/storage/storage.go and the records of pkg/config/config.go that it keeps
--   Stream     internal/stream/manager.go, the configuration and counters of internal/stream/stream.go,
--              internal/stream/billing.go in Stream.Billing, and internal/stream/metadata.go in
--              Stream.Metadata
--   Hls        internal/hls/muxer.go: Hls.Segments has Segment and the pool of buffers, Hls.Muxer the
--              window and the methods, Hls.Loop the body of `run` (`on_frame`), Hls.Cue and Hls.Playlist
--              the texts; Hls.Loop.Sessions puts the loop, readers and the watchdog side by side
--   Archive    internal/archive/hls.go: Archive.Cache is IndexLRUCache, Archive.Index the scan of
--              getFileIndex, Archive.Playback the playlist and the segments of a recording;
--              internal/archive/export.go in Archive.Export
--   Recorder   ValidateFMP4File of internal/recorder/recovery.go
--
-- How code becomes definitions: a method takes the state and returns the next one. A method that holds
-- its mutex throughout is one step; what happens between steps is a sequence of them. Shared objects
-- (the readers of a ring buffer) live in a heap of the state. A call that can panic or wait returns an
-- `Outcome`. Maps are association lists, and the order of a list is the order of iteration. Integers are
-- natural numbers with the wrap-around of their width written out. What the code calls outside the
-- repository is an argument: the JWT package and BadgerDB as records with the laws that they document
-- (`Auth.Jwt`, `Storage.Backend.Database`, `Storage.Backend.Codec`), bcrypt, clocks, random bytes and the
-- ends of HTTP requests as values, and the writer of MPEG-TS and the fMP4
-- parser as the records `Hls.Loop.TsWriter` and `Archive.Playback.Fmp4`.
--
-- Fuel: `find_from` counts the slots of the ring, `preload` the frames to send, `commit_chunks` has the
-- number of entries, of which each chunk takes one at least, and `scan` the length of the file, of which
-- each box takes eight bytes at least, so that none of them runs out. So it is for `scan_init` and
-- `scan_parts`; `evict_all` has the number of elements.
--
-- Not modelled: goroutines and tickers as such, network and file I/O, logging, metrics other than the
-- drop counters, WebRTC, the HTTP handlers, and the configuration file. They are calls of
-- other packages, or left out here.
pub mod Common
pub mod Auth
pub mod Archive
pub mod Buffer
pub mod EventBus
pub mod Hls
pub mod Recorder
pub mod Rtsp
pub mod Storage
pub mod Stream
