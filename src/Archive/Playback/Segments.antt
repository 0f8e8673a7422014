-- ===== src/Archive/Playback/Segments.antt =====
-- The fragment that a segment of a recording is read from.
use ruseon_core.Common.{ℕ, ◌≡◌, Option, some, List, drop, get_elem?}
use ruseon_core.Archive.Index.{PartInfo}
use ruseon_core.Archive.Playback.{Fmp4, read_fragment}
use ruseon_core.Common.Bytes.{Bytes}

module _ (open_blob : Bytes → Option Bytes) (fmp4 : Fmp4) where
  -- What the part at a place leads to, in a file that starts with `front`.
  abbrev LeadsTo : Bytes → List PartInfo → ℕ → Bytes → Type 0
  LeadsTo file parts i combined =
      (p : PartInfo) × ((get_elem? parts i ≡ some p)
        × (read_fragment open_blob fmp4 (drop p.offset file) ≡ some combined))
