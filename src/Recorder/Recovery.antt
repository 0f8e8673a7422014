-- ===== src/Recorder/Recovery.antt =====
-- `ValidateFMP4File` of internal/recorder/recovery.go, on a file that can be opened and whose contents do
-- not change while it is read: then the reads and seeks inside its size do not fail, and the rest of the
-- file stands for the offset. Each round consumes a box header at least, so that the length of the file
-- is fuel enough.
pub mod Boxes
mod Tests
use ruseon_core.Common.{
  ℕ, zero, suc, ◌+◌, ◌-◌, ◌*◌, Bool, true, false, not, ◌&&◌, ◌||◌, List, [], ◌∷◌, if◌then◌else◌,
  ltb, drop, length,
}
use ruseon_core.Common.Bytes.{Bytes, bytes_eq, codes}

-- The result, an error by its message.
pub data Verdict : Type 0 where
  valid too_small truncated_header bad_size exceeds_file missing_moov missing_fragments : Verdict

-- `hasMoov`, `hasMoof`, `hasMdat`
pub record Flags : Type 0 where
  pub has_moov : Bool
  pub has_moof : Bool
  pub has_mdat : Bool

-- `binary.BigEndian.Uint32`
unfoldable pub big_endian : ℕ → ℕ → ℕ → ℕ → ℕ
big_endian a b c d = ((a * 256 + b) * 256 + c) * 256 + d

-- The `switch` on the type of a box.
unfoldable pub note : Bytes → Flags → Flags
note box_type f = record {
  has_moov = bytes_eq box_type (codes "moov") || f.has_moov;
  has_moof = bytes_eq box_type (codes "moof") || f.has_moof;
  has_mdat = bytes_eq box_type (codes "mdat") || f.has_mdat;
}

-- After the loop.
unfoldable pub finish : Flags → Verdict
finish f =
    if not f.has_moov
    then missing_moov
    else if not f.has_moof || not f.has_mdat
    then missing_fragments
    else valid

-- The loop, on what is left of the file.
unfoldable pub scan : ℕ → Bytes → Flags → Verdict
scan n [] f = finish f
scan zero (x ∷ xs) f = truncated_header
scan (suc n) (a ∷ b ∷ c ∷ d ∷ k ∷ l ∷ m ∷ o ∷ rest) f =
    let size = big_endian a b c d in
    let next = scan n (drop (size - 8) rest) (note (k ∷ l ∷ m ∷ o ∷ []) f) in
    if ltb size 8 then bad_size else if ltb (8 + length rest) size then exceeds_file else next
scan (suc n) _ f = truncated_header

pub validate_fmp4_file : Bytes → Verdict
unfolding scan
validate_fmp4_file file =
    let verdict =
      scan (length file) file (record { has_moov = false; has_moof = false; has_mdat = false }) in
    if ltb (length file) 32 then too_small else verdict
