-- ===== src/Recorder/Recovery/Tests.antt =====
-- A recording of 32 bytes, and its validation.
use ruseon_core.Common.{◌+◌, ◌≡◌, ◌↔◌, [], ◌∷◌, ◌++◌, length}
use ruseon_core.Common.Bytes.{Bytes, codes}
use ruseon_core.Recorder.Recovery.{valid, validate_fmp4_file}
use ruseon_core.Recorder.Recovery.Boxes.{IsRecording, validate_fmp4_file_iff}

abbrev box : Bytes → Bytes → Bytes
box t payload = 0 ∷ 0 ∷ 0 ∷ (8 + length payload) ∷ (t ++ payload)

abbrev file : Bytes
file =
    box (codes "moov") []
    ++ (box (codes "moof") (7 ∷ 7 ∷ []) ++ box (codes "mdat") (1 ∷ 2 ∷ 3 ∷ 4 ∷ 5 ∷ 6 ∷ []))

validate_fmp4_file_iff_example : (validate_fmp4_file file ≡ valid) ↔ IsRecording file
validate_fmp4_file_iff_example = validate_fmp4_file_iff file
