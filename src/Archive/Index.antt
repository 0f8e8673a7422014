-- ===== src/Archive/Index.antt =====
-- The index of a recording, `getFileIndex` of internal/archive/hls.go without its cache: the boxes before
-- the first `moof`, and the fragments after them. The recording is a file whose contents do not change
-- while it is read; what is left of it stands for the offset. Parsing a fragment is a parameter.
pub mod Fragments
use ruseon_core.Common.{
  ℕ, zero, suc, ◌+◌, ◌-◌, ◌*◌, ◌%◌, ◌^◌, Bool, true, false, not, ◌&&◌, ◌||◌, Option, none, some,
  List, [], ◌∷◌, ◌++◌, if◌then◌else◌, ltb, take, drop, length,
}
use ruseon_core.Common.Bytes.{Bytes, bytes_eq, codes}
use ruseon_core.Recorder.Recovery.{big_endian}

pub record PartInfo : Type 0 where
  pub offset : ℕ
  pub duration : ℕ

pub record FileIndex : Type 0 where
  pub init_offset : ℕ
  pub init_size : ℕ
  pub parts : List PartInfo

-- What the fMP4 package makes of a fragment. `h26x` is what GetH26x returns for the sample.
pub record Sample : Type 0 where
  pub duration : ℕ
  pub is_non_sync_sample : Bool
  pub h26x : Option (List Bytes)

pub record Track : Type 0 where
  pub base_time : ℕ
  pub samples : List Sample

abbrev pub Part : Type 0
Part = List Track

abbrev pub min_box_header_size : ℕ
min_box_header_size = 8

abbrev pub max_box_size : ℕ
max_box_size = 64 * 1024 * 1024

-- The type, the size, and what follows the header.
unfoldable pub read_box_header : Bytes → Option (Bytes × ℕ × Bytes)
read_box_header (a ∷ b ∷ c ∷ d ∷ k ∷ l ∷ m ∷ o ∷ rest) =
    some (k ∷ l ∷ m ∷ o ∷ [], big_endian a b c d, rest)
read_box_header _ = none

abbrev pub has_bad_size : ℕ → Bool
has_bad_size size = ltb size min_box_header_size || ltb max_box_size size

-- The sizes of the boxes before the first `moof`.
unfoldable pub scan_init : ℕ → Bytes → ℕ → ℕ
scan_init zero file init_size = init_size
scan_init (suc n) file init_size = elim (read_box_header file) [
  | none ↦ init_size
  | some (typ, size, rest) ↦
      let next = scan_init n (drop (size - min_box_header_size) rest) (init_size + size) in
      if has_bad_size size
      then init_size
      else if bytes_eq typ (codes "moof")
      then init_size
      else next
]

-- `uint32` sums.
unfoldable pub sum_durations : List Sample → ℕ → ℕ
sum_durations [] sum = sum
sum_durations (s ∷ samples) sum = sum_durations samples ((sum + s.duration) % 2 ^ 32)

-- One second for a fragment that cannot be read or has no duration.
unfoldable pub part_duration : Option (List Part) → ℕ
part_duration (some ((t ∷ tracks) ∷ parts)) =
    let sum = sum_durations t.samples 0 in if ltb 0 sum then sum else 90000
part_duration _ = 90000

module _ (unmarshal : Bytes → Option (List Part)) where
  -- The fragments. After a `moof` that no `mdat` follows the scan goes on behind the header of the box that
  -- does follow.
  unfoldable pub scan_parts : ℕ → ℕ → Bytes → List PartInfo
  scan_parts zero offset file = []
  scan_parts (suc n) offset file = elim (read_box_header file) [
    | none ↦ []
    | some (typ, size, rest) ↦
        let behind = drop (size - min_box_header_size) rest in
        let skipped = scan_parts n (offset + size) behind in
        let after_moof : List PartInfo = elim (read_box_header behind) [
          | none ↦ []
          | some (typ2, size2, rest2) ↦
              let goes_on =
                scan_parts n (offset + size + size2) (drop (size2 - min_box_header_size) rest2) in
              let goes_astray = scan_parts n (offset + size + min_box_header_size) rest2 in
              if bytes_eq typ2 (codes "mdat") && not (has_bad_size size2)
              then (if ltb (length behind) size2
                  then []
                  else record {
                    offset = offset;
                    duration = part_duration (unmarshal (take size file ++ take size2 behind));
                  }
                    ∷ goes_on)
              else goes_astray
        ] in
        if has_bad_size size
        then []
        else if bytes_eq typ (codes "moof")
        then (if ltb (length file) size then [] else after_moof)
        else skipped
  ]

  -- Each round takes a header at least, so that the length of the file is fuel enough.
  unfoldable pub index_of : Bytes → FileIndex
  index_of file =
      let size = scan_init (length file) file 0 in
      record {
        init_offset = 0;
        init_size = size;
        parts = scan_parts (length file) size (drop size file);
      }
