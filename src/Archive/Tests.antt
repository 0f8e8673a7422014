-- ===== src/Archive/Tests.antt =====
-- A recording of one init box and two fragments.
use native.Mathlib.Omega.{arith}
use ruseon_core.Common.{
  ℕ, suc, ◌≡◌, ◌≢◌, refl, true, Option, none, some, List, [], ◌∷◌, ◌++◌, length,
}
use ruseon_core.Archive.Cache.{IndexLruCache, new_index_lru_cache, capacity_of}
use ruseon_core.Archive.Cache.Recency.{used}
use ruseon_core.Archive.Cache.Storing.{
  CacheOp, got, added, answers, spec_answers, stored, answers-new_index_lru_cache,
}
use ruseon_core.Archive.Export.{export_of, export_of_lem}
use ruseon_core.Archive.Index.{FileIndex, Track, index_of}
use ruseon_core.Archive.Index.Fragments.{
  AreInit, AreFragments, init_bytes, fragment_bytes, parts_of, index_of_recording,
}
use ruseon_core.Archive.Playback.{Fmp4, codec_h264}
use ruseon_core.Common.Bytes.{Bytes, codes, bytes_discrete}
use ruseon_core.Common.Dict.{lookup, erase}
use ruseon_core.Common.Int.{pos}
use ruseon_core.Hls.Loop.{TsWriter}
use ruseon_core.Recorder.Recovery.{big_endian}
use ruseon_core.Recorder.Recovery.Boxes.{Box, box_type}

abbrev ftyp : Box
ftyp = record { a = 0; b = 0; c = 0; d = 8; k = 102; l = 116; m = 121; o = 112; payload = [] }

abbrev moof : ℕ → Box
moof n = record { a = 0; b = 0; c = 0; d = 9; k = 109; l = 111; m = 111; o = 102; payload = n ∷ [] }

abbrev mdat : ℕ → Box
mdat n = record {
  a = 0;
  b = 0;
  c = 0;
  d = 10;
  k = 109;
  l = 100;
  m = 97;
  o = 116;
  payload = n ∷ n ∷ [];
}

abbrev fragments : List (Box × Box)
fragments = (moof 1, mdat 2) ∷ (moof 3, mdat 4) ∷ []

sized : AreFragments fragments
unfolding big_endian box_type
sized = (
  ((refl, omega arith), refl),
  ((refl, omega arith), refl),
  (((refl, omega arith), refl), ((refl, omega arith), refl), _),
)

ftyp-ne-moof : codes "ftyp" ≢ codes "moof"
ftyp-ne-moof e = ground (arith, e)

init_sized : AreInit (ftyp ∷ [])
unfolding big_endian box_type
init_sized = ((refl, omega arith), ftyp-ne-moof, _)

abbrev one_track : Track
one_track = record {
  base_time = 0;
  samples =
      record { duration = 3000; is_non_sync_sample = true; h26x = some ((65 ∷ []) ∷ []) } ∷ [];
}

abbrev parser : Fmp4
parser = record {
  init = λ file. some (codec_h264 (103 ∷ []) (104 ∷ []) ∷ []);
  parts = λ bytes. some ((one_track ∷ []) ∷ []);
}

index_of_recording_example :
    index_of parser.parts (init_bytes (ftyp ∷ []) ++ fragment_bytes fragments)
    ≡ record { init_offset = 0; init_size = 8; parts = parts_of parser.parts 8 fragments }
index_of_recording_example = index_of_recording parser.parts (ftyp ∷ []) fragments init_sized sized

abbrev blobs : Bytes → Option Bytes
blobs path = some (init_bytes (ftyp ∷ []) ++ fragment_bytes fragments)

abbrev empty_cache : IndexLruCache FileIndex
empty_cache =
    new_index_lru_cache (pos 0)
      (λ e. record { key = []; value = record { init_offset = 0; init_size = 0; parts = [] } })

abbrev writer : TsWriter
writer = record {
  Writer = ℕ;
  new_writer = λ h265. (0, 71 ∷ []);
  write_h26x = λ pts dts key nalus n. (suc n, length nalus ∷ []);
}

-- The key that was not looked up again goes first.
abbrev requests : List (CacheOp ℕ)
requests =
    added (codes "a") 1
    ∷ added (codes "b") 2
    ∷ got (codes "a")
    ∷ added (codes "c") 3
    ∷ got (codes "b")
    ∷ got (codes "a")
    ∷ []

answers-new_index_lru_cache_example :
    answers requests (new_index_lru_cache (pos 2) (λ e. record { key = []; value = 0 }))
    ≡ spec_answers (capacity_of (pos 2)) requests []
answers-new_index_lru_cache_example =
    answers-new_index_lru_cache requests (pos 2) (λ e. record { key = []; value = 0 })

requests_run : spec_answers 2 requests [] ≡ none ∷ none ∷ some 1 ∷ none ∷ none ∷ some 1 ∷ []
unfolding used stored lookup erase bytes_discrete
requests_run = refl

export_of_lem_example :
    export_of
      (init_bytes (ftyp ∷ []) ++ fragment_bytes fragments)
      (index_of parser.parts (init_bytes (ftyp ∷ []) ++ fragment_bytes fragments))
      (pos 1)
      (pos 1)
    ≡ some (init_bytes (ftyp ∷ []) ++ fragment_bytes ((moof 3, mdat 4) ∷ []))
export_of_lem_example =
    export_of_lem parser.parts (ftyp ∷ []) fragments 1 1 init_sized sized (omega arith)
      (omega arith)
