-- ===== src/Hls/Muxer/Readers.antt =====
-- What readers do: they acquire a segment and give it back; and the end of a muxer.
use native.Mathlib.Omega.{arith}
use ruseon_core.Common.{ℕ, suc, ◌<◌, Option, none, List, [], ◌∷◌, ◌++◌, length, length-append}
use ruseon_core.Common.Count.{count, remove, count-append, count-remove, length-remove}
use ruseon_core.Hls.Muxer.{Muxer, release_segment, release_all, stop}
use ruseon_core.Hls.Muxer.Safety.{IsShared, IsSafeFor, Keeps-trans, Keeps-refl, Keeps-part}
use ruseon_core.Hls.Segments.{two32, Store, retain, release}
use ruseon_core.Hls.Segments.Arc.{
  IsValid, Keeps, IsSafe, recounted-IsValid, dropped-IsValid, retain-IsValid, retain-Keeps,
  release-IsSafe,
}

-- A segment of the window gets one more reader.
pub acquired-IsSafe :
    (a : ℕ) (held : List ℕ) (cur : Option ℕ) (m : Muxer)
    → IsShared m held cur
    → 0 < count a m.segments
    → suc (length (m.segments ++ held)) < two32
    → IsShared (record m { store = retain a m.store }) (a ∷ held) cur
      × Keeps held m.store (retain a m.store)
acquired-IsSafe a held cur m v some_ small = (
  recounted-IsValid (a ∷ (m.segments ++ held)) (m.segments ++ (a ∷ held)) cur (retain a m.store)
      (retain-IsValid a (m.segments ++ held) cur m.store v
        (omega (arith, some_, count-append a m.segments held)) small)
      (omega (arith, length-append m.segments (a ∷ held), length-append m.segments held))
      (λ x.
        unfold count in
        omega (arith, count-append x m.segments (a ∷ held), count-append x m.segments held)),
  retain-Keeps a held m.store,
)

-- A reader gives back what it acquired.
pub released-IsSafe :
    (a : ℕ) (held : List ℕ) (cur : Option ℕ) (m : Muxer)
    → IsShared m held cur
    → 0 < count a held
    → IsSafeFor (remove a held) cur m (release_segment a m)
unfolding IsSafeFor IsSafe release_segment
released-IsSafe a held cur m v some_ =
    let (valid, kept) = release-IsSafe a (m.segments ++ remove a held) cur m.store (
      recounted-IsValid (m.segments ++ held) (a ∷ (m.segments ++ remove a held)) cur m.store v
        (omega (
          arith,
          length-append m.segments held,
          length-append m.segments (remove a held),
          length-remove a held some_,
        ))
        (λ x.
          unfold count in
          ground (
            arith,
            some_,
            count-append x m.segments held,
            count-append x m.segments (remove a held),
            count-remove x a held,
          ))) in
    (valid, Keeps-part m.segments (remove a held) m.store (release a m.store) kept)

release_all-IsSafe :
    (cs held : List ℕ) (cur : Option ℕ) (st : Store)
    → IsValid st (cs ++ held) cur
    → IsSafe st held cur (release_all cs st)
unfolding IsSafe release_all
release_all-IsSafe [] held cur st v = (v, Keeps-refl held st)
release_all-IsSafe (a ∷ cs) held cur st v =
    let (valid, kept) = release-IsSafe a (cs ++ held) cur st v in
    let (done, kept') = release_all-IsSafe cs held cur (release a st) valid in
    (
      done,
      Keeps-trans held st (release a st) (release_all cs (release a st))
          (Keeps-part cs held st (release a st) kept) kept',
    )

-- The window is given up, and the buffer that was being filled with it.
pub stop-IsSafe :
    (held : List ℕ) (cur : Option ℕ) (m : Muxer)
    → IsShared m held cur
    → IsSafeFor held none m (stop m)
unfolding IsSafeFor IsSafe stop
stop-IsSafe held cur m v =
    let (valid, kept) = release_all-IsSafe m.segments held cur m.store v in
    (dropped-IsValid held cur (release_all m.segments m.store) valid, kept)
