-- ===== src/Archive/Index/Fragments.antt =====
-- The index of a recording that is made of boxes: some before the first `moof`, then fragments of a `moof`
-- and an `mdat`.
use native.Mathlib.Omega.{arith}
use mathlib.Core.List.{append_assoc}
use ruseon_core.Common.{
  ℕ, zero, suc, ◌+◌, ◌-◌, ◌%◌, ◌^◌, ◌<◌, none, some, if◌then◌else◌, ◌≤◌, ◌≡◌, ◌≢◌, refl, ap, ◌∙◌,
  true, false, Option, List, [], ◌∷◌, ◌++◌, ltb, take, drop, length, length-append, take-append,
  drop-append,
}
use ruseon_core.Archive.Index.{
  Sample, sum_durations, PartInfo, Part, max_box_size, has_bad_size, read_box_header, scan_init,
  part_duration, scan_parts, index_of,
}
use ruseon_core.Common.Bytes.{Bytes, bytes_eq, codes}
use ruseon_core.Recorder.Recovery.{big_endian}
use ruseon_core.Recorder.Recovery.Boxes.{Box, box_type}

-- A box with its header.
abbrev pub bytes_of : Box → Bytes
bytes_of x = x.a ∷ x.b ∷ x.c ∷ x.d ∷ x.k ∷ x.l ∷ x.m ∷ x.o ∷ x.payload

-- The size that the box declares is its own, and within the limit.
abbrev pub IsSized : Box → Type 0
IsSized x =
    (big_endian x.a x.b x.c x.d ≡ length (bytes_of x)) × (length (bytes_of x) ≤ max_box_size)

same_bytes : (a b : Bytes) → a ≡ b → bytes_eq a b ≡ true
same_bytes a b p = ground (arith, p)

other_bytes : (a b : Bytes) → a ≢ b → bytes_eq a b ≡ false
other_bytes a b d = ground (arith, d)

pub fine_size : (x : Box) → IsSized x → has_bad_size (big_endian x.a x.b x.c x.d) ≡ false
fine_size x (e, h) = ground (arith, e, h)

past :
    (x : Box) (rest : Bytes)
    → IsSized x
    → drop (big_endian x.a x.b x.c x.d - 8) (x.payload ++ rest) ≡ rest
past x rest (e, h) =
    ap (λ i. drop i (x.payload ++ rest))
      (let p : big_endian x.a x.b x.c x.d - 8 ≡ length x.payload = omega (arith, e) in p)
    ∙ drop-append x.payload rest

pub whole :
    (x : Box) (rest : Bytes)
    → IsSized x
    → take (big_endian x.a x.b x.c x.d) (bytes_of x ++ rest) ≡ bytes_of x
whole x rest s = ap (λ i. take i (bytes_of x ++ rest)) s.0 ∙ take-append (bytes_of x) rest

-- What stands before the fragments.
abbrev pub AreInit : List Box → Type 0
AreInit [] = Unit
AreInit (x ∷ xs) = IsSized x × (box_type x ≢ codes "moof") × AreInit xs

abbrev pub init_bytes : List Box → Bytes
init_bytes [] = []
init_bytes (x ∷ xs) = bytes_of x ++ init_bytes xs

abbrev pub AreFragments : List (Box × Box) → Type 0
AreFragments [] = Unit
AreFragments ((moof, mdat) ∷ rest) =
    (IsSized moof × (box_type moof ≡ codes "moof"))
    × (IsSized mdat × (box_type mdat ≡ codes "mdat"))
    × AreFragments rest

abbrev pub fragment_bytes : List (Box × Box) → Bytes
fragment_bytes [] = []
fragment_bytes ((moof, mdat) ∷ rest) = bytes_of moof ++ (bytes_of mdat ++ fragment_bytes rest)

scan_init_box :
    (n : ℕ) (x : Box) (rest : Bytes) (size : ℕ)
    → IsSized x
    → box_type x ≢ codes "moof"
    → scan_init (suc n) (bytes_of x ++ rest) size ≡ scan_init n rest (size + length (bytes_of x))
unfolding scan_init read_box_header box_type
scan_init_box n x rest size s t =
    rw (fine_size x s, other_bytes (box_type x) (codes "moof") t, past x rest s)
      (ap (λ i. scan_init n rest (size + i)) s.0)

scan_init_moof :
    (n : ℕ) (x : Box) (rest : Bytes) (size : ℕ)
    → IsSized x
    → box_type x ≡ codes "moof"
    → scan_init (suc n) (bytes_of x ++ rest) size ≡ size
unfolding scan_init read_box_header box_type
scan_init_moof n x rest size s t = rw (fine_size x s, same_bytes (box_type x) (codes "moof") t) refl

-- How long a fragment lasts in ticks: the durations of the samples in the first track of its first part together,
-- modulo 2^32, and one second if that is nothing.
abbrev pub total : List Sample → ℕ
total [] = 0
total (s ∷ samples) = s.duration + total samples

abbrev pub first_samples : Option (List Part) → List Sample
first_samples none = []
first_samples (some []) = []
first_samples (some ([] ∷ parts)) = []
first_samples (some ((t ∷ tracks) ∷ parts)) = t.samples

abbrev pub or_second : ℕ → ℕ
or_second zero = 90000
or_second (suc n) = suc n

pub lasts : Option (List Part) → ℕ
lasts parts = or_second (total (first_samples parts) % 2 ^ 32)

sum_durations-total :
    (samples : List Sample) (sum : ℕ)
    → sum < 2 ^ 32
    → sum_durations samples sum ≡ (sum + total samples) % 2 ^ 32
unfolding sum_durations
sum_durations-total [] sum h = omega arith
sum_durations-total (s ∷ samples) sum h =
    sum_durations-total samples ((sum + s.duration) % 2 ^ 32) (omega arith) ∙ omega arith

or_second-if : (n : ℕ) → (if ltb 0 n then n else 90000) ≡ or_second n
or_second-if zero = refl
or_second-if (suc n) = ground arith

part_duration-lasts : (parts : Option (List Part)) → part_duration parts ≡ lasts parts
unfolding part_duration lasts
part_duration-lasts none = refl
part_duration-lasts (some []) = refl
part_duration-lasts (some ([] ∷ parts)) = refl
part_duration-lasts (some ((t ∷ tracks) ∷ parts)) =
    let whole_sum : sum_durations t.samples 0 ≡ total t.samples % 2 ^ 32 =
      sum_durations-total t.samples 0 (omega arith) ∙ omega arith in
    or_second-if (sum_durations t.samples 0) ∙ ap or_second whole_sum

module _ (unmarshal : Bytes → Option (List Part)) where
  -- The parts of the fragments, one behind the other.
  abbrev pub parts_of : ℕ → List (Box × Box) → List PartInfo
  parts_of offset [] = []
  parts_of offset ((moof, mdat) ∷ rest) =
      record { offset = offset; duration = lasts (unmarshal (bytes_of moof ++ bytes_of mdat)) }
      ∷ parts_of (offset + length (bytes_of moof) + length (bytes_of mdat)) rest

  scan_fragment :
      (n offset : ℕ) (moof mdat : Box) (rest : Bytes)
      → (IsSized moof × (box_type moof ≡ codes "moof"))
      → (IsSized mdat × (box_type mdat ≡ codes "mdat"))
      → scan_parts unmarshal (suc n) offset (bytes_of moof ++ (bytes_of mdat ++ rest))
        ≡ record {
          offset = offset;
          duration = part_duration (unmarshal (bytes_of moof ++ bytes_of mdat));
        }
          ∷ scan_parts unmarshal n (offset + length (bytes_of moof) + length (bytes_of mdat)) rest
  unfolding scan_parts read_box_header box_type
  scan_fragment n offset moof mdat rest (s, t) (s2, t2) =
      let fits : ltb (length (bytes_of moof ++ (bytes_of mdat ++ rest)))
            (big_endian moof.a moof.b moof.c moof.d)
          ≡ false =
        ground (arith, s.0, length-append moof.payload (bytes_of mdat ++ rest)) in
      let fits2 : ltb (length (bytes_of mdat ++ rest)) (big_endian mdat.a mdat.b mdat.c mdat.d)
          ≡ false =
        ground (arith, s2.0, length-append mdat.payload rest) in
      rw
        (
          fine_size moof s,
          same_bytes (box_type moof) (codes "moof") t,
          fits,
          past moof (bytes_of mdat ++ rest) s,
          fine_size mdat s2,
          same_bytes (box_type mdat) (codes "mdat") t2,
          past moof (bytes_of mdat ++ rest) s,
          fits2,
          past mdat rest s2,
        )
        (λ i.
          record {
            offset = offset;
            duration =
                part_duration
                  (unmarshal (whole moof (bytes_of mdat ++ rest) s i ++ whole mdat rest s2 i));
          }
          ∷ scan_parts unmarshal n (offset + s.0 i + s2.0 i) rest)

  scan_parts-fragments :
      (n offset : ℕ) (frags : List (Box × Box))
      → AreFragments frags
      → length (fragment_bytes frags) ≤ n
      → scan_parts unmarshal n offset (fragment_bytes frags) ≡ parts_of offset frags
  unfolding scan_parts read_box_header
  scan_parts-fragments zero offset [] h k = refl
  scan_parts-fragments (suc n) offset [] h k = refl
  scan_parts-fragments zero offset ((moof, mdat) ∷ rest) h k = absurd (omega (arith, k))
  scan_parts-fragments (suc n) offset ((moof, mdat) ∷ rest) (p, q, h) k =
      scan_fragment n offset moof mdat (fragment_bytes rest) p q
      ∙ ap
          (λ parts.
            record {
              offset = offset;
              duration = part_duration (unmarshal (bytes_of moof ++ bytes_of mdat));
            }
            ∷ parts)
          (scan_parts-fragments n (offset + length (bytes_of moof) + length (bytes_of mdat)) rest h
            (omega (
              arith,
              k,
              length-append moof.payload (bytes_of mdat ++ fragment_bytes rest),
              length-append mdat.payload (fragment_bytes rest),
            )))
      ∙ (λ i.
          record {
            offset = offset;
            duration = part_duration-lasts (unmarshal (bytes_of moof ++ bytes_of mdat)) i;
          }
          ∷ parts_of (offset + length (bytes_of moof) + length (bytes_of mdat)) rest)

  scan_init-init_bytes :
      (n size : ℕ) (inits : List Box) (frags : List (Box × Box))
      → AreInit inits
      → AreFragments frags
      → length (init_bytes inits) ≤ n
      → scan_init n (init_bytes inits ++ fragment_bytes frags) size
        ≡ size + length (init_bytes inits)
  scan_init-init_bytes zero size [] frags h g k = unfold scan_init in omega arith
  scan_init-init_bytes zero size (x ∷ xs) frags h g k = absurd (omega (arith, k))
  scan_init-init_bytes (suc n) size [] [] h g k = unfold scan_init read_box_header in omega arith
  scan_init-init_bytes (suc n) size [] ((moof, mdat) ∷ rest) h (p, q, g) k =
      scan_init_moof n moof (bytes_of mdat ++ fragment_bytes rest) size p.0 p.1 ∙ omega arith
  scan_init-init_bytes (suc n) size (x ∷ xs) frags (s, t, h) g k =
      ap (λ file. scan_init (suc n) file size)
        (append_assoc (bytes_of x) (init_bytes xs) (fragment_bytes frags))
      ∙ scan_init_box n x (init_bytes xs ++ fragment_bytes frags) size s t
      ∙ scan_init-init_bytes n (size + length (bytes_of x)) xs frags h g
          (omega (arith, k, length-append x.payload (init_bytes xs)))
      ∙ omega (arith, length-append x.payload (init_bytes xs))

  -- In a recording of boxes of at most 64 MB, of which the first is the init section without a
  -- `moof` and the rest are fragments of a `moof` and an `mdat`, the index has the size of the
  -- init section and one part for each fragment, at its offset and with its duration: that of
  -- the samples in the first track of its first part together, modulo 2^32, or one second if
  -- there is none.
  pub index_of_recording :
      (inits : List Box) (frags : List (Box × Box))
      → AreInit inits
      → AreFragments frags
      → index_of unmarshal (init_bytes inits ++ fragment_bytes frags) ≡ record {
        init_offset = 0;
        init_size = length (init_bytes inits);
        parts = parts_of (length (init_bytes inits)) frags;
      }
  unfolding index_of
  index_of_recording inits frags h g =
      let file = init_bytes inits ++ fragment_bytes frags in
      let n = length file in
      let size = length (init_bytes inits) in
      let long : n ≡ size + length (fragment_bytes frags) =
        length-append (init_bytes inits) (fragment_bytes frags) in
      let found : scan_init n file 0 ≡ size =
        scan_init-init_bytes n 0 inits frags h g (omega (arith, long)) ∙ omega arith in
      ap
        (λ k. record {
          init_offset = 0;
          init_size = k;
          parts = scan_parts unmarshal n k (drop k file);
        })
        found
      ∙ ap (λ parts. record { init_offset = 0; init_size = size; parts = parts })
          (ap (scan_parts unmarshal n size) (drop-append (init_bytes inits) (fragment_bytes frags))
            ∙ scan_parts-fragments n size frags g (omega (arith, long)))
