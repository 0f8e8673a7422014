-- ===== src/Archive/Export.antt =====
-- `ExportMP4` of internal/archive/export.go: a part of a recording as a file of its own. The file does not change
-- in between. The result is what has been written at the end, or none after an error.
use native.Mathlib.Omega.{arith}
use mathlib.Core.List.{append_assoc}
use ruseon_core.Common.{
  ℕ, zero, suc, ◌+◌, ◌-◌, ◌<◌, ◌≤◌, ◌≡◌, refl, sym, ap, ◌∙◌, subst, false, Option, none, some, List,
  [], ◌∷◌, ◌++◌, if◌then◌else◌, ltb, leb, take, drop, length, length-append, take-append,
  drop-append,
}
use ruseon_core.Archive.Cache.{IndexLruCache}
use ruseon_core.Archive.Index.{PartInfo, FileIndex, Part, index_of}
use ruseon_core.Archive.Index.Fragments.{
  bytes_of, AreInit, AreFragments, init_bytes, fragment_bytes, parts_of, index_of_recording,
}
use ruseon_core.Archive.Playback.{Fmp4, get_file_index}
use ruseon_core.Common.Bytes.{Bytes}
use ruseon_core.Common.Int.{ℤ, pos, negsuc}
use ruseon_core.Recorder.Recovery.Boxes.{Box}

-- `io.CopyN`
unfoldable pub copy_n : ℕ → Bytes → Option Bytes
copy_n n bytes = if ltb (length bytes) n then none else some (take n bytes)

-- The end of a part: the start of the next one, or the end of the file.
abbrev pub next_offset : ℕ → List PartInfo → ℕ
next_offset size [] = size
next_offset size (p ∷ parts) = p.offset

abbrev pub joined : Option Bytes → Option Bytes → Option Bytes
joined none rest = none
joined (some part) none = none
joined (some part) (some rest) = some (part ++ rest)

unfoldable pub copy_parts : Bytes → ℕ → List PartInfo → Option Bytes
copy_parts file zero parts = some []
copy_parts file (suc n) [] = none
copy_parts file (suc n) (p ∷ parts) =
    joined (copy_n (next_offset (length file) parts - p.offset) (drop p.offset file))
      (copy_parts file n parts)

unfoldable pub last_seq : ℤ → ℕ → ℕ
last_seq (pos e) n = if leb n e then n - 1 else e
last_seq (negsuc e) n = n - 1

unfoldable pub first_seq : ℤ → ℕ → ℕ
first_seq (pos s) last = if ltb last s then last else s
first_seq (negsuc s) last = 0

unfoldable pub export_of : Bytes → FileIndex → ℤ → ℤ → Option Bytes
export_of file idx start_seq end_seq =
    let last = last_seq end_seq (length idx.parts) in
    let first = first_seq start_seq last in
    if leb (length idx.parts) 0
    then none
    else joined (copy_n idx.init_size (drop idx.init_offset file))
        (copy_parts file (last + 1 - first) (drop first idx.parts))

module _ (open_blob : Bytes → Option Bytes) (fmp4 : Fmp4) where
  unfoldable pub export_mp4 :
      Bytes → ℤ → ℤ → IndexLruCache FileIndex → IndexLruCache FileIndex × Option Bytes
  export_mp4 path start_seq end_seq cache =
      let (cache', found) = get_file_index open_blob fmp4 path cache in
      elim found [
        | none ↦ (cache', none)
        | some idx ↦ elim (open_blob path) [
          | none ↦ (cache', none)
          | some file ↦ (cache', export_of file idx start_seq end_seq)
        ]
      ]

copy_whole : (n : ℕ) (xs ys : Bytes) → n ≡ length xs → copy_n n (xs ++ ys) ≡ some xs
unfolding copy_n
copy_whole n xs ys e =
    let fits : ltb (length (xs ++ ys)) n ≡ false = ground (arith, e, length-append xs ys) in
    rw fits (ap (λ k. some (take k (xs ++ ys))) e ∙ ap some (take-append xs ys))

module _ (unmarshal : Bytes → Option (List Part)) where
  next_offset-parts_of :
      (size offset : ℕ) (frags : List (Box × Box))
      → offset + length (fragment_bytes frags) ≡ size
      → next_offset size (parts_of unmarshal offset frags) ≡ offset
  next_offset-parts_of size offset [] e = omega (arith, e)
  next_offset-parts_of size offset ((moof, mdat) ∷ rest) e = refl

  -- The file with one more fragment in front.
  front_grows :
      (front : Bytes) (m d : Box) (rest : List (Box × Box))
      → front ++ (bytes_of m ++ bytes_of d) ++ fragment_bytes rest
        ≡ front ++ (bytes_of m ++ (bytes_of d ++ fragment_bytes rest))
  front_grows front m d rest =
      append_assoc front (bytes_of m ++ bytes_of d) (fragment_bytes rest)
      ∙ ap (λ r. front ++ r) (append_assoc (bytes_of m) (bytes_of d) (fragment_bytes rest))

  length-front :
      (front : Bytes) (m d : Box)
      → length (front ++ (bytes_of m ++ bytes_of d))
        ≡ length front + length (bytes_of m) + length (bytes_of d)
  length-front front m d =
      omega (
        arith,
        length-append front (bytes_of m ++ bytes_of d),
        length-append m.payload (bytes_of d),
      )

  -- A statement on the parts behind a front, moved one fragment on.
  move_on :
      (P : Bytes → List PartInfo → Type 0) (front : Bytes) (m d : Box) (rest : List (Box × Box))
      → P
          (front ++ (bytes_of m ++ bytes_of d) ++ fragment_bytes rest)
          (parts_of unmarshal (length (front ++ (bytes_of m ++ bytes_of d))) rest)
      → P
          (front ++ (bytes_of m ++ (bytes_of d ++ fragment_bytes rest)))
          (parts_of unmarshal (length front + length (bytes_of m) + length (bytes_of d)) rest)
  move_on P front m d rest h =
      subst
        (λ f.
          P f (parts_of unmarshal (length front + length (bytes_of m) + length (bytes_of d)) rest))
        (front_grows front m d rest)
        (subst
          (λ k.
            P (front ++ (bytes_of m ++ bytes_of d) ++ fragment_bytes rest)
              (parts_of unmarshal k rest))
          (length-front front m d) h)

  copy_parts-parts_of :
      (front : Bytes) (n : ℕ) (frags : List (Box × Box))
      → n ≤ length frags
      → copy_parts (front ++ fragment_bytes frags) n (parts_of unmarshal (length front) frags)
        ≡ some (fragment_bytes (take n frags))
  unfolding copy_parts
  copy_parts-parts_of front zero frags h = refl
  copy_parts-parts_of front (suc n) [] h = absurd (omega (arith, h))
  copy_parts-parts_of front (suc n) ((m, d) ∷ rest) h =
      let file = front ++ (bytes_of m ++ (bytes_of d ++ fragment_bytes rest)) in
      let offset = length front + length (bytes_of m) + length (bytes_of d) in
      let size : length (bytes_of m ++ bytes_of d) ≡ length (bytes_of m) + length (bytes_of d) =
        length-append (bytes_of m) (bytes_of d) in
      let next : next_offset (length file) (parts_of unmarshal offset rest) ≡ offset =
        next_offset-parts_of (length file) offset rest (
          omega (
            arith,
            length-append front (bytes_of m ++ (bytes_of d ++ fragment_bytes rest)),
            length-append m.payload (bytes_of d ++ fragment_bytes rest),
            length-append d.payload (fragment_bytes rest),
          )) in
      let copied : copy_n
            (next_offset (length file) (parts_of unmarshal offset rest) - length front)
            (drop (length front) file)
          ≡ some (bytes_of m ++ bytes_of d) =
        ap (copy_n (next_offset (length file) (parts_of unmarshal offset rest) - length front)) (
          drop-append front (bytes_of m ++ (bytes_of d ++ fragment_bytes rest))
          ∙ sym (append_assoc (bytes_of m) (bytes_of d) (fragment_bytes rest)))
        ∙ copy_whole (next_offset (length file) (parts_of unmarshal offset rest) - length front)
            (bytes_of m ++ bytes_of d) (fragment_bytes rest) (omega (arith, next, size)) in
      let others =
        move_on (λ f parts. copy_parts f n parts ≡ some (fragment_bytes (take n rest))) front m d
          rest
          (copy_parts-parts_of (front ++ (bytes_of m ++ bytes_of d)) n rest (omega (arith, h))) in
      (λ i. joined (copied i) (others i))
      ∙ ap some (append_assoc (bytes_of m) (bytes_of d) (fragment_bytes (take n rest)))

  copy_parts-drop :
      (front : Bytes) (s n : ℕ) (frags : List (Box × Box))
      → s + n ≤ length frags
      → copy_parts
          (front ++ fragment_bytes frags)
          n
          (drop s (parts_of unmarshal (length front) frags))
        ≡ some (fragment_bytes (take n (drop s frags)))
  copy_parts-drop front zero n frags h = copy_parts-parts_of front n frags (omega (arith, h))
  copy_parts-drop front (suc s) n [] h = absurd (omega (arith, h))
  copy_parts-drop front (suc s) n ((m, d) ∷ rest) h =
      move_on
        (λ f parts. copy_parts f n (drop s parts) ≡ some (fragment_bytes (take n (drop s rest))))
        front m d rest
        (copy_parts-drop (front ++ (bytes_of m ++ bytes_of d)) s n rest (omega (arith, h)))

  length-parts_of :
      (offset : ℕ) (frags : List (Box × Box))
      → length (parts_of unmarshal offset frags) ≡ length frags
  length-parts_of offset [] = refl
  length-parts_of offset ((m, d) ∷ rest) =
      ap suc (length-parts_of (offset + length (bytes_of m) + length (bytes_of d)) rest)

  -- Of a recording that is an init section and fragments, with boxes of at most 64 MB, the export of the parts from
  -- `s` to `e`, which exist, is the init section with just the fragments from `s` to `e`, byte for byte.
  pub export_of_lem :
      (inits : List Box) (frags : List (Box × Box)) (s e : ℕ)
      → AreInit inits
      → AreFragments frags
      → s ≤ e
      → e < length frags
      → export_of
          (init_bytes inits ++ fragment_bytes frags)
          (index_of unmarshal (init_bytes inits ++ fragment_bytes frags))
          (pos s)
          (pos e)
        ≡ some (init_bytes inits ++ fragment_bytes (take (e + 1 - s) (drop s frags)))
  unfolding export_of
  export_of_lem inits frags s e h g k small =
      let file = init_bytes inits ++ fragment_bytes frags in
      let size = length (init_bytes inits) in
      let parts = parts_of unmarshal size frags in
      let n : length parts ≡ length frags = length-parts_of size frags in
      let last : last_seq (pos e) (length parts) ≡ e =
        unfold last_seq in ground (arith, n, small) in
      let first : first_seq (pos s) e ≡ s = unfold first_seq in ground (arith, k) in
      let some_parts : leb (length parts) 0 ≡ false = ground (arith, n, small) in
      ap (λ idx. export_of file idx (pos s) (pos e)) (index_of_recording unmarshal inits frags h g)
      ∙ rw (some_parts, last, first)
          (λ i.
            joined (copy_whole size (init_bytes inits) (fragment_bytes frags) refl i)
              (copy_parts-drop (init_bytes inits) s (e + 1 - s) frags (omega (arith, k, small)) i))
