-- ===== src/Hls/Muxer/Names.antt =====
-- The file names that readers ask for: of a segment, and of its subtitles.
use native.Mathlib.Omega.{arith}
use ruseon_core.Common.{
  ℕ, ◌-◌, ◌<◌, ◌≡◌, refl, sym, ap, ◌∙◌, true, false, [], ◌∷◌, ◌++◌, length, length-append, take,
  drop, take-append-drop, take-append, drop-append, if◌then◌else◌, Bool-cases, inl, inr,
}
use ruseon_core.Common.Bytes.{Bytes, bytes_discrete, bytes_eq, codes, append_left_injective}
use ruseon_core.Common.Decimal.{decimal, decimal_injective}
use ruseon_core.Hls.Muxer.{is_vtt, ts_name_of}
use ruseon_core.Hls.Playlist.{ts_name}

abbrev pub stem : ℕ → Bytes
stem n = codes "stream_" ++ decimal n

abbrev pub vtt_name : ℕ → Bytes
vtt_name n = stem n ++ codes ".vtt"

behind : (xs ys : Bytes) → length (xs ++ ys) - length ys ≡ length xs
behind xs ys = omega (arith, length-append xs ys)

append_right_injective : (xs ys zs : Bytes) → xs ++ zs ≡ ys ++ zs → xs ≡ ys
append_right_injective xs ys zs e =
    sym (take-append xs zs)
    ∙ ap (λ k. take k (xs ++ zs)) (sym (behind xs zs))
    ∙ ap (λ l. take (length l - length zs) l) e
    ∙ ap (λ k. take k (ys ++ zs)) (behind ys zs)
    ∙ take-append ys zs

pub ts_name_injective : (a b : ℕ) → ts_name a ≡ ts_name b → a ≡ b
unfolding ts_name
ts_name_injective a b e = decimal_injective a b (
    append_right_injective (decimal a) (decimal b) (codes ".ts") (
      append_left_injective (codes "stream_") (decimal a ++ codes ".ts") (decimal b ++ codes ".ts")
        e))

last_byte : Bytes → ℕ
last_byte [] = 0
last_byte (c ∷ []) = c
last_byte (c ∷ d ∷ rest) = last_byte (d ∷ rest)

last_byte-append :
    (xs : Bytes) (c : ℕ) (cs : Bytes) → last_byte (xs ++ (c ∷ cs)) ≡ last_byte (c ∷ cs)
unfolding last_byte
last_byte-append [] c cs = refl
last_byte-append (x ∷ []) c cs = refl
last_byte-append (x ∷ y ∷ xs) c cs = last_byte-append (y ∷ xs) c cs

equal_bytes : (a b : Bytes) → bytes_eq a b ≡ true → a ≡ b
equal_bytes a b e = elim (bytes_discrete a b) [ yes p ↦ p | no d ↦ absurd (ground (arith, e, d)) ]

same_bytes : (a b : Bytes) → a ≡ b → bytes_eq a b ≡ true
same_bytes a b p = ground (arith, p)

-- A segment's name does not end like the name of subtitles.
pub ts_name-is_vtt : (n : ℕ) → is_vtt (ts_name n) ≡ false
unfolding is_vtt ts_name last_byte
ts_name-is_vtt n = elim (Bool-cases (is_vtt (ts_name n))) [
  | inr f ↦ f
  | inl t ↦
      let k = length (ts_name n) - 4 in
      let e : bytes_eq (drop k (ts_name n)) (codes ".vtt") ≡ true = ground (arith, t) in
      let same : ts_name n ≡ take k (ts_name n) ++ codes ".vtt" =
        sym (take-append-drop k (ts_name n))
        ∙ ap (λ l. take k (ts_name n) ++ l) (equal_bytes (drop k (ts_name n)) (codes ".vtt") e) in
      let ends : 115 ≡ last_byte (ts_name n) =
        sym (last_byte-append (stem n) 46 (116 ∷ 115 ∷ [])) in
      absurd (
        omega (
          arith,
          ends,
          ap last_byte same,
          last_byte-append (take k (ts_name n)) 46 (118 ∷ 116 ∷ 116 ∷ []),
        ))
]

pub vtt_name-is_vtt : (n : ℕ) → is_vtt (vtt_name n) ≡ true
unfolding is_vtt
vtt_name-is_vtt n =
    let same : drop (length (vtt_name n) - 4) (vtt_name n) ≡ codes ".vtt" =
      ap (λ k. drop k (vtt_name n)) (behind (stem n) (codes ".vtt"))
      ∙ drop-append (stem n) (codes ".vtt") in
    let long : 4 < length (vtt_name n) = omega (arith, length-append (stem n) (codes ".vtt")) in
    let e : bytes_eq (drop (length (vtt_name n) - 4) (vtt_name n)) (codes ".vtt") ≡ true =
      same_bytes (drop (length (vtt_name n) - 4) (vtt_name n)) (codes ".vtt") same in
    ground (arith, long, e)

-- Either name leads to the segment's name.
pub ts_name_of-ts_name : (n : ℕ) → ts_name_of (ts_name n) ≡ ts_name n
unfolding ts_name_of
ts_name_of-ts_name n = ground (arith, ts_name-is_vtt n)

pub ts_name_of-vtt_name : (n : ℕ) → ts_name_of (vtt_name n) ≡ ts_name n
unfolding ts_name_of ts_name
ts_name_of-vtt_name n =
    let same : take (length (vtt_name n) - 4) (vtt_name n) ≡ stem n =
      ap (λ k. take k (vtt_name n)) (behind (stem n) (codes ".vtt"))
      ∙ take-append (stem n) (codes ".vtt") in
    ap (λ b. if b then take (length (vtt_name n) - 4) (vtt_name n) ++ codes ".ts" else vtt_name n)
      (vtt_name-is_vtt n)
    ∙ ap (λ l. l ++ codes ".ts") same
