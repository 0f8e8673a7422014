-- ===== src/Recorder/Recovery/Boxes.antt =====
-- The files that `ValidateFMP4File` accepts, as sequences of boxes.
use native.Mathlib.Omega.{arith}
use ruseon_core.Common.{
  ℕ, zero, suc, ◌+◌, ◌-◌, ◌≤◌, ◌≡◌, ◌↔◌, refl, sym, ap, ◌∙◌, subst, Bool, true, false, ◌||◌, List,
  [], ◌∷◌, ◌++◌, ◌≢◌, ltb, take, drop, length, length-take, length-append, take-append-drop,
  drop-append,
}
use ruseon_core.Common.Bytes.{Bytes, bytes_eq, codes}
use ruseon_core.Recorder.Recovery.{
  valid, truncated_header, Flags, big_endian, note, finish, scan, validate_fmp4_file,
}

-- A box as it stands in a file: the four bytes of its size, the four of its type, and the rest.
pub record Box : Type 0 where
  pub a : ℕ
  pub b : ℕ
  pub c : ℕ
  pub d : ℕ
  pub k : ℕ
  pub l : ℕ
  pub m : ℕ
  pub o : ℕ
  pub payload : Bytes

unfoldable pub box_type : Box → Bytes
box_type x = x.k ∷ x.l ∷ x.m ∷ x.o ∷ []

-- The size that a box declares is its own.
pub AreSized : List Box → Type 0
AreSized [] = Unit
AreSized (x ∷ xs) = (big_endian x.a x.b x.c x.d ≡ 8 + length x.payload) × AreSized xs

pub render : List Box → Bytes
render [] = []
render (x ∷ xs) = x.a ∷ x.b ∷ x.c ∷ x.d ∷ x.k ∷ x.l ∷ x.m ∷ x.o ∷ (x.payload ++ render xs)

-- Some box has the type.
pub has_type : Bytes → List Box → Bool
has_type t [] = false
has_type t (x ∷ xs) = bytes_eq (box_type x) t || has_type t xs

note_all : List Box → Flags → Flags
note_all [] f = f
note_all (x ∷ xs) f = note_all xs (note (box_type x) f)

note_all-has_type :
    (xs : List Box) (f : Flags)
    → ((note_all xs f).has_moov ≡ (has_type (codes "moov") xs || f.has_moov))
      × ((note_all xs f).has_moof ≡ (has_type (codes "moof") xs || f.has_moof))
      × ((note_all xs f).has_mdat ≡ (has_type (codes "mdat") xs || f.has_mdat))
unfolding note_all has_type note
note_all-has_type [] f = (refl, refl, refl)
note_all-has_type (x ∷ xs) f =
    let (p, q, r) = note_all-has_type xs (note (box_type x) f) in
    (ground (arith, p), ground (arith, q), ground (arith, r))

scan_box :
    (n a b c d k l m o : ℕ) (payload rest : Bytes) (f : Flags)
    → big_endian a b c d ≡ 8 + length payload
    → scan (suc n) (a ∷ b ∷ c ∷ d ∷ k ∷ l ∷ m ∷ o ∷ (payload ++ rest)) f
      ≡ scan n rest (note (k ∷ l ∷ m ∷ o ∷ []) f)
unfolding scan
scan_box n a b c d k l m o payload rest f s =
    let big : ltb (big_endian a b c d) 8 ≡ false = ground (arith, s) in
    let fits : ltb (8 + length (payload ++ rest)) (big_endian a b c d) ≡ false =
      ground (arith, s, length-append payload rest) in
    let past : drop (big_endian a b c d - 8) (payload ++ rest) ≡ rest =
      ap (λ i. drop i (payload ++ rest))
        (let e : big_endian a b c d - 8 ≡ length payload = omega (arith, s) in e)
      ∙ drop-append payload rest in
    rw (big, fits, past) refl

-- What an accepted round says of a box.
accepted_box :
    (n a b c d k l m o : ℕ) (rest : Bytes) (f : Flags)
    → scan (suc n) (a ∷ b ∷ c ∷ d ∷ k ∷ l ∷ m ∷ o ∷ rest) f ≡ valid
    → (8 ≤ big_endian a b c d)
      × (big_endian a b c d ≤ 8 + length rest)
      × (scan n (drop (big_endian a b c d - 8) rest) (note (k ∷ l ∷ m ∷ o ∷ []) f) ≡ valid)
unfolding scan
accepted_box n a b c d k l m o rest f h = ground arith

truncated-ne-valid : truncated_header ≢ valid
truncated-ne-valid e = cc

-- A file made of boxes is read to its end.
scan-render :
    (n : ℕ) (xs : List Box) (f : Flags)
    → AreSized xs
    → length (render xs) ≤ n
    → scan n (render xs) f ≡ finish (note_all xs f)
unfolding scan render AreSized note_all box_type
scan-render n [] f s h = refl
scan-render zero (x ∷ xs) f s h = absurd (omega (arith, h))
scan-render (suc n) (x ∷ xs) f (s, ss) h =
    scan_box n x.a x.b x.c x.d x.k x.l x.m x.o x.payload (render xs) f s
    ∙ scan-render n xs (note (box_type x) f) ss
        (omega (arith, h, length-append x.payload (render xs)))

-- What is accepted is made of boxes.
scan_sound :
    (n : ℕ) (rest : Bytes) (f : Flags)
    → scan n rest f ≡ valid
    → (xs : List Box) × AreSized xs × (render xs ≡ rest) × (finish (note_all xs f) ≡ valid)
unfolding scan render AreSized note_all box_type
scan_sound n [] f h = ([], _, refl, h)
scan_sound zero (x ∷ xs) f h = absurd (truncated-ne-valid h)
scan_sound (suc n) (a ∷ b ∷ c ∷ d ∷ k ∷ l ∷ m ∷ o ∷ rest) f h =
    let (low, high, next) = accepted_box n a b c d k l m o rest f h in
    let size = big_endian a b c d in
    let (xs, sized, e, fin) =
      scan_sound n (drop (size - 8) rest) (note (k ∷ l ∷ m ∷ o ∷ []) f) next in
    (
      box (take (size - 8) rest) ∷ xs,
      (omega (arith, low, high, length-take (size - 8) rest), sized),
      ap (λ r. a ∷ b ∷ c ∷ d ∷ k ∷ l ∷ m ∷ o ∷ r)
          (ap (◌++◌ (take (size - 8) rest)) e ∙ take-append-drop (size - 8) rest),
      fin,
    )
  where
    box : Bytes → Box
    box p = record { a = a; b = b; c = c; d = d; k = k; l = l; m = m; o = o; payload = p }
scan_sound (suc n) _ f h = absurd (truncated-ne-valid h)

finish_iff :
    (f : Flags)
    → (finish f ≡ valid) ↔ ((f.has_moov ≡ true) × (f.has_moof ≡ true) × (f.has_mdat ≡ true))
unfolding finish
finish_iff f = ground arith

-- A recording: 32 bytes at least, boxes that each declare their own size, and nothing after the last.
pub IsRecording : Bytes → Type 0
IsRecording file =
    (32 ≤ length file)
    × ((xs : List Box) × AreSized xs
        × (render xs ≡ file)
        × (has_type (codes "moov") xs ≡ true)
        × (has_type (codes "moof") xs ≡ true)
        × (has_type (codes "mdat") xs ≡ true))

abbrev start : Flags
start = record { has_moov = false; has_moof = false; has_mdat = false }

no_flag : (b : Bool) → (b || false) ≡ b
no_flag true = refl
no_flag false = refl

start-has_type :
    (xs : List Box)
    → ((note_all xs start).has_moov ≡ has_type (codes "moov") xs)
      × ((note_all xs start).has_moof ≡ has_type (codes "moof") xs)
      × ((note_all xs start).has_mdat ≡ has_type (codes "mdat") xs)
start-has_type xs =
    let (p, q, r) = note_all-has_type xs start in (p ∙ no_flag _, q ∙ no_flag _, r ∙ no_flag _)

validate_inv :
    (file : Bytes)
    → (validate_fmp4_file file ≡ valid)
      ↔ ((32 ≤ length file) × (scan (length file) file start ≡ valid))
unfolding validate_fmp4_file
validate_inv file = ground arith

-- `ValidateFMP4File` accepts a file exactly if it has 32 bytes at least and is a sequence of boxes that each
-- declare their own size, with nothing after the last, among them a `moov`, a `moof` and a `mdat`.
pub validate_fmp4_file_iff : (file : Bytes) → (validate_fmp4_file file ≡ valid) ↔ IsRecording file
unfolding IsRecording
validate_fmp4_file_iff file = (accepted, accepts)
  where
    accepted : validate_fmp4_file file ≡ valid → IsRecording file
    accepted h =
        let (long, read) = (validate_inv file).0 h in
        let (xs, sized, e, fin) = scan_sound (length file) file start read in
        let (v, f, d) = (finish_iff (note_all xs start)).0 fin in
        let (p, q, r) = start-has_type xs in (long, (xs, sized, e, sym p ∙ v, sym q ∙ f, sym r ∙ d))

    accepts : IsRecording file → validate_fmp4_file file ≡ valid
    accepts (long, (xs, sized, e, v, f, d)) =
        let (p, q, r) = start-has_type xs in
        let fin = (finish_iff (note_all xs start)).1 (p ∙ v, q ∙ f, r ∙ d) in
        (validate_inv file).1 (
          long,
          subst (λ l. scan (length file) l start ≡ valid) e
              (scan-render (length file) xs start sized
                  (subst (λ l. length l ≤ length file) (sym e) (omega arith))
                ∙ fin),
        )
