-- ===== src/Hls/Segments/Arc.antt =====
-- The invariant of the store: reference counts against references, and the owner of each buffer.
use native.Mathlib.Omega.{arith}
use mathlib.Core.Option.{none-ne-some}
use ruseon_core.Common.{
  ℕ, suc, ◌+◌, ◌-◌, ◌%◌, ◌<◌, ◌≤◌, ◌≡◌, ◌≢◌, refl, sym, ap, ◌∙◌, subst, true, false, Option, none,
  some, List, [], ◌∷◌, ◌==◌, length, ℕ_discrete, Option-cases, Bool-cases, inl, inr, take,
}
use ruseon_core.Common.Bytes.{Bytes}
use ruseon_core.Common.Count.{count, count-le-length}
use ruseon_core.Common.Heap.{update, update_self, update_ne, update-ap}
use ruseon_core.Hls.Segments.{
  two32, Content, in_buffer, copied, nothing, Segment, Store, contents, data_of, write_segment,
  retain, put_buffer, release,
}

-- A store in which the segments of the list `cs` are referred to, as often as they stand in it, and the
-- buffer `cur` is being filled.
pub record IsValid (st : Store) (cs : List ℕ) (cur : Option ℕ) : Type 0 where
  pub bounded : length cs < two32
  pub counted : (a : ℕ) → (st.heap a).ref_count ≡ count a cs
  pub unpooled : (a b : ℕ) → (st.heap a).buf ≡ some b → count b st.pool ≡ 0
  pub not_current : (a b : ℕ) → (st.heap a).buf ≡ some b → cur ≢ some b
  pub low : (a b : ℕ) → (st.heap a).buf ≡ some b → b < st.next_buffer
  pub live : (a b : ℕ) → (st.heap a).buf ≡ some b → 0 < count a cs
  pub apart : (a a' b : ℕ) → (st.heap a).buf ≡ some b → (st.heap a').buf ≡ some b → a ≡ a'
  pub slices : (a b n : ℕ) → (st.heap a).bytes ≡ in_buffer b n → (st.heap a).buf ≡ some b
  pub current_unpooled : (b : ℕ) → cur ≡ some b → count b st.pool ≡ 0
  pub current_low : (b : ℕ) → cur ≡ some b → b < st.next_buffer
  pub pooled_once : (b : ℕ) → count b st.pool ≤ 1
  pub pooled_low : (b : ℕ) → 0 < count b st.pool → b < st.next_buffer
  pub fresh : (a : ℕ) → st.next_segment ≤ a → count a cs ≡ 0

-- The order of the references does not matter.
pub recounted-IsValid :
    (cs cs' : List ℕ) (cur : Option ℕ) (st : Store)
    → IsValid st cs cur
    → length cs' ≡ length cs
    → ((a : ℕ) → count a cs' ≡ count a cs)
    → IsValid st cs' cur
recounted-IsValid cs cs' cur st v n e = record {
  bounded = omega (arith, v.bounded, n);
  counted = λ a. v.counted a ∙ sym (e a);
  unpooled = v.unpooled;
  not_current = v.not_current;
  low = v.low;
  live = λ a b h. omega (arith, e a, v.live a b h);
  apart = v.apart;
  slices = v.slices;
  current_unpooled = v.current_unpooled;
  current_low = v.current_low;
  pooled_once = v.pooled_once;
  pooled_low = v.pooled_low;
  fresh = λ a h. e a ∙ v.fresh a h;
}

-- The buffer that was being filled is dropped.
pub dropped-IsValid :
    (cs : List ℕ) (cur : Option ℕ) (st : Store) → IsValid st cs cur → IsValid st cs none
dropped-IsValid cs cur st v = record {
  bounded = v.bounded;
  counted = v.counted;
  unpooled = v.unpooled;
  not_current = λ a b h e. none-ne-some b e;
  low = v.low;
  live = v.live;
  apart = v.apart;
  slices = v.slices;
  current_unpooled = λ b e. absurd (none-ne-some b e);
  current_low = λ b e. absurd (none-ne-some b e);
  pooled_once = v.pooled_once;
  pooled_low = v.pooled_low;
  fresh = v.fresh;
}

-- What readers see of the segments that are referred to stays.
unfoldable pub Keeps : List ℕ → Store → Store → Type 0
Keeps cs st st' = (a : ℕ) → 0 < count a cs → data_of st' a ≡ data_of st a

pub nothing-ne-in_buffer : (b n : ℕ) → nothing ≢ in_buffer b n
nothing-ne-in_buffer b n e = cc

-- A write of a segment with another count: buffers and bytes stay.
abbrev pub recount : ℕ → ℕ → Store → Store
recount a n st = record st {
  heap = update ℕ_discrete st.heap a (record (st.heap a) { ref_count = n });
}

recount-buf : (a n x : ℕ) (st : Store) → ((recount a n st).heap x).buf ≡ (st.heap x).buf
recount-buf a n x st =
    update-ap ℕ_discrete (λ seg. seg.buf) st.heap a x (record (st.heap a) { ref_count = n }) refl

recount-bytes : (a n x : ℕ) (st : Store) → ((recount a n st).heap x).bytes ≡ (st.heap x).bytes
recount-bytes a n x st =
    update-ap ℕ_discrete (λ seg. seg.bytes) st.heap a x (record (st.heap a) { ref_count = n }) refl

recount-counted :
    (a n : ℕ) (cs cs' : List ℕ) (st : Store)
    → ((x : ℕ) → (st.heap x).ref_count ≡ count x cs)
    → n ≡ count a cs'
    → ((x : ℕ) → a ≢ x → count x cs' ≡ count x cs)
    → (x : ℕ) → ((recount a n st).heap x).ref_count ≡ count x cs'
recount-counted a n cs cs' st v e same x = elim (ℕ_discrete a x) [
  | yes p ↦
      subst (λ i. ((recount a n st).heap i).ref_count ≡ count i cs') p
        (ap (λ seg. seg.ref_count)
            (update_self ℕ_discrete st.heap a (record (st.heap a) { ref_count = n }))
          ∙ e)
  | no d ↦
      ap (λ seg. seg.ref_count)
        (update_ne ℕ_discrete st.heap a x (record (st.heap a) { ref_count = n }) d)
      ∙ v x
      ∙ sym (same x d)
]

recount-IsValid :
    (a n : ℕ) (cs cs' : List ℕ) (cur : Option ℕ) (st : Store)
    → IsValid st cs cur
    → length cs' < two32
    → n ≡ count a cs'
    → ((x : ℕ) → a ≢ x → count x cs' ≡ count x cs)
    → ((x b : ℕ) → (st.heap x).buf ≡ some b → 0 < count x cs')
    → ((x : ℕ) → st.next_segment ≤ x → count x cs' ≡ 0)
    → IsValid (recount a n st) cs' cur
recount-IsValid a n cs cs' cur st v small e same used low = record {
  bounded = small;
  counted = recount-counted a n cs cs' st v.counted e same;
  unpooled = λ x b h. v.unpooled x b (same_buf x h);
  not_current = λ x b h. v.not_current x b (same_buf x h);
  low = λ x b h. v.low x b (same_buf x h);
  live = λ x b h. used x b (same_buf x h);
  apart = λ x y b h k. v.apart x y b (same_buf x h) (same_buf y k);
  slices = λ x b m h. recount-buf a n x st ∙ v.slices x b m (sym (recount-bytes a n x st) ∙ h);
  current_unpooled = v.current_unpooled;
  current_low = v.current_low;
  pooled_once = v.pooled_once;
  pooled_low = v.pooled_low;
  fresh = low;
}
  where
    same_buf : {b : ℕ} (x : ℕ) → ((recount a n st).heap x).buf ≡ some b → (st.heap x).buf ≡ some b
    same_buf x h = sym (recount-buf a n x st) ∙ h

-- One more reference to a segment that has some.
pub retain-IsValid :
    (a : ℕ) (cs : List ℕ) (cur : Option ℕ) (st : Store)
    → IsValid st cs cur
    → 0 < count a cs
    → suc (length cs) < two32
    → IsValid (retain a st) (a ∷ cs) cur
unfolding retain write_segment
retain-IsValid a cs cur st v some_ small =
    recount-IsValid a (((st.heap a).ref_count + 1) % two32) cs (a ∷ cs) cur st v small
      (unfold count in ground (arith, v.counted a, count-le-length a cs))
      (λ x d. unfold count in ground (arith, d))
      (λ x b h. unfold count in ground (arith, v.live x b h))
      (λ x h. unfold count in ground (arith, v.fresh x h, v.fresh a))

pub retain-Keeps : (a : ℕ) (cs : List ℕ) (st : Store) → Keeps cs st (retain a st)
unfolding retain write_segment Keeps
retain-Keeps a cs st x h =
    ap (contents st.buffers) (recount-bytes a (((st.heap a).ref_count + 1) % two32) x st)

-- The count that a release leaves.
abbrev pub left : ℕ → Store → ℕ
left a st = ((st.heap a).ref_count + (two32 - 1)) % two32

abbrev pub emptied : ℕ → Store → Segment
emptied a st = record (st.heap a) { ref_count = left a st; buf = none; bytes = nothing }

-- The last reference to a segment that has a buffer goes: the buffer is the pool's again.
abbrev pub retired : ℕ → ℕ → Store → Store
retired a b st = record st {
  heap = update ℕ_discrete st.heap a (emptied a st);
  buffers = update ℕ_discrete st.buffers b [];
  pool = b ∷ st.pool;
}

pub release_last :
    (a b : ℕ) (st : Store)
    → (left a st == 0) ≡ true
    → (st.heap a).buf ≡ some b
    → release a st ≡ retired a b st
unfolding release write_segment put_buffer
release_last a b st z e = rw z (rw (e, release) refl)

pub release_copy :
    (a : ℕ) (st : Store)
    → (left a st == 0) ≡ true
    → (st.heap a).buf ≡ none
    → release a st ≡ recount a (left a st) st
unfolding release write_segment put_buffer
release_copy a st z e = ground arith

pub release_more :
    (a : ℕ) (st : Store) → (left a st == 0) ≡ false → release a st ≡ recount a (left a st) st
unfolding release write_segment put_buffer
release_more a st z = rw z refl

count_other : (a x : ℕ) (cs : List ℕ) → a ≢ x → count x (a ∷ cs) ≡ count x cs
unfolding count
count_other a x cs d = ground (arith, d)

left-count :
    (a : ℕ) (cs : List ℕ) (cur : Option ℕ) (st : Store)
    → IsValid st (a ∷ cs) cur
    → left a st ≡ count a cs
unfolding count
left-count a cs cur st v = ground (arith, v.counted a, v.bounded, count-le-length a cs)

pub ap_lt : {b c n : ℕ} → b ≡ c → b < n → c < n
ap_lt e h = omega arith

pub contents-update :
    (buffers : ℕ → Bytes) (b : ℕ) (bs : Bytes) (k : Content)
    → ((n : ℕ) → k ≢ in_buffer b n)
    → contents (update ℕ_discrete buffers b bs) k ≡ contents buffers k
contents-update buffers b bs (in_buffer c n) h =
    ap (take n) (update_ne ℕ_discrete buffers b c bs (λ e. h n (ap (λ i. in_buffer i n) (sym e))))
contents-update buffers b bs (copied cs) h = refl
contents-update buffers b bs nothing h = refl

module _ (a b : ℕ) (st : Store) where
  retired-buf :
      (x c : ℕ) → ((retired a b st).heap x).buf ≡ some c → (a ≢ x) × ((st.heap x).buf ≡ some c)
  retired-buf x c h = elim (ℕ_discrete a x) [
    | yes p ↦ absurd (
        none-ne-some c (
          sym (ap (λ seg. seg.buf) (update_self ℕ_discrete st.heap a (emptied a st)))
          ∙ ap (λ i. ((retired a b st).heap i).buf) p
          ∙ h))
    | no d ↦ (d, sym (ap (λ seg. seg.buf) (update_ne ℕ_discrete st.heap a x (emptied a st) d)) ∙ h)
  ]

  retired-bytes :
      (x c n : ℕ)
      → ((retired a b st).heap x).bytes ≡ in_buffer c n
      → (a ≢ x) × ((st.heap x).bytes ≡ in_buffer c n)
  retired-bytes x c n h = elim (ℕ_discrete a x) [
    | yes p ↦ absurd (
        nothing-ne-in_buffer c n (
          sym (ap (λ seg. seg.bytes) (update_self ℕ_discrete st.heap a (emptied a st)))
          ∙ ap (λ i. ((retired a b st).heap i).bytes) p
          ∙ h))
    | no d ↦
        (d, sym (ap (λ seg. seg.bytes) (update_ne ℕ_discrete st.heap a x (emptied a st) d)) ∙ h)
  ]

  retired-IsValid :
      (cs : List ℕ) (cur : Option ℕ)
      → IsValid st (a ∷ cs) cur
      → (st.heap a).buf ≡ some b
      → left a st ≡ 0
      → IsValid (retired a b st) cs cur
  retired-IsValid cs cur v e z = record {
    bounded = omega (arith, v.bounded);
    counted = λ x. elim (ℕ_discrete a x) [
      | yes p ↦
          subst (λ i. ((retired a b st).heap i).ref_count ≡ count i cs) p
            (ap (λ seg. seg.ref_count) (update_self ℕ_discrete st.heap a (emptied a st))
              ∙ left-count a cs cur st v)
      | no d ↦
          ap (λ seg. seg.ref_count) (update_ne ℕ_discrete st.heap a x (emptied a st) d)
          ∙ v.counted x
          ∙ count_other a x cs d
    ];
    unpooled = λ x c h.
        let (d, h') = retired-buf x c h in
        let other : b ≢ c = λ p. d (v.apart a x c (e ∙ ap some p) h') in
        unfold count in ground (arith, v.unpooled x c h', other);
    not_current = λ x c h. v.not_current x c (retired-buf x c h).1;
    low = λ x c h. v.low x c (retired-buf x c h).1;
    live = λ x c h.
        let (d, h') = retired-buf x c h in unfold count in ground (arith, v.live x c h', d);
    apart = λ x y c h k. v.apart x y c (retired-buf x c h).1 (retired-buf y c k).1;
    slices = λ x c n h.
        let (d, h') = retired-bytes x c n h in
        ap (λ seg. seg.buf) (update_ne ℕ_discrete st.heap a x (emptied a st) d) ∙ v.slices x c n h';
    current_unpooled = λ c h.
        let other : b ≢ c = λ p. v.not_current a b e (h ∙ ap some (sym p)) in
        unfold count in ground (arith, v.current_unpooled c h, other);
    current_low = v.current_low;
    pooled_once = λ c. unfold count in ground (arith, v.pooled_once c, v.unpooled a b e);
    pooled_low = λ c h. elim (ℕ_discrete b c) [
      | yes p ↦ ap_lt p (v.low a b e)
      | no d ↦ v.pooled_low c (unfold count in ground (arith, h, d))
    ];
    fresh = λ x h. unfold count in ground (arith, v.fresh x h);
  }

  retired-Keeps :
      (cs : List ℕ) (cur : Option ℕ)
      → IsValid st (a ∷ cs) cur
      → (st.heap a).buf ≡ some b
      → left a st ≡ 0
      → Keeps cs st (retired a b st)
  unfolding Keeps
  retired-Keeps cs cur v e z x h =
      let d : a ≢ x =
        λ p. absurd (omega (arith, ap (λ i. count i cs) p, left-count a cs cur st v, h, z)) in
      ap (contents (update ℕ_discrete st.buffers b []))
        (ap (λ seg. seg.bytes) (update_ne ℕ_discrete st.heap a x (emptied a st) d))
      ∙ contents-update st.buffers b [] (st.heap x).bytes
          (λ n p. d (v.apart a x b e (v.slices x b n p)))

recounted-Keeps : (a n : ℕ) (cs : List ℕ) (st : Store) → Keeps cs st (recount a n st)
unfolding Keeps
recounted-Keeps a n cs st x h = ap (contents st.buffers) (recount-bytes a n x st)

-- What an operation on the store must do.
unfoldable pub IsSafe : Store → List ℕ → Option ℕ → Store → Type 0
IsSafe st cs cur st' = IsValid st' cs cur × Keeps cs st st'

pub release-IsSafe :
    (a : ℕ) (cs : List ℕ) (cur : Option ℕ) (st : Store)
    → IsValid st (a ∷ cs) cur
    → IsSafe st cs cur (release a st)
unfolding IsSafe
release-IsSafe a cs cur st v = elim (Bool-cases (left a st == 0)) [
  | inr more ↦
      subst (IsSafe st cs cur) (sym (release_more a st more))
        (counted (λ b h. ground (arith, more, left-count a cs cur st v)))
  | inl last ↦ elim (Option-cases (st.heap a).buf) [
    | inl e ↦
        subst (IsSafe st cs cur) (sym (release_copy a st last e))
          (counted (λ b h. absurd (none-ne-some b (sym e ∙ h))))
    | inr (b, e) ↦ subst (IsSafe st cs cur) (sym (release_last a b st last e)) (
      retired-IsValid a b st cs cur v e (ground (arith, last)),
      retired-Keeps a b st cs cur v e (ground (arith, last)),
    )
  ]
]
  where
    counted :
        ((b : ℕ) → (st.heap a).buf ≡ some b → 0 < count a cs)
        → IsValid (recount a (left a st) st) cs cur × Keeps cs st (recount a (left a st) st)
    counted used = (
      recount-IsValid a (left a st) (a ∷ cs) cs cur st v (omega (arith, v.bounded))
          (left-count a cs cur st v) (λ x d. sym (count_other a x cs d))
          (λ x b h. elim (ℕ_discrete a x) [
            | yes p ↦ subst (λ i. 0 < count i cs) p (used b (ap (λ i. (st.heap i).buf) p ∙ h))
            | no d ↦ unfold count in ground (arith, v.live x b h, d)
          ])
          (λ x h. unfold count in ground (arith, v.fresh x h)),
      recounted-Keeps a (left a st) cs st,
    )
