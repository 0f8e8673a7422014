-- ===== src/Hls/Segments/Pool.antt =====
-- Taking a buffer from the pool, filling it, and making a segment of it.
use native.Mathlib.Omega.{arith}
use mathlib.Core.Option.{none-ne-some, some-injective}
use ruseon_core.Common.{
  ℕ, suc, ◌+◌, ◌<◌, ◌≡◌, ◌≢◌, refl, sym, ap, ◌∙◌, Option, none, some, List, [], ◌∷◌, ◌++◌, ltb,
  length, ℕ_discrete, Bool-cases, inl, inr, ◌⊎◌,
}
use ruseon_core.Common.Bytes.{Bytes}
use ruseon_core.Common.Count.{count, remove, count-remove}
use ruseon_core.Common.Heap.{update, update_self, update_ne}
use ruseon_core.Hls.Segments.{
  two32, in_buffer, Segment, Store, contents, write_segment, get_buffer, append_to, new_segment,
  scribble,
}
use ruseon_core.Hls.Segments.Arc.{IsValid, Keeps, IsSafe, contents-update, ap_lt}

-- Other contents for a buffer that no segment has.
rewrite-IsSafe :
    (b : ℕ) (bs : Bytes) (cs : List ℕ) (cur : Option ℕ) (st : Store)
    → IsValid st cs cur
    → ((a : ℕ) → (st.heap a).buf ≢ some b)
    → IsSafe st cs cur (record st { buffers = update ℕ_discrete st.buffers b bs })
unfolding IsSafe Keeps
rewrite-IsSafe b bs cs cur st v free = (
  record {
    bounded = v.bounded;
    counted = v.counted;
    unpooled = v.unpooled;
    not_current = v.not_current;
    low = v.low;
    live = v.live;
    apart = v.apart;
    slices = v.slices;
    current_unpooled = v.current_unpooled;
    current_low = v.current_low;
    pooled_once = v.pooled_once;
    pooled_low = v.pooled_low;
    fresh = v.fresh;
  },
  λ a h. contents-update st.buffers b bs (st.heap a).bytes (λ n e. free a (v.slices a b n e)),
)

pub append_to-IsSafe :
    (b : ℕ) (bs : Bytes) (cs : List ℕ) (st : Store)
    → IsValid st cs (some b)
    → IsSafe st cs (some b) (append_to b bs st)
unfolding append_to
append_to-IsSafe b bs cs st v =
    rewrite-IsSafe b (st.buffers b ++ bs) cs (some b) st v (λ a e. v.not_current a b e refl)

pub scribble-IsSafe :
    (b : ℕ) (bs : Bytes) (cs : List ℕ) (cur : Option ℕ) (st : Store)
    → IsValid st cs cur
    → IsSafe st cs cur (scribble b bs st)
unfolding scribble
scribble-IsSafe b bs cs cur st v = elim (Bool-cases (ltb 0 (count b st.pool))) [
  | inl t ↦ rw t (rewrite-IsSafe b bs cs cur st v (λ a e. ground (arith, v.unpooled a b e)))
  | inr f ↦ rw f (unfold IsSafe Keeps in (v, λ a h. refl))
]

-- The pool without a buffer, which is then the current one.
taken-IsSafe :
    (b : ℕ) (cs : List ℕ) (st : Store)
    → IsValid st cs none
    → 0 < count b st.pool
    → IsSafe st cs
        (some b)
        (record st { buffers = update ℕ_discrete st.buffers b []; pool = remove b st.pool })
unfolding IsSafe Keeps
taken-IsSafe b cs st v h = (
  record {
    bounded = v.bounded;
    counted = v.counted;
    unpooled = λ a c e. omega (arith, count-remove c b st.pool, v.unpooled a c e);
    not_current = λ a c e p.
        absurd
          (omega (arith, h, v.unpooled a c e, ap (λ i. count i st.pool) (some-injective b c p)));
    low = v.low;
    live = v.live;
    apart = v.apart;
    slices = v.slices;
    current_unpooled = λ c e. ground (arith, count-remove c b st.pool, v.pooled_once b, e);
    current_low = λ c e. ap_lt (some-injective b c e) (v.pooled_low b h);
    pooled_once = λ c. omega (arith, count-remove c b st.pool, v.pooled_once c);
    pooled_low = λ c k. v.pooled_low c (omega (arith, k, count-remove c b st.pool));
    fresh = v.fresh;
  },
  λ a k.
      contents-update st.buffers b [] (st.heap a).bytes
        (λ n e. absurd (omega (arith, h, v.unpooled a b (v.slices a b n e)))),
)

-- A new buffer is the current one.
allocated-IsSafe :
    (cs : List ℕ) (st : Store)
    → IsValid st cs none
    → IsSafe st cs (some st.next_buffer) (record st {
      buffers = update ℕ_discrete st.buffers st.next_buffer [];
      next_buffer = st.next_buffer + 1;
    })
unfolding IsSafe Keeps
allocated-IsSafe cs st v = (
  record {
    bounded = v.bounded;
    counted = v.counted;
    unpooled = v.unpooled;
    not_current = λ a c e p. absurd (omega (arith, v.low a c e, some-injective st.next_buffer c p));
    low = λ a c e. omega (arith, v.low a c e);
    live = v.live;
    apart = v.apart;
    slices = v.slices;
    current_unpooled = λ c e.
        let same : st.next_buffer ≡ c = some-injective st.next_buffer c e in
        ground (arith, v.pooled_low c, same);
    current_low = λ c e. omega (arith, some-injective st.next_buffer c e);
    pooled_once = v.pooled_once;
    pooled_low = λ c k. omega (arith, v.pooled_low c k);
    fresh = v.fresh;
  },
  λ a k.
      contents-update st.buffers st.next_buffer [] (st.heap a).bytes
        (λ n e. absurd (omega (arith, v.low a st.next_buffer (v.slices a st.next_buffer n e)))),
)

pub get_buffer-IsSafe :
    (choice : Option ℕ) (cs : List ℕ) (st : Store)
    → IsValid st cs none
    → IsSafe st cs (some (get_buffer choice st).1) (get_buffer choice st).0
unfolding get_buffer
get_buffer-IsSafe none cs st v = allocated-IsSafe cs st v
get_buffer-IsSafe (some b) cs st v = elim (Bool-cases (ltb 0 (count b st.pool))) [
  | inl t ↦ rw t (taken-IsSafe b cs st v (ground (arith, t)))
  | inr f ↦ rw f (allocated-IsSafe cs st v)
]

-- A new segment, that takes over the current buffer or has none.
module _ (seg : Segment) (st : Store) where
  counted_seg : Segment
  counted_seg = record seg { ref_count = 1 }

  -- The segments after the write, at an address.
  grown : ℕ → Segment
  grown = update ℕ_discrete st.heap st.next_segment counted_seg

  grown-cases :
      (x : ℕ)
      → ((st.next_segment ≡ x) × (grown x ≡ counted_seg))
        ⊎ ((st.next_segment ≢ x) × (grown x ≡ st.heap x))
  unfolding grown
  grown-cases x = elim (ℕ_discrete st.next_segment x) [
    | yes p ↦ inl (p, ap grown (sym p) ∙ update_self ℕ_discrete st.heap st.next_segment counted_seg)
    | no d ↦ inr (d, update_ne ℕ_discrete st.heap st.next_segment x counted_seg d)
  ]

  grown-buf :
      (x b : ℕ)
      → (grown x).buf ≡ some b
      → ((st.next_segment ≡ x) × (seg.buf ≡ some b))
        ⊎ ((st.next_segment ≢ x) × ((st.heap x).buf ≡ some b))
  unfolding counted_seg
  grown-buf x b e = elim (grown-cases x) [
    | inl (p, q) ↦ inl (p, sym (ap (λ s. s.buf) q) ∙ e)
    | inr (d, q) ↦ inr (d, sym (ap (λ s. s.buf) q) ∙ e)
  ]

  grown-slices :
      ((b n : ℕ) → seg.bytes ≡ in_buffer b n → seg.buf ≡ some b)
      → ((a b n : ℕ) → (st.heap a).bytes ≡ in_buffer b n → (st.heap a).buf ≡ some b)
      → (x b n : ℕ) → (grown x).bytes ≡ in_buffer b n
      → (grown x).buf ≡ some b
  unfolding counted_seg
  grown-slices slice slices x b n e = elim (grown-cases x) [
    | inl (p, q) ↦ ap (λ s. s.buf) q ∙ slice b n (sym (ap (λ s. s.bytes) q) ∙ e)
    | inr (d, q) ↦ ap (λ s. s.buf) q ∙ slices x b n (sym (ap (λ s. s.bytes) q) ∙ e)
  ]

  grown-counted :
      (cs : List ℕ)
      → ((x : ℕ) → (st.heap x).ref_count ≡ count x cs)
      → count st.next_segment cs ≡ 0
      → (x : ℕ) → (grown x).ref_count ≡ count x (st.next_segment ∷ cs)
  unfolding counted_seg count
  grown-counted cs v z x = elim (grown-cases x) [
    | inl (p, q) ↦
        let k : (grown x).ref_count ≡ 1 = ap (λ s. s.ref_count) q in
        let z' : count x cs ≡ 0 = ap (λ i. count i cs) (sym p) ∙ z in ground (arith, k, z', p)
    | inr (d, q) ↦
        let k : (grown x).ref_count ≡ (st.heap x).ref_count = ap (λ s. s.ref_count) q in
        ground (arith, k, v x, d)
  ]

  pub new_segment-IsSafe :
      (cs : List ℕ) (cur cur' : Option ℕ)
      → IsValid st cs cur
      → suc (length cs) < two32
      → ((b : ℕ) → seg.buf ≡ some b → (cur ≡ some b) × (cur' ≡ none))
      → ((b : ℕ) → cur' ≡ some b → cur ≡ some b)
      → ((b n : ℕ) → seg.bytes ≡ in_buffer b n → seg.buf ≡ some b)
      → IsValid (new_segment seg st).0 (st.next_segment ∷ cs) cur'
        × Keeps cs st (new_segment seg st).0
  unfolding new_segment write_segment Keeps grown counted_seg
  new_segment-IsSafe cs cur cur' v small owner current slice = (
    record {
      bounded = omega (arith, small);
      counted = grown-counted cs v.counted (v.fresh st.next_segment (omega arith));
      unpooled = λ x b e. elim (grown-buf x b e) [
        | inl (p, q) ↦ v.current_unpooled b (owner b q).0
        | inr (d, q) ↦ v.unpooled x b q
      ];
      not_current = λ x b e k. elim (grown-buf x b e) [
        | inl (p, q) ↦ none-ne-some b (sym (owner b q).1 ∙ k)
        | inr (d, q) ↦ v.not_current x b q (current b k)
      ];
      low = λ x b e. elim (grown-buf x b e) [
        | inl (p, q) ↦ v.current_low b (owner b q).0
        | inr (d, q) ↦ v.low x b q
      ];
      live = λ x b e. elim (grown-buf x b e) [
        | inl (p, q) ↦ unfold count in ground (arith, p)
        | inr (d, q) ↦ unfold count in ground (arith, d, v.live x b q)
      ];
      apart = λ x y b e k. elim (grown-buf x b e) [
        | inl (p, q) ↦ elim (grown-buf y b k) [
          | inl (p', q') ↦ sym p ∙ p'
          | inr (d', q') ↦ absurd (v.not_current y b q' (owner b q).0)
        ]
        | inr (d, q) ↦ elim (grown-buf y b k) [
          | inl (p', q') ↦ absurd (v.not_current x b q (owner b q').0)
          | inr (d', q') ↦ v.apart x y b q q'
        ]
      ];
      slices = grown-slices slice v.slices;
      current_unpooled = λ b e. v.current_unpooled b (current b e);
      current_low = λ b e. v.current_low b (current b e);
      pooled_once = v.pooled_once;
      pooled_low = v.pooled_low;
      fresh = λ x h. unfold count in ground (arith, v.fresh x);
    },
    λ x h. elim (grown-cases x) [
      | inl (p, q) ↦
          let z : count x cs ≡ 0 = v.fresh x (omega (arith, p)) in absurd (omega (arith, z, h))
      | inr (d, q) ↦ ap (λ s. contents st.buffers s.bytes) q
    ],
  )
