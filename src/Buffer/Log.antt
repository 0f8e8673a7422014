-- ===== src/Buffer/Log.antt =====
-- The circular history as a window on the log of all frames written, and what every state satisfies.
use native.Mathlib.Nat.{div-add-mod, mod-lt}
use ruseon_core.Common.{
  ℕ, zero, suc, ◌+◌, ◌*◌, ◌/◌, ◌%◌, ◌≤◌, ◌<◌, ◌≡◌, ◌≢◌, refl, sym, ap, ◌∙◌, Bool, true, false,
  Option, none, some, List, [], ◌∷◌, ◌++◌, length, length-append, length-set, get_elem?,
  get_elem?-set_self, get_elem?-set_ne, arith, ℕ_discrete, dec_le, if◌then◌else◌,
}
use ruseon_core.Common.Dict.{lookup}
use ruseon_core.Common.Go.{returns, add64, two64, add64_lt}
use ruseon_core.Buffer.{Frame, RingBuffer, slot, store, broadcast, write}
use ruseon_core.Buffer.Receive.{IsOpen, receive, receive-IsOpen}
use ruseon_core.Buffer.Broadcast.{member, Distinct, Broadcasts, count_drops, broadcast-Broadcasts}

abbrev pub is_some {ℓ} : {A : Type ℓ} → Option A → Bool
is_some none = false
is_some (some a) = true

-- What holds of a buffer between any two calls.
pub record IsValid (rb : RingBuffer) : Type 0 where
  pub positive : 0 < rb.capacity
  pub sized : length rb.frames ≡ rb.capacity
  pub counted : rb.total_drops < two64
  pub distinct : Distinct rb.subs_slice
  pub opened : (j : ℕ) → member j rb.subs_slice ≡ true → IsOpen rb.capacity (rb.readers j)
  pub allocated : (j : ℕ) → member j rb.subs_slice ≡ true → j < rb.next_reader
  pub registered : (j : ℕ) → is_some (lookup ℕ_discrete j rb.subs) ≡ member j rb.subs_slice
  pub silent : rb.closed ≡ true → rb.subs_slice ≡ []

-- The buffer holds the last `capacity` frames of the log.
pub record IsLog (rb : RingBuffer) (log : List Frame) : Type 0 where
  pub written : rb.head ≡ length log
  pub window : (i : ℕ) → i < length log → length log ≤ i + rb.capacity → slot rb i ≡ get_elem? log i

mul_gap : (c a b : ℕ) → a < b → c * a + c ≤ c * b
mul_gap c a b h = grind arith

-- Two indices less than a capacity apart fall on different slots.
pub mod-ne : (c i h : ℕ) → 0 < c → i < h → h < i + c → i % c ≢ h % c
mod-ne c i h p lt close e = elim (dec_le (h / c) (i / c)) [
  | yes le ↦ absurd (omega (arith, div-add-mod i c, div-add-mod h c, mul_mono (h / c) (i / c) le))
  | no n ↦ absurd (omega (arith, div-add-mod i c, div-add-mod h c, mul_gap c (i / c) (h / c)))
]
  where
    mul_mono : (a b : ℕ) → a ≤ b → c * a ≤ c * b
    mul_mono a b h = grind arith

pub get_elem?-append_left :
    (xs ys : List Frame) (i : ℕ) → i < length xs → get_elem? (xs ++ ys) i ≡ get_elem? xs i
get_elem?-append_left [] ys i h = elim h [ ]
get_elem?-append_left (x ∷ xs) ys zero h = refl
get_elem?-append_left (x ∷ xs) ys (suc i) h = get_elem?-append_left xs ys i (omega arith)

pub get_elem?-append_last :
    (xs : List Frame) (y : Frame) → get_elem? (xs ++ (y ∷ [])) (length xs) ≡ some y
get_elem?-append_last [] y = refl
get_elem?-append_last (x ∷ xs) y = get_elem?-append_last xs y

slot-store_self : (f : Frame) (rb : RingBuffer) → IsValid rb → slot (store f rb) rb.head ≡ some f
unfolding slot store
slot-store_self f rb v = rw (
  get_elem?-set_self rb.frames (rb.head % rb.capacity) (some f)
      (omega (arith, v.sized, mod-lt rb.head v.positive)),
  slot,
)

slot-store_ne :
    (f : Frame) (rb : RingBuffer) (i : ℕ)
    → i % rb.capacity ≢ rb.head % rb.capacity
    → slot (store f rb) i ≡ slot rb i
unfolding slot store
slot-store_ne f rb i n = rw (
  get_elem?-set_ne rb.frames {i = rb.head % rb.capacity} {j = i % rb.capacity} (some f)
      (λ e. n (sym e)),
  slot,
)

-- `store` appends to the log.
pub store-IsLog :
    (f : Frame) (rb : RingBuffer) (log : List Frame)
    → IsValid rb
    → IsLog rb log
    → suc (length log) < two64
    → IsLog (store f rb) (log ++ (f ∷ []))
unfolding store
store-IsLog f rb log v l small = record {
  written = omega (arith, l.written, length-append log (f ∷ []));
  window = λ i h near. elim (ℕ_discrete i rb.head) [
    | yes e ↦
        rw (e, slot-store_self f rb v)
          (sym (get_elem?-append_last log f) ∙ ap (get_elem? (log ++ (f ∷ []))) (sym l.written))
    | no n ↦
        let old : i < length log = omega (arith, l.written, length-append log (f ∷ [])) in
        slot-store_ne f rb i (
          mod-ne rb.capacity i rb.head v.positive (omega (arith, l.written))
            (omega (arith, l.written, length-append log (f ∷ []))))
        ∙ l.window i old (omega (arith, length-append log (f ∷ [])))
        ∙ sym (get_elem?-append_left log (f ∷ []) i old)
  ];
}

store-IsValid : (f : Frame) (rb : RingBuffer) → IsValid rb → IsValid (store f rb)
unfolding store
store-IsValid f rb v = record {
  positive = v.positive;
  sized = length-set rb.frames (rb.head % rb.capacity) (some f) ∙ v.sized;
  counted = v.counted;
  distinct = v.distinct;
  opened = v.opened;
  allocated = v.allocated;
  registered = v.registered;
  silent = v.silent;
}

pub slot_congr :
    (rb rb' : RingBuffer) (i : ℕ)
    → rb'.frames ≡ rb.frames
    → rb'.capacity ≡ rb.capacity
    → slot rb' i ≡ slot rb i
unfolding slot
slot_congr rb rb' i f c = rw (f, c, slot)

broadcast-IsValid :
    (f : Frame) (rb rb' : RingBuffer) → IsValid rb → Broadcasts f rb.subs_slice rb rb' → IsValid rb'
broadcast-IsValid f rb rb' v b = record {
  positive = rw b.capacity v.positive;
  sized = rw (b.frames, b.capacity) v.sized;
  counted = rw b.total_drops (add64_lt rb.total_drops (count_drops f rb.subs_slice rb.readers));
  distinct = rw b.subs_slice v.distinct;
  opened = λ j m.
      let was : member j rb.subs_slice ≡ true = rw b.subs_slice at m in
      rw (b.capacity, b.readers j, was) (receive-IsOpen f (v.opened j was));
  allocated = λ j m. rw b.next_reader (v.allocated j (rw b.subs_slice at m));
  registered = λ j. rw (b.subs, b.subs_slice) (v.registered j);
  silent = λ e. rw b.subs_slice (v.silent (rw b.closed at e));
}

broadcast-IsLog :
    (f : Frame) (ids : List ℕ) (rb rb' : RingBuffer) (log : List Frame)
    → Broadcasts f ids rb rb'
    → IsLog rb log
    → IsLog rb' log
broadcast-IsLog f ids rb rb' log b l = record {
  written = b.head ∙ l.written;
  window =
      λ i h near. slot_congr rb rb' i b.frames b.capacity ∙ l.window i h (rw b.capacity at near);
}

write_open :
    (f : Frame) (rb : RingBuffer)
    → rb.closed ≡ false
    → write f rb ≡ broadcast f rb.subs_slice (store f rb)
unfolding write
write_open f rb o = simp o

-- A frame written to a valid open buffer, which has taken fewer than 2^64 - 1 frames so far: the call
-- returns (no send meets a closed channel), the frame is the newest of the log, every subscribed
-- reader gets what `receive` says whatever the others' queues hold, no other reader changes,
-- `total_drops` grows by the number of readers that drop the frame (modulo 2^64), and the state is
-- valid and open.
pub write-IsLog :
    (f : Frame) (rb : RingBuffer) (log : List Frame)
    → IsValid rb
    → IsLog rb log
    → rb.closed ≡ false
    → suc (length log) < two64
    → (rb' : RingBuffer) × (write f rb ≡ returns rb')
      × IsValid rb'
      × IsLog rb' (log ++ (f ∷ []))
      × (rb'.closed ≡ false)
      × ((j : ℕ)
          → rb'.readers j
            ≡ (if member j rb.subs_slice then receive f (rb.readers j) else rb.readers j))
      × (rb'.total_drops ≡ add64 rb.total_drops (count_drops f rb.subs_slice rb.readers))
unfolding store
write-IsLog f rb log v l o small =
    let stored = store-IsValid f rb v in
    let (rb', ran, sent) =
      broadcast-Broadcasts f rb.subs_slice (store f rb) v.distinct v.counted
        (λ j m. (v.opened j m).is_open) in
    (
      rb',
      write_open f rb o ∙ ran,
      broadcast-IsValid f (store f rb) rb' stored sent,
      broadcast-IsLog f rb.subs_slice (store f rb) rb' _ sent (store-IsLog f rb log v l small),
      sent.closed ∙ o,
      sent.readers,
      sent.total_drops,
    )
