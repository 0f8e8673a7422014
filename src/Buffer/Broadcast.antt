-- ===== src/Buffer/Broadcast.antt =====
-- The broadcast loop of `Write` over all subscribers.
use ruseon_core.Common.{
  ℕ, ◌+◌, ◌<◌, ◌≡◌, refl, sym, ◌∙◌, Bool, true, false, ◌||◌, List, [], ◌∷◌, ◌==◌, if◌then◌else◌,
  arith, ℕ_discrete, inl, inr, ap, Bool-cases,
}
use mathlib.Core.Bool.{false≢true}
use ruseon_core.Common.Go.{returns, add64, two64}
use ruseon_core.Common.Heap.{update}
use ruseon_core.Buffer.{Frame, Reader, RingBuffer, count_drop, dispatch, broadcast}
use ruseon_core.Buffer.Receive.{receive, drops_frame, offer-receive}

abbrev pub member : ℕ → List ℕ → Bool
member j [] = false
member j (i ∷ is) = i == j || member j is

abbrev pub Distinct : List ℕ → Type 0
Distinct [] = Unit {0}
Distinct (i ∷ is) = (member i is ≡ false) × Distinct is

-- How many of the readers drop the frame.
abbrev pub count_drops : Frame → List ℕ → (ℕ → Reader) → ℕ
count_drops f [] readers = 0
count_drops f (i ∷ is) readers =
    (if drops_frame f (readers i) then 1 else 0) + count_drops f is readers

-- Every reader on the list receives the frame, no other reader changes, and each drop is counted.
pub record Broadcasts (f : Frame) (ids : List ℕ) (rb rb' : RingBuffer) : Type 0 where
  pub frames : rb'.frames ≡ rb.frames
  pub capacity : rb'.capacity ≡ rb.capacity
  pub head : rb'.head ≡ rb.head
  pub closed : rb'.closed ≡ rb.closed
  pub subs : rb'.subs ≡ rb.subs
  pub subs_slice : rb'.subs_slice ≡ rb.subs_slice
  pub next_reader : rb'.next_reader ≡ rb.next_reader
  pub readers :
      (j : ℕ) → rb'.readers j ≡ (if member j ids then receive f (rb.readers j) else rb.readers j)
  pub total_drops : rb'.total_drops ≡ add64 rb.total_drops (count_drops f ids rb.readers)

-- The state after one round.
abbrev after_round : Frame → ℕ → RingBuffer → RingBuffer
after_round f id rb =
    count_drop (drops_frame f (rb.readers id))
      (record rb { readers = update ℕ_discrete rb.readers id (receive f (rb.readers id)) })

dispatch-after_round :
    (f : Frame) (id : ℕ) (rb : RingBuffer)
    → (rb.readers id).c.closed ≡ false
    → dispatch f id rb ≡ returns (after_round f id rb)
unfolding dispatch
dispatch-after_round f id rb h = rw (offer-receive f (rb.readers id) h)

count_drops_congr :
    (f : Frame) (ids : List ℕ) (h h' : ℕ → Reader)
    → ((j : ℕ) → member j ids ≡ true → h' j ≡ h j)
    → count_drops f ids h' ≡ count_drops f ids h
count_drops_congr f [] h h' e = refl
count_drops_congr f (i ∷ is) h h' e =
    ground (arith, e i, count_drops_congr f is h h' (λ j m. e j (ground arith)))

broadcast_head :
    (f : Frame) (id : ℕ) (ids : List ℕ) (rb : RingBuffer)
    → (rb.readers id).c.closed ≡ false
    → broadcast f (id ∷ ids) rb ≡ broadcast f ids (after_round f id rb)
unfolding broadcast
broadcast_head f id ids rb h = rw (dispatch-after_round f id rb h)

after_round-readers :
    (f : Frame) (id : ℕ) (rb : RingBuffer) (j : ℕ)
    → (after_round f id rb).readers j ≡ (if id == j then receive f (rb.readers j) else rb.readers j)
unfolding count_drop update
after_round-readers f id rb j = ground arith

-- A reader further down the list is as it was.
after_round-readers_ne :
    (f : Frame) (id : ℕ) (ids : List ℕ) (rb : RingBuffer) (j : ℕ)
    → member id ids ≡ false
    → member j ids ≡ true
    → (after_round f id rb).readers j ≡ rb.readers j
after_round-readers_ne f id ids rb j d m = elim (ℕ_discrete id j) [
  | yes e ↦ absurd (false≢true (sym d ∙ ap (λ k. member k ids) e ∙ m))
  | no n ↦ ground (arith, after_round-readers f id rb j)
]

after_round-total_drops :
    (f : Frame) (id : ℕ) (rb : RingBuffer)
    → rb.total_drops < two64
    → (after_round f id rb).total_drops
      ≡ add64 rb.total_drops (if drops_frame f (rb.readers id) then 1 else 0)
unfolding count_drop
after_round-total_drops f id rb t = elim (Bool-cases (drops_frame f (rb.readers id))) [
  | inl e ↦ rw e
  | inr e ↦ rw e (omega arith)
]

after_round-Same :
    (f : Frame) (id : ℕ) (rb : RingBuffer)
    → let rb' = after_round f id rb in
      (rb'.frames ≡ rb.frames)
      × (rb'.capacity ≡ rb.capacity)
      × (rb'.head ≡ rb.head)
      × (rb'.closed ≡ rb.closed)
      × (rb'.subs ≡ rb.subs)
      × (rb'.subs_slice ≡ rb.subs_slice)
      × (rb'.next_reader ≡ rb.next_reader)
unfolding count_drop
after_round-Same f id rb = elim (Bool-cases (drops_frame f (rb.readers id))) [
  | inl e ↦ rw e (refl, refl, refl, refl, refl, refl, refl)
  | inr e ↦ rw e (refl, refl, refl, refl, refl, refl, refl)
]

Broadcasts-cons :
    (f : Frame) (id : ℕ) (ids : List ℕ) (rb rb' : RingBuffer)
    → member id ids ≡ false
    → rb.total_drops < two64
    → Broadcasts f ids (after_round f id rb) rb'
    → Broadcasts f (id ∷ ids) rb rb'
Broadcasts-cons f id ids rb rb' d t v =
    let same = after_round-Same f id rb in
    record {
      frames = v.frames ∙ same.0;
      capacity = v.capacity ∙ same.1;
      head = v.head ∙ same.2;
      closed = v.closed ∙ same.3;
      subs = v.subs ∙ same.4;
      subs_slice = v.subs_slice ∙ same.5;
      next_reader = v.next_reader ∙ same.6;
      readers = λ j. ground (
        arith,
        v.readers j,
        after_round-readers f id rb j,
        after_round-readers_ne f id ids rb j d,
      );
      total_drops = omega (
        arith,
        v.total_drops,
        after_round-total_drops f id rb t,
        count_drops_congr f ids rb.readers (after_round f id rb).readers
            (λ j. after_round-readers_ne f id ids rb j d),
      );
    }

pub broadcast-Broadcasts :
    (f : Frame) (ids : List ℕ) (rb : RingBuffer)
    → Distinct ids
    → rb.total_drops < two64
    → ((j : ℕ) → member j ids ≡ true → (rb.readers j).c.closed ≡ false)
    → (rb' : RingBuffer) × (broadcast f ids rb ≡ returns rb') × Broadcasts f ids rb rb'
unfolding broadcast
broadcast-Broadcasts f [] rb d t h = (
  rb,
  refl,
  record {
    frames = refl;
    capacity = refl;
    head = refl;
    closed = refl;
    subs = refl;
    subs_slice = refl;
    next_reader = refl;
    readers = λ j. refl;
    total_drops = omega arith;
  },
)
broadcast-Broadcasts f (id ∷ ids) rb d t h =
    let rest =
      broadcast-Broadcasts f ids (after_round f id rb) d.1
        (rw (after_round-total_drops f id rb t) (omega arith))
        (λ j m. rw (after_round-readers_ne f id ids rb j d.0 m) (h j (ground arith))) in
    (
      rest.0,
      broadcast_head f id ids rb (h id (ground arith)) ∙ rest.1,
      Broadcasts-cons f id ids rb rest.0 d.0 t rest.2,
    )
