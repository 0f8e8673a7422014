-- ===== src/Buffer/Lifecycle.antt =====
-- A buffer's beginning and end, and a reader's end.
use mathlib.Core.Bool.{false≢true}
use ruseon_core.Common.{
  ℕ, zero, suc, ◌+◌, ◌<◌, ◌≡◌, refl, sym, ap, ◌∙◌, true, false, inl, inr, none, some, List, [], ◌∷◌,
  length-replicate, String, ◌==◌, if◌then◌else◌, arith, ℕ_discrete, subst, not, ◌&&◌, Option-cases,
}
use ruseon_core.Common.Int.{ℤ, pos, negsuc}
use ruseon_core.Common.Dict.{lookup, erase, lookup-erase}
use ruseon_core.Common.Go.{returns, make_chan, close_chan}
use ruseon_core.Common.Heap.{update, update_self, update_ne}
use ruseon_core.Buffer.{
  Frame, Reader, RingBuffer, new_ring_buffer, effective_capacity, close, close_each, cut,
  close_reader, write, subscribe,
}
use ruseon_core.Buffer.Broadcast.{member, Distinct}
use ruseon_core.Buffer.Log.{IsValid, IsLog, slot_congr}

positive : (capacity : ℤ) → 0 < effective_capacity capacity
positive (pos zero) = omega arith
positive (pos (suc n)) = omega arith
positive (negsuc n) = omega arith

-- A new buffer is valid, open and empty, whatever capacity is asked for.
pub new_ring_buffer-IsValid :
    (metrics : String → ℕ) (heap : ℕ → Reader) (capacity : ℤ)
    → let rb = new_ring_buffer metrics heap capacity in
      IsValid rb × IsLog rb [] × (rb.closed ≡ false)
unfolding new_ring_buffer lookup
new_ring_buffer-IsValid metrics heap capacity = (
  record {
    positive = positive capacity;
    sized = length-replicate (effective_capacity capacity) none;
    counted = omega arith;
    distinct = tt;
    opened = λ j m. absurd (false≢true m);
    allocated = λ j m. absurd (false≢true m);
    registered = λ j. refl;
    silent = λ e. refl;
  },
  record { written = refl; window = λ i h w. elim h [ ] },
  refl,
)

-- A reader after its channel is closed.
abbrev pub ended : Reader → Reader
ended r = record r { c = record (r.c) { closed = true } }

close_each_head :
    (id : ℕ) (ids : List ℕ) (rb : RingBuffer)
    → (rb.readers id).c.closed ≡ false
    → close_each (id ∷ ids) rb
      ≡ close_each ids
          (record rb { readers = update ℕ_discrete rb.readers id (ended (rb.readers id)) })
unfolding close_each close_chan
close_each_head id ids rb h = simp h

updated_ended :
    (rb : RingBuffer) (id j : ℕ)
    → update ℕ_discrete rb.readers id (ended (rb.readers id)) j
      ≡ (if id == j then ended (rb.readers j) else rb.readers j)
unfolding update
updated_ended rb id j = ground arith

-- A reader further down the list is as it was.
updated_ended_ne :
    (rb : RingBuffer) (id : ℕ) (ids : List ℕ) (j : ℕ)
    → member id ids ≡ false
    → member j ids ≡ true
    → update ℕ_discrete rb.readers id (ended (rb.readers id)) j ≡ rb.readers j
updated_ended_ne rb id ids j d m = elim (ℕ_discrete id j) [
  | yes e ↦ absurd (false≢true (sym d ∙ ap (λ k. member k ids) e ∙ m))
  | no n ↦ update_ne ℕ_discrete rb.readers id j (ended (rb.readers id)) n
]

-- All channels on the list are closed, each once, and nothing else changes.
close_each_lem :
    (ids : List ℕ) (rb : RingBuffer)
    → Distinct ids
    → ((j : ℕ) → member j ids ≡ true → (rb.readers j).c.closed ≡ false)
    → (h : ℕ → Reader) × (close_each ids rb ≡ returns (record rb { readers = h }))
      × ((j : ℕ) → h j ≡ (if member j ids then ended (rb.readers j) else rb.readers j))
unfolding close_each
close_each_lem [] rb d o = (rb.readers, refl, λ j. refl)
close_each_lem (id ∷ ids) rb d o =
    let rb1 : RingBuffer = record rb {
      readers = update ℕ_discrete rb.readers id (ended (rb.readers id));
    } in
    let (h, ran, all) =
      close_each_lem ids rb1 d.1
        (λ j m. ap (λ r. r.c.closed) (updated_ended_ne rb id ids j d.0 m) ∙ o j (ground arith)) in
    (
      h,
      close_each_head id ids rb (o id (ground arith)) ∙ ran,
      λ j. ground (arith, all j, updated_ended rb id j, updated_ended_ne rb id ids j d.0),
    )

member-cut :
    (id j : ℕ) (ids : List ℕ)
    → Distinct ids
    → member j (cut id ids) ≡ (member j ids && not (id == j))
unfolding cut
member-cut id j [] d = refl
member-cut id j (i ∷ is) d = ground (arith, d.0, member-cut id j is d.1)

Distinct-cut : (id : ℕ) (ids : List ℕ) → Distinct ids → Distinct (cut id ids)
unfolding cut
Distinct-cut id [] d = tt
Distinct-cut id (i ∷ is) d = ground (arith, d.0, Distinct-cut id is d.1, member-cut id i is d.1)

close_reader_absent :
    (id : ℕ) (rb : RingBuffer) → lookup ℕ_discrete id rb.subs ≡ none → close_reader id rb ≡ rb
unfolding close_reader
close_reader_absent id rb e = rw (e, close_reader)

-- The buffer with the reader off the list.
abbrev without : ℕ → RingBuffer → RingBuffer
without id rb = record rb { subs = erase ℕ_discrete id rb.subs; subs_slice = cut id rb.subs_slice }

close_reader_present :
    (id : ℕ) (rb : RingBuffer) (u : Unit {0})
    → lookup ℕ_discrete id rb.subs ≡ some u
    → close_reader id rb ≡ without id rb
unfolding close_reader
close_reader_present id rb u e = rw (e, close_reader)

without-IsValid : (id : ℕ) (rb : RingBuffer) → IsValid rb → IsValid (without id rb)
without-IsValid id rb v = record {
  positive = v.positive;
  sized = v.sized;
  counted = v.counted;
  distinct = Distinct-cut id rb.subs_slice v.distinct;
  opened = λ j m. v.opened j (still j m);
  allocated = λ j m. v.allocated j (still j m);
  registered = λ j. ground (
    arith,
    lookup-erase ℕ_discrete id j rb.subs,
    member-cut id j rb.subs_slice v.distinct,
    v.registered j,
  );
  silent = λ e. ap (cut id) (v.silent e) ∙ unfold cut in refl;
}
  where
    still : (j : ℕ) → member j (cut id rb.subs_slice) ≡ true → member j rb.subs_slice ≡ true
    still j m = ground (arith, member-cut id j rb.subs_slice v.distinct)

-- What closing the reader `id` does to the buffer.
abbrev pub Detached : ℕ → RingBuffer → List Frame → RingBuffer → Type 0
Detached id rb log rb' =
    IsValid rb'
    × IsLog rb' log
    × ((j : ℕ) → member j rb'.subs_slice ≡ (member j rb.subs_slice && not (id == j)))
    × ((j : ℕ) → rb'.readers j ≡ rb.readers j)

-- `Reader.Close` of a subscribed reader takes it, and it alone, off the list of subscribers; for any
-- other reader the list stays. No reader object changes, so the channel stays open; the state is
-- valid and holds the same history.
pub close_reader-Detached :
    (id : ℕ) (rb : RingBuffer) (log : List Frame)
    → IsValid rb
    → IsLog rb log
    → Detached id rb log (close_reader id rb)
close_reader-Detached id rb log v l = elim (Option-cases (lookup ℕ_discrete id rb.subs)) [
  | inl e ↦
      subst (Detached id rb log) (sym (close_reader_absent id rb e))
        (v, l, λ j. ground (arith, v.registered id, absent e j), λ j. refl)
  | inr (u, e) ↦ subst (Detached id rb log) (sym (close_reader_present id rb u e)) (
    without-IsValid id rb v,
    record { written = l.written; window = λ i h w. slot_congr rb _ i refl refl ∙ l.window i h w },
    λ j. member-cut id j rb.subs_slice v.distinct,
    λ j. refl,
  )
]
  where
    absent :
        lookup ℕ_discrete id rb.subs ≡ none
        → (j : ℕ) → member j rb.subs_slice ≡ (member j rb.subs_slice && not (id == j))
    absent e j = ground (arith, v.registered id, v.registered j)

-- The open buffer closed.
abbrev closed_with : (ℕ → Reader) → RingBuffer → RingBuffer
closed_with h rb = record rb { closed = true; readers = h; subs = []; subs_slice = [] }

close_open :
    (rb : RingBuffer) (h : ℕ → Reader)
    → rb.closed ≡ false
    → close_each rb.subs_slice (record rb { closed = true })
      ≡ returns (record rb { closed = true; readers = h })
    → close rb ≡ returns (closed_with h rb)
unfolding close
close_open rb h o e = simp (o, e)

closed_with-IsValid : (h : ℕ → Reader) (rb : RingBuffer) → IsValid rb → IsValid (closed_with h rb)
unfolding lookup
closed_with-IsValid h rb v = record {
  positive = v.positive;
  sized = v.sized;
  counted = v.counted;
  distinct = tt;
  opened = λ j m. absurd (false≢true m);
  allocated = λ j m. absurd (false≢true m);
  registered = λ j. refl;
  silent = λ e. refl;
}

-- What closing the buffer does: every subscriber's channel is closed, no other reader changes, and
-- from then on `Write` and `Close` change nothing and `Subscribe` hands out an ended reader.
pub record Closes (rb rb' : RingBuffer) : Type 0 where
  pub valid : IsValid rb'
  pub readers :
      (j : ℕ)
      → rb'.readers j ≡ (if member j rb.subs_slice then ended (rb.readers j) else rb.readers j)
  pub write_after : (f : Frame) → write f rb' ≡ returns rb'
  pub close_after : close rb' ≡ returns rb'
  pub subscribe_after :
      (rb'' : RingBuffer) × (subscribe rb' ≡ returns (rb'', rb'.next_reader))
      × (rb''.subs_slice ≡ [])
      × ((rb''.readers rb'.next_reader).c ≡ record (make_chan rb'.capacity) { closed = true })

closed_subscribe :
    (rb : RingBuffer)
    → rb.closed ≡ true
    → rb.subs_slice ≡ []
    → (rb'' : RingBuffer) × (subscribe rb ≡ returns (rb'', rb.next_reader))
      × (rb''.subs_slice ≡ [])
      × ((rb''.readers rb.next_reader).c ≡ record (make_chan rb.capacity) { closed = true })
unfolding subscribe close_chan
closed_subscribe rb c s = (
  record rb {
    readers = update ℕ_discrete rb.readers rb.next_reader (record {
      c = record (make_chan rb.capacity) { closed = true };
      drops = 0;
      needs_iframe = false;
    });
    next_reader = rb.next_reader + 1;
  },
  simp c,
  s,
  ap (λ r. r.c) (update_self ℕ_discrete rb.readers rb.next_reader _),
)

-- `RingBuffer.Close` of an open buffer returns: it closes no channel twice; it does what `Closes` says.
pub close-Closes :
    (rb : RingBuffer)
    → IsValid rb
    → rb.closed ≡ false
    → (rb' : RingBuffer) × (close rb ≡ returns rb') × Closes rb rb'
unfolding write close
close-Closes rb v o =
    let (h, ran, all) =
      close_each_lem rb.subs_slice (record rb { closed = true }) v.distinct
        (λ j m. (v.opened j m).is_open) in
    (
      closed_with h rb,
      close_open rb h o ran,
      record {
        valid = closed_with-IsValid h rb v;
        readers = all;
        write_after = λ f. refl;
        close_after = refl;
        subscribe_after = closed_subscribe (closed_with h rb) refl refl;
      },
    )
