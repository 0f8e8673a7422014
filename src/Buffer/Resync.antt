-- ===== src/Buffer/Resync.antt =====
-- A slow reader over any interleaving of broadcasts with its own reads.
use ruseon_core.Common.{
  ℕ, ◌≡◌, refl, suc, ◌≤◌, ap, ◌∙◌, Bool, true, false, List, [], ◌∷◌, length, length-append, ◌==◌,
  if◌then◌else◌, arith, subst,
}
use ruseon_core.Common.Go.{Outcome, returns, panics, blocks, ◌>>=◌}
use ruseon_core.Buffer.{Frame, Reader, offer, read, read_context}
use ruseon_core.Buffer.Receive.{IsOpen, receive, drops_frame, offer-receive, receive-IsOpen}

pub data Event : Type 0 where
  offered : Frame → Event
  taken : Event

pub data Fate : Type 0 where
  delivered dropped skipped : Fate

-- The reader after its consumer has called `Read`. On an empty queue the call waits: it has no effect yet,
-- and is made again by a later event.
after_read : Reader → Outcome Reader
after_read r = elim (read r) [ returns o ↦ returns (o.1) | panics ↦ panics | blocks ↦ returns r ]

-- What became of a frame, seen from outside: a drop is flagged, a delivery lengthens the queue.
fate : Reader → Reader × Bool → Fate
fate r (r', true) = dropped
fate r (r', false) = if length r'.c.queue == length r.c.queue then skipped else delivered

-- The fates of all frames offered, in order.
unfoldable pub history : List Event → Reader → Outcome (List (Frame × Fate))
unfolding after_read fate
history [] r = returns []
history (offered f ∷ es) r = offer f r >>= λ o. history es o.0 >>= λ t. returns ((f, fate r o) ∷ t)
history (taken ∷ es) r = after_read r >>= history es

-- No delta frame is delivered between a drop and the next delivered key frame, and a frame is
-- skipped only in such a gap, and only if it is a delta frame. The flag says that a gap is open.
abbrev pub Decodable : Bool → List (Frame × Fate) → Type 0
Decodable gap [] = Unit {0}
Decodable gap ((f, delivered) ∷ t) = (gap ≡ true → f.is_key_frame ≡ true) × Decodable false t
Decodable gap ((f, dropped) ∷ t) = Decodable true t
Decodable gap ((f, skipped) ∷ t) = (gap ≡ true) × (f.is_key_frame ≡ false) × Decodable true t

after_read-IsOpen :
    {cap : ℕ} (r : Reader)
    → IsOpen cap r
    → (r' : Reader) × (after_read r ≡ returns r')
      × IsOpen cap r'
      × (r'.needs_iframe ≡ r.needs_iframe)
unfolding after_read read read_context
after_read-IsOpen {cap} r v = by_queue r.c.queue refl
  where
    by_queue :
        (q : List Frame)
        → r.c.queue ≡ q
        → (r' : Reader) × (after_read r ≡ returns r')
          × IsOpen cap r'
          × (r'.needs_iframe ≡ r.needs_iframe)
    by_queue [] e = (r, ground (arith, e, v.is_open), v, refl)
    by_queue (f ∷ fs) e = (
      record r { c = record (r.c) { queue = fs } },
      ground (arith, e),
      record {
        is_open = v.is_open;
        room = v.room;
        fits =
            let p : suc (length fs) ≤ cap = subst (λ q. length q ≤ cap) e v.fits in
            omega (arith, p);
      },
      refl,
    )

-- One frame in front of a history.
Decodable-offer :
    (f : Frame) (r : Reader) (t : List (Frame × Fate))
    → Decodable (receive f r).needs_iframe t
    → Decodable r.needs_iframe ((f, fate r (receive f r, drops_frame f r)) ∷ t)
unfolding fate
Decodable-offer f r t d = ground (arith, length-append r.c.queue (f ∷ []))

-- For a reader with an open channel and any interleaving of offers and reads, where a read of an empty queue
-- waits without an effect, no offer panics or blocks and no read panics, and what the reader is given is
-- decodable: after a drop the next frame delivered is a key frame.
pub history-Decodable :
    (es : List Event) (r : Reader) {cap : ℕ}
    → IsOpen cap r
    → (t : List (Frame × Fate)) × (history es r ≡ returns t) × Decodable r.needs_iframe t
unfolding history
history-Decodable [] r v = ([], refl, tt)
history-Decodable (offered f ∷ es) r v =
    let (t, ran, d) = history-Decodable es (receive f r) (receive-IsOpen f v) in
    (
      (f, fate r (receive f r, drops_frame f r)) ∷ t,
      rw (offer-receive f r v.is_open, ran),
      Decodable-offer f r t d,
    )
history-Decodable (taken ∷ es) r v =
    let (r', got, open', same) = after_read-IsOpen r v in
    let (t, ran, d) = history-Decodable es r' open' in
    (t, ap (λ o. o >>= history es) got ∙ ran, subst (λ gap. Decodable gap t) same d)
