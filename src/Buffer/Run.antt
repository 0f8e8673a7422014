-- ===== src/Buffer/Run.antt =====
-- Any sequence of calls on an open buffer.
use native.Mathlib.Omega.{arith}
use ruseon_core.Common.{
  ℕ, String, ◌+◌, ◌<◌, ◌≡◌, refl, ap, ◌∙◌, false, List, [], ◌∷◌, ◌++◌, length, length-append,
  Option-cases, inl, inr, ℕ_discrete,
}
use ruseon_core.Common.Int.{ℤ}
use ruseon_core.Common.Dict.{lookup}
use ruseon_core.Common.Go.{Outcome, returns, ◌>>=◌, two64}
use ruseon_core.Buffer.{Frame, Reader, RingBuffer, new_ring_buffer, write, subscribe, close_reader}
use ruseon_core.Buffer.Log.{IsValid, IsLog, write-IsLog}
use ruseon_core.Buffer.Subscribe.{subscribe-Subscribed}
use ruseon_core.Buffer.Lifecycle.{new_ring_buffer-IsValid, close_reader-Detached}

pub data Call : Type 0 where
  put : Frame → Call
  join : Call
  leave : ℕ → Call

pub call : Call → RingBuffer → Outcome RingBuffer
call (put f) rb = write f rb
call join rb = subscribe rb >>= λ r. returns r.0
call (leave id) rb = returns (close_reader id rb)

pub run : List Call → RingBuffer → Outcome RingBuffer
run [] rb = returns rb
run (c ∷ cs) rb = call c rb >>= run cs

-- The frames written, oldest first, after those of a log.
pub log_after : List Frame → List Call → List Frame
log_after log [] = log
log_after log (put f ∷ cs) = log_after (log ++ (f ∷ [])) cs
log_after log (join ∷ cs) = log_after log cs
log_after log (leave id ∷ cs) = log_after log cs

close_reader-closed : (id : ℕ) (rb : RingBuffer) → (close_reader id rb).closed ≡ rb.closed
unfolding close_reader
close_reader-closed id rb = elim (Option-cases (lookup ℕ_discrete id rb.subs)) [
  | inl e ↦ rw (e, close_reader) refl
  | inr (u, e) ↦ rw (e, close_reader) refl
]

run_from :
    (cs : List Call) (rb : RingBuffer) (log : List Frame)
    → IsValid rb
    → IsLog rb log
    → rb.closed ≡ false
    → length log + length cs < two64
    → (rb' : RingBuffer) × (run cs rb ≡ returns rb')
      × IsValid rb'
      × IsLog rb' (log_after log cs)
      × (rb'.closed ≡ false)
unfolding run call log_after
run_from [] rb log v l o h = (rb, refl, v, l, o)
run_from (put f ∷ cs) rb log v l o h =
    let (rb', e, v', l', o', _, _) = write-IsLog f rb log v l o (omega (arith, h)) in
    let (rb'', e', valid, logged, open_) =
      run_from cs rb' (log ++ (f ∷ [])) v' l' o' (omega (arith, h, length-append log (f ∷ []))) in
    (rb'', ap (λ r. r >>= run cs) e ∙ e', valid, logged, open_)
run_from (join ∷ cs) rb log v l o h =
    let (rb', id, e, s) = subscribe-Subscribed rb log v l o in
    let (rb'', e', valid, logged, open_) =
      run_from cs rb' log s.valid s.logged s.still_open (omega (arith, h)) in
    (rb'', ap (λ r. (r >>= λ x. returns x.0) >>= run cs) e ∙ e', valid, logged, open_)
run_from (leave id ∷ cs) rb log v l o h =
    let (v', l', _, _) = close_reader-Detached id rb log v l in
    run_from cs (close_reader id rb) log v' l' (close_reader-closed id rb ∙ o) (omega (arith, h))

-- From a new buffer of any asked capacity, any sequence of fewer than 2^64 calls of `Write`, `Subscribe` and
-- `Reader.Close`, on whatever readers, returns: no call panics or blocks. The buffer is then valid and
-- open, and its slots hold the last `capacity` of the frames written.
pub run_lem :
    (metrics : String → ℕ) (heap : ℕ → Reader) (capacity : ℤ) (cs : List Call)
    → length cs < two64
    → (rb : RingBuffer) × (run cs (new_ring_buffer metrics heap capacity) ≡ returns rb)
      × IsValid rb
      × IsLog rb (log_after [] cs)
      × (rb.closed ≡ false)
run_lem metrics heap capacity cs h =
    let (v, l, o) = new_ring_buffer-IsValid metrics heap capacity in
    run_from cs (new_ring_buffer metrics heap capacity) [] v l o (omega (arith, h))
