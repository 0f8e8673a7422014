-- ===== src/Hls/Loop/Holding.antt =====
-- The invariant of a muxer at work, step by step, and the room that its counters need.
use native.Mathlib.Omega.{arith}
use ruseon_core.Common.{
  ℕ, suc, ◌+◌, ◌<◌, ◌≤◌, ◌≡◌, refl, sym, subst, Option, none, some, ◌∷◌, ◌++◌, length,
  length-append, ltb, if◌then◌else◌, ◌==◌, Bool-cases, Option-cases, inl, inr,
}
use ruseon_core.Buffer.{Frame, CodecParams}
use ruseon_core.Common.Bytes.{Bytes}
use ruseon_core.Common.Count.{count, remove, count-append, count-remove, length-remove-le}
use ruseon_core.Common.Go.{two64}
use ruseon_core.Common.Int.{ℤ}
use ruseon_core.Hls.Cue.{MetadataRequest}
use ruseon_core.Hls.Loop.{TsWriter, Locals, on_frame, on_meta}
use ruseon_core.Hls.Loop.Safety.{on_frame-IsSafe}
use ruseon_core.Hls.Loop.Sessions.{
  Event, frame_came, meta_came, reader_closed, watched, acquired, released, reused, stopped,
  Session, served, step,
}
use ruseon_core.Hls.Loop.Window.{on_frame-Advances}
use ruseon_core.Hls.Muxer.{Muxer, check_watchdog, release_segment, find_segment, ts_name_of, stop}
use ruseon_core.Hls.Muxer.Lookup.{find_segment_sound, acquire_miss, acquire_hit}
use ruseon_core.Hls.Muxer.Readers.{acquired-IsSafe, released-IsSafe, stop-IsSafe}
use ruseon_core.Hls.Muxer.Safety.{
  IsShared, IsSafeFor, Keeps-refl, Keeps-part, check_watchdog-IsSafe,
}
use ruseon_core.Hls.Muxer.Window.{
  HasWindow, Advances, SameNames, renamed, retain-SameNames, release-SameNames,
  check_watchdog-Advances, stop-Advances,
}
use ruseon_core.Hls.Segments.{two32, Store, data_of, retain, release, scribble}
use ruseon_core.Hls.Segments.Arc.{Keeps, IsSafe, dropped-IsValid}
use ruseon_core.Hls.Segments.Pool.{scribble-IsSafe}

module _ {W : Type 0} where
  -- The buffer that the loop fills.
  abbrev pub current : Option (Locals W) → Option ℕ
  current none = none
  current (some l) = l.current_buf

  -- References agree with the window and the readers, and the window is in order.
  pub record IsGood (s : Session W) : Type 0 where
    pub shared : IsShared s.muxer s.held (current s.locals)
    pub window : HasWindow s.muxer

-- How often an event gives a segment back.
abbrev pub releases : ℕ → Event → ℕ
releases a (released b) = if b == a then 1 else 0
releases a e = 0

scribble-SameNames : (b : ℕ) (bs : Bytes) (st : Store) → SameNames st (scribble b bs st)
unfolding SameNames scribble
scribble-SameNames b bs st x = ground arith

module _ {W : Type 0} (s : Session W) where
  -- Room for one more segment and one more reader.
  pub record HasRoom : Type 0 where
    pub references : s.muxer.max_segments + length s.held + 2 < two32
    pub numbers : suc s.muxer.seq_count < two64

  -- What a step does to a session, for an event.
  pub record Follows (e : Event) (s' : Session W) : Type 0 where
    pub good : IsGood s'
    pub same_max : s'.muxer.max_segments ≡ s.muxer.max_segments
    pub slow : s'.muxer.seq_count ≤ 1 + s.muxer.seq_count
    pub held_slow : length s'.held ≤ 1 + length s.held
    pub still : (a : ℕ) → count a s.held ≤ count a s'.held + releases a e
    pub kept :
        (a : ℕ)
        → 0 < count a s.held
        → 0 < count a s'.held
        → data_of s'.muxer.store a ≡ data_of s.muxer.store a

  room_segments : HasRoom → IsGood s → suc (length (s.muxer.segments ++ s.held)) < two32
  room_segments r g =
      omega (arith, r.references, g.window.few, length-append s.muxer.segments s.held)

  fresh_segments :
      IsGood s → (x : ℕ) → s.muxer.store.next_segment ≤ x → count x s.muxer.segments ≡ 0
  fresh_segments g x h = omega (arith, g.shared.fresh x h, count-append x s.muxer.segments s.held)

  -- A step that leaves the readers alone.
  same_readers :
      (e : Event) (append_float : ℤ → Bytes) (k : ℕ) (m' : Muxer) (l' : Option (Locals W))
      → IsSafeFor s.held (current l') s.muxer m'
      → Advances append_float k s.muxer m'
      → k ≤ 1
      → Follows e record { muxer = m'; locals = l'; held = s.held }
  unfolding IsSafeFor Keeps
  same_readers e append_float k m' l' (v, kept) w h = record {
    good = record { shared = v; window = w.window };
    same_max = w.same_max;
    slow = omega (arith, w.slow, h);
    held_slow = omega arith;
    still = λ a. omega arith;
    kept = λ a p q. kept a p;
  }

  unchanged : (e : Event) → IsGood s → Follows e s
  unfolding Keeps IsSafeFor
  unchanged e g = record {
    good = g;
    same_max = refl;
    slow = omega arith;
    held_slow = omega arith;
    still = λ a. omega arith;
    kept = λ a p q. refl;
  }

module _ (ts : TsWriter) (append_float : ℤ → Bytes) (s : Session ts.Writer) (g : IsGood s)
    (r : HasRoom s) where
  frame_came-Follows :
      (first second : Option CodecParams) (now : ℤ) (choice : Option ℕ) (f : Frame)
      (l : Locals ts.Writer)
      → s.locals ≡ some l
      → (let (l', m') = on_frame ts append_float first second now choice f l s.muxer in
          Follows s
            (frame_came first second now choice f)
            record { muxer = m'; locals = some l'; held = s.held })
  frame_came-Follows first second now choice f l e =
      let out = on_frame ts append_float first second now choice f l s.muxer in
      let v = subst (λ o. IsShared s.muxer s.held (current o)) e g.shared in
      same_readers s (frame_came first second now choice f) append_float 1 out.1 (some out.0)
        (on_frame-IsSafe ts append_float s.held first second now choice f l s.muxer v
          (room_segments s r g))
        (on_frame-Advances ts append_float f first second now choice l s.muxer g.window
          (fresh_segments s g) r.numbers)
        (omega arith)

  frame-Follows :
      (first second : Option CodecParams) (now : ℤ) (choice : Option ℕ) (f : Frame)
      → Follows s
          (frame_came first second now choice f)
          (step ts append_float (frame_came first second now choice f) s)
  unfolding step
  frame-Follows first second now choice f = elim (Option-cases s.locals) [
    | inl e ↦
        subst P (sym (ground (arith, e))) (unchanged s (frame_came first second now choice f) g)
    | inr (l, e) ↦
        subst P (sym (rw (e, step) refl)) (frame_came-Follows first second now choice f l e)
  ]
    where
      P : Session ts.Writer → Type 0
      P = Follows s (frame_came first second now choice f)

  meta_came-Follows :
      (first : Option CodecParams) (req : Option MetadataRequest) (l : Locals ts.Writer)
      → s.locals ≡ some l
      → (let (l', m') = on_meta ts append_float first req l s.muxer in
          Follows s (meta_came first req) record { muxer = m'; locals = some l'; held = s.held })
  unfolding on_meta IsSafeFor
  meta_came-Follows first none l e =
      same_readers s (meta_came first none) append_float 0 s.muxer
        (some (on_meta ts append_float first none l s.muxer).0)
        (
          subst (λ o. IsShared s.muxer s.held (current o)) e g.shared,
          Keeps-refl s.held s.muxer.store,
        )
        record { window = g.window; slow = omega arith; same_max = refl } (omega arith)
  meta_came-Follows first (some req) l e =
      let out = on_meta ts append_float first (some req) l s.muxer in
      same_readers s (meta_came first (some req)) append_float 0 out.1 (some out.0)
        (
          subst (λ o. IsShared s.muxer s.held (current o)) e g.shared,
          Keeps-refl s.held s.muxer.store,
        )
        record { window = g.window; slow = omega arith; same_max = refl } (omega arith)

  meta-Follows :
      (first : Option CodecParams) (req : Option MetadataRequest)
      → Follows s (meta_came first req) (step ts append_float (meta_came first req) s)
  unfolding step
  meta-Follows first req = elim (Option-cases s.locals) [
    | inl e ↦
        subst (Follows s (meta_came first req)) (sym (ground (arith, e)))
          (unchanged s (meta_came first req) g)
    | inr (l, e) ↦
        subst (Follows s (meta_came first req)) (sym (rw (e, step) refl))
          (meta_came-Follows first req l e)
  ]

  closed-Follows : Follows s reader_closed (step ts append_float reader_closed s)
  unfolding step IsSafeFor
  closed-Follows =
      same_readers s reader_closed append_float 0 s.muxer none
        (
          dropped-IsValid (s.muxer.segments ++ s.held) (current s.locals) s.muxer.store g.shared,
          Keeps-refl s.held s.muxer.store,
        )
        record { window = g.window; slow = omega arith; same_max = refl } (omega arith)

  watched-Follows : (now : ℤ) → Follows s (watched now) (step ts append_float (watched now) s)
  unfolding step
  watched-Follows now =
      same_readers s (watched now) append_float 1 (check_watchdog append_float now s.muxer) s.locals
        (check_watchdog-IsSafe append_float s.held now (current s.locals) s.muxer g.shared
          (room_segments s r g))
        (check_watchdog-Advances append_float now s.muxer g.window (fresh_segments s g) r.numbers)
        (omega arith)

  reused-Follows :
      (b : ℕ) (bs : Bytes) → Follows s (reused b bs) (step ts append_float (reused b bs) s)
  unfolding step IsSafe IsSafeFor
  reused-Follows b bs =
      let st = s.muxer.store in
      let (v, kept) =
        scribble-IsSafe b bs (s.muxer.segments ++ s.held) (current s.locals) st g.shared in
      same_readers s (reused b bs) append_float 0 (record s.muxer { store = scribble b bs st })
        s.locals (v, Keeps-part s.muxer.segments s.held st (scribble b bs st) kept)
        record {
          window =
              renamed st (scribble b bs st) s.muxer.max_segments s.muxer.segments s.muxer.seq_count
                s.muxer.seg_index (scribble-SameNames b bs st) g.window;
          slow = omega arith;
          same_max = refl;
        }
        (omega arith)

  stopped-Follows : Follows s stopped (step ts append_float stopped s)
  unfolding step
  stopped-Follows =
      same_readers s stopped append_float 0 (stop s.muxer) none
        (stop-IsSafe s.held (current s.locals) s.muxer g.shared)
        (stop-Advances append_float s.muxer) (omega arith)

  given_back :
      (a : ℕ)
      → 0 < count a s.held
      → Follows s
          (released a)
          (record s { muxer = release_segment a s.muxer; held = remove a s.held })
  unfolding IsSafeFor release_segment Keeps
  given_back a h =
      let m = s.muxer in
      let (v, kept) = released-IsSafe a s.held (current s.locals) m g.shared h in
      record {
        good = record {
          shared = v;
          window =
              renamed m.store (release a m.store) m.max_segments m.segments m.seq_count m.seg_index
                (release-SameNames a m.store) g.window;
        };
        same_max = refl;
        slow = omega arith;
        held_slow = omega (arith, length-remove-le a s.held);
        still = λ x. ground (arith, count-remove x a s.held);
        kept = λ x p q. kept x q;
      }

  released-Follows : (a : ℕ) → Follows s (released a) (step ts append_float (released a) s)
  unfolding step
  released-Follows a = elim (Bool-cases (ltb 0 (count a s.held))) [
    | inl t ↦ rw t (given_back a (ground (arith, t)))
    | inr f ↦ rw f (unchanged s (released a) g)
  ]

  taken :
      (name : Bytes) (a : ℕ)
      → 0 < count a s.muxer.segments
      → Follows s (acquired name) (record s {
        muxer = record s.muxer { store = retain a s.muxer.store };
        held = a ∷ s.held;
      })
  unfolding Keeps
  taken name a h =
      let m = s.muxer in
      let (v, kept) =
        acquired-IsSafe a s.held (current s.locals) m g.shared h (room_segments s r g) in
      record {
        good = record {
          shared = v;
          window =
              renamed m.store (retain a m.store) m.max_segments m.segments m.seq_count m.seg_index
                (retain-SameNames a m.store) g.window;
        };
        same_max = refl;
        slow = omega arith;
        held_slow = omega arith;
        still = λ x. unfold count in omega arith;
        kept = λ x p q. kept x p;
      }

  acquired-Follows :
      (name : Bytes) → Follows s (acquired name) (step ts append_float (acquired name) s)
  unfolding step
  acquired-Follows name = elim (Option-cases (find_segment (ts_name_of name) s.muxer)) [
    | inl e ↦
        subst (λ r. Follows s (acquired name) (served s r)) (sym (acquire_miss name s.muxer e))
          (unchanged s (acquired name) g)
    | inr (a, e) ↦
        subst (λ r. Follows s (acquired name) (served s r)) (sym (acquire_hit name s.muxer a e))
          (taken name a (find_segment_sound (ts_name_of name) s.muxer a g.window e).0)
  ]

  pub step-Follows : (e : Event) → Follows s e (step ts append_float e s)
  step-Follows (frame_came first second now choice f) = frame-Follows first second now choice f
  step-Follows (meta_came first req) = meta-Follows first req
  step-Follows reader_closed = closed-Follows
  step-Follows (watched now) = watched-Follows now
  step-Follows (acquired name) = acquired-Follows name
  step-Follows (released a) = released-Follows a
  step-Follows (reused b bs) = reused-Follows b bs
  step-Follows stopped = stopped-Follows
