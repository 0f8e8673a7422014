-- ===== src/Buffer/Search.antt =====
-- The search for the newest key frame.
use ruseon_core.Common.{
  ℕ, zero, suc, ◌+◌, ◌-◌, ◌≤◌, ◌<◌, ◌≡◌, refl, Bool, true, false, inl, inr, Option, none, some,
  List, length, get_elem?, arith, Bool-cases, dec_lt,
}
use mathlib.Core.Path.{subst₂}
use ruseon_core.Buffer.{Frame, RingBuffer, slot, find_from, find_last_iframe_locked}
use ruseon_core.Buffer.Log.{IsLog}

-- Frame `i` of the log is there and is a key frame.
abbrev pub is_key_at : List Frame → ℕ → Bool
is_key_at log i = elim (get_elem? log i) [ none ↦ false | some f ↦ f.is_key_frame ]

-- From `lo` up to `hi` there is no key frame.
abbrev pub NoKey : List Frame → ℕ → ℕ → Type 0
NoKey log lo hi = (i : ℕ) → lo ≤ i → i < hi → is_key_at log i ≡ false

-- The answer of the search down to `lo`: the newest key frame below `hi`, or that there is none.
abbrev pub Newest : List Frame → ℕ → ℕ → Option ℕ → Type 0
Newest log lo hi none = NoKey log lo hi
Newest log lo hi (some k) = (lo ≤ k) × (k < hi) × (is_key_at log k ≡ true) × NoKey log (suc k) hi

Newest-skip :
    (log : List Frame) (lo k : ℕ) (hi : ℕ) (o : Option ℕ)
    → is_key_at log k ≡ false
    → hi ≡ suc k
    → Newest log lo k o
    → Newest log lo hi o
Newest-skip log lo k hi none e s v = λ i h u. grind (arith, v i)
Newest-skip log lo k hi (some j) e s v =
    (v.0, omega (arith, v.1), v.2, λ i h u. grind (arith, v.3 i))

find_from-none : (i : ℕ) (rb : RingBuffer) → find_from 0 i rb ≡ none
unfolding find_from
find_from-none i rb = refl

find_from_past : (n i : ℕ) (rb : RingBuffer) → rb.head < i + 1 → find_from (suc n) i rb ≡ none
unfolding find_from
find_from_past n i rb h = ground arith

-- One round, seen on the log.
module _ (n i : ℕ) (rb : RingBuffer) (log : List Frame) (more : ¬ rb.head < i + 1)
    (here : slot rb (rb.head - (i + 1)) ≡ get_elem? log (rb.head - (i + 1))) where
  find_from_hit :
      is_key_at log (rb.head - (i + 1)) ≡ true → find_from (suc n) i rb ≡ some (rb.head - (i + 1))
  unfolding find_from
  find_from_hit key = ground arith

  find_from_miss :
      is_key_at log (rb.head - (i + 1)) ≡ false → find_from (suc n) i rb ≡ find_from n (i + 1) rb
  unfolding find_from
  find_from_miss plain = ground arith

-- `i` rounds are done and `n` are left.
find_from-Newest :
    (n i : ℕ) (rb : RingBuffer) (log : List Frame)
    → IsLog rb log
    → i + n ≤ rb.capacity
    → i ≤ length log
    → Newest log (length log - (i + n)) (length log - i) (find_from n i rb)
find_from-Newest zero i rb log l near in_log = rw find_from-none (λ j h u. absurd (omega arith))
find_from-Newest (suc n) i rb log l near in_log = elim (dec_lt rb.head (i + 1)) [
  | yes past ↦ rw (find_from_past n i rb past) (λ j h u. absurd (omega (arith, l.written)))
  | no more ↦
      let k : ℕ = rb.head - (i + 1) in
      let here = l.window k (omega (arith, l.written)) (omega (arith, l.written)) in
      elim (Bool-cases (is_key_at log k)) [
        | inl key ↦ rw (find_from_hit n i rb log more here key) (
          omega (arith, l.written),
          omega (arith, l.written),
          key,
          λ j h u. absurd (omega (arith, l.written)),
        )
        | inr plain ↦ rw (find_from_miss n i rb log more here plain) (
            Newest-skip log _ k _ (find_from n (i + 1) rb) plain (omega (arith, l.written)) (
              subst₂ (λ lo hi. Newest log lo hi (find_from n (i + 1) rb)) (omega (arith, l.written))
                (omega (arith, l.written))
                (find_from-Newest n (i + 1) rb log l (omega arith) (omega (arith, l.written)))))
      ]
]

-- What `findLastIFrameLocked` returns: the head as it is, and if a frame was found its index.
abbrev pub Found : List Frame → ℕ → ℕ × Bool × ℕ → Type 0
Found log lo (idx, true, head) = (head ≡ length log) × Newest log lo (length log) (some idx)
Found log lo (idx, false, head) =
    (head ≡ length log) × (idx ≡ length log) × NoKey log lo (length log)

search_result : RingBuffer → Option ℕ → ℕ × Bool × ℕ
search_result rb none = (rb.head, false, rb.head)
search_result rb (some idx) = (idx, true, rb.head)

find_last_iframe_locked-search_result :
    (rb : RingBuffer) → find_last_iframe_locked rb ≡ search_result rb (find_from rb.capacity 0 rb)
unfolding find_last_iframe_locked search_result
find_last_iframe_locked-search_result rb = ground arith

search_result-Found :
    (rb : RingBuffer) (log : List Frame) (lo : ℕ) (o : Option ℕ)
    → rb.head ≡ length log
    → Newest log lo (length log) o
    → Found log lo (search_result rb o)
unfolding search_result
search_result-Found rb log lo none w v = (w, w, v)
search_result-Found rb log lo (some k) w v = (w, v)

-- The search finds the newest key frame among the last `capacity` frames written, and fails only if
-- none of them is a key frame.
pub find_last_iframe_locked-Found :
    (rb : RingBuffer) (log : List Frame)
    → IsLog rb log
    → Found log (length log - rb.capacity) (find_last_iframe_locked rb)
find_last_iframe_locked-Found rb log l = rw (find_last_iframe_locked-search_result rb) (
    search_result-Found rb log _ (find_from rb.capacity 0 rb) l.written (
      subst₂ (λ lo hi. Newest log lo hi (find_from rb.capacity 0 rb)) (omega arith) (omega arith)
        (find_from-Newest rb.capacity 0 rb log l (omega arith) (omega arith))))
