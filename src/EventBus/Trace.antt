-- ===== src/EventBus/Trace.antt =====
-- The history of a running bus, and the invariant that ties it to the queues.
use native.Mathlib.Nat.{mod-lt}
use ruseon_core.Common.{
  ℕ, zero, suc, ◌<◌, ◌≡◌, ◌≢◌, refl, Bool, false, Option, none, some, List, [], ◌∷◌, ◌++◌, ◌==◌,
  if◌then◌else◌, length, get_elem?, set, get_elem?-set_self, get_elem?-set_ne, arith, ℕ_discrete,
}
use ruseon_core.Common.Go.{Outcome, returns, ◌>>=◌, Chan}
use ruseon_core.Common.Heap.{update}
use ruseon_core.Common.Bytes.{Bytes}
use ruseon_core.EventBus.{Event, EventBus, worker_for, key_of, publish, take_event}

pub worker_for-lt : (n : ℕ) (key : Bytes) → 0 < n → worker_for n key < n
unfolding worker_for
worker_for-lt n key h = mod-lt _ h

-- The bus with what has happened: the events accepted, in order, and the events that each worker has
-- taken, in order.
pub record Trace (D : Type 0) : Type 0 where
  pub bus : EventBus D
  pub accepted : List (Event D)
  pub taken : ℕ → List (Event D)

pub data Action (D : Type 0) : Type 0 where
  publishes : ℕ → Bytes → Bytes → D → Action D
  takes : ℕ → Action D

module _ {D : Type 0} where
  unfoldable pub accept : Option (Event D) → List (Event D) → List (Event D)
  accept none es = es
  accept (some e) es = es ++ (e ∷ [])

  unfoldable pub after_take : ℕ → Trace D → Option (Event D × EventBus D) → Trace D
  after_take i t none = t
  after_take i t (some (e, b)) = record t {
    bus = b;
    taken = update ℕ_discrete t.taken i (t.taken i ++ (e ∷ []));
  }

  unfoldable pub step : Action D → Trace D → Outcome (Trace D)
  unfolding accept after_take
  step (publishes now topic camera_id payload) t =
      publish now topic camera_id payload t.bus >>= λ r.
      returns (record t { bus = r.0; accepted = accept r.1 t.accepted })
  step (takes i) t = returns (after_take i t (take_event i t.bus))

  unfoldable pub run : List (Action D) → Trace D → Outcome (Trace D)
  run [] t = returns t
  run (a ∷ rest) t = step a t >>= run rest

module _ {D : Type 0} where
  -- The events on the list that satisfy a test, in order.
  abbrev pub keep : (Event D → Bool) → List (Event D) → List (Event D)
  keep p [] = []
  keep p (e ∷ es) = if p e then e ∷ keep p es else keep p es

  pub keep-append :
      (p : Event D → Bool) (xs ys : List (Event D)) → keep p (xs ++ ys) ≡ keep p xs ++ keep p ys
  keep-append p [] ys = refl
  keep-append p (x ∷ xs) ys = ground (arith, keep-append p xs ys)

  -- The queue of worker `i`.
  abbrev pub queue_of : ℕ → List (Chan (Event D)) → List (Event D)
  queue_of i cs = elim (get_elem? cs i) [ none ↦ [] | some c ↦ c.queue ]

  pub queue_of-set_self :
      (cs : List (Chan (Event D))) (i : ℕ) (c : Chan (Event D))
      → i < length cs
      → queue_of i (set cs i c) ≡ c.queue
  queue_of-set_self cs i c h = rw (get_elem?-set_self cs i c h, queue_of)

  pub queue_of-set_ne :
      (cs : List (Chan (Event D))) (i j : ℕ) (c : Chan (Event D))
      → i ≢ j
      → queue_of j (set cs i c) ≡ queue_of j cs
  queue_of-set_ne cs i j c h = rw (get_elem?-set_ne cs {i = i} {j = j} c h, queue_of)

  get_elem?-some-lt :
      (cs : List (Chan (Event D))) (i : ℕ) (c : Chan (Event D))
      → get_elem? cs i ≡ some c
      → i < length cs
  get_elem?-some-lt [] i c e = cc
  get_elem?-some-lt (d ∷ cs) zero c e = omega arith
  get_elem?-some-lt (d ∷ cs) (suc i) c e = omega (arith, get_elem?-some-lt cs i c e)

  pub get_elem?-lt :
      (cs : List (Chan (Event D))) (i : ℕ)
      → i < length cs
      → (c : Chan (Event D)) × (get_elem? cs i ≡ some c)
  get_elem?-lt [] i h = elim h [ ]
  get_elem?-lt (d ∷ cs) zero h = (d, refl)
  get_elem?-lt (d ∷ cs) (suc i) h = get_elem?-lt cs i (omega arith)

  abbrev pub AllOpen : List (Chan (Event D)) → Type 0
  AllOpen [] = Unit {0}
  AllOpen (c ∷ cs) = (c.closed ≡ false) × AllOpen cs

  pub AllOpen-get :
      (cs : List (Chan (Event D))) (i : ℕ) (c : Chan (Event D))
      → AllOpen cs
      → get_elem? cs i ≡ some c
      → c.closed ≡ false
  AllOpen-get [] i c o e = cc
  AllOpen-get (d ∷ cs) zero c o e = ground (arith, o.0)
  AllOpen-get (d ∷ cs) (suc i) c o e = AllOpen-get cs i c o.1 e

  pub AllOpen-set :
      (cs : List (Chan (Event D))) (i : ℕ) (c : Chan (Event D))
      → AllOpen cs
      → c.closed ≡ false
      → AllOpen (set cs i c)
  AllOpen-set [] i c o e = tt
  AllOpen-set (d ∷ cs) zero c o e = (e, o.1)
  AllOpen-set (d ∷ cs) (suc i) c o e = (o.0, AllOpen-set cs i c o.1 e)

  -- The worker that an event belongs to, of a pool of `n`.
  abbrev pub goes_to : ℕ → ℕ → Event D → Bool
  goes_to n i e = worker_for n (key_of e) == i

  -- A running bus has `n > 0` workers with open queues, and each has taken or holds exactly the accepted
  -- events that go to it, in the order in which they were accepted.
  pub record Ordered (n : ℕ) (t : Trace D) : Type 0 where
    pub pool : length t.bus.workers ≡ n
    pub some_worker : 0 < n
    pub opened : AllOpen t.bus.workers
    pub in_order :
        (i : ℕ) → i < n → t.taken i ++ queue_of i t.bus.workers ≡ keep (goes_to n i) t.accepted

  pub queue_at :
      (cs : List (Chan (Event D))) (i : ℕ) (c : Chan (Event D))
      → get_elem? cs i ≡ some c
      → queue_of i cs ≡ c.queue
  queue_at cs i c e = rw (e, queue_of)

  pub keep_own :
      (n : ℕ) (e : Event D) → keep (goes_to n (worker_for n (key_of e))) (e ∷ []) ≡ e ∷ []
  keep_own n e = ground arith

  pub keep_other :
      (n i : ℕ) (e : Event D) → worker_for n (key_of e) ≢ i → keep (goes_to n i) (e ∷ []) ≡ []
  keep_other n i e h = ground arith
