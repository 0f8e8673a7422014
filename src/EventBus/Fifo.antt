-- ===== src/EventBus/Fifo.antt =====
-- What the order of the queues means for one camera, and for a bus that stops.
use ruseon_core.Common.{
  ◌⊎◌, inl, inr, ℕ_discrete, ℕ, zero, suc, ◌<◌, ◌≡◌, ◌≢◌, refl, sym, ap, ◌∙◌, Bool, true, false,
  none, some, Option, List, [], ◌∷◌, ◌++◌, length-replicate, replicate, arith,
}
use ruseon_core.Common.Int.{ℤ, pos, negsuc}
use ruseon_core.Common.Go.{returns, Chan, make_chan}
use ruseon_core.Common.Bytes.{Bytes, bytes_eq}
use ruseon_core.EventBus.{
  Event, EventBus, WebhookConfig, worker_for, key_of, new, pool_size, queue_size,
}
use ruseon_core.EventBus.Trace.{
  Trace, Action, run, keep, keep-append, queue_of, AllOpen, goes_to, Ordered, worker_for-lt,
}
use ruseon_core.EventBus.Order.{run-Ordered}

pool_size-pos : (n : ℤ) → 0 < pool_size n
pool_size-pos (pos zero) = omega arith
pool_size-pos (pos (suc n)) = omega arith
pool_size-pos (negsuc n) = omega arith

AllOpen-replicate : (D : Type 0) (n : ℕ) → AllOpen {D = D} (replicate n (make_chan queue_size))
AllOpen-replicate D zero = tt
AllOpen-replicate D (suc n) = (refl, AllOpen-replicate D n)

queue_of-replicate :
    (D : Type 0) (i n : ℕ) → queue_of {D = D} i (replicate n (make_chan queue_size)) ≡ []
queue_of-replicate D i zero = refl
queue_of-replicate D zero (suc n) = refl
queue_of-replicate D (suc i) (suc n) = queue_of-replicate D i n

module _ {D : Type 0} where
  pub of_key : Bytes → Event D → Bool
  of_key k e = bytes_eq (key_of e) k

  keep-keep :
      (p q : Event D → Bool)
      → ((e : Event D) → p e ≡ true → q e ≡ true)
      → (es : List (Event D)) → keep p (keep q es) ≡ keep p es
  keep-keep p q h [] = refl
  keep-keep p q h (e ∷ es) = ground (arith, h e, keep-keep p q h es)

  keep-keep_none :
      (p q : Event D → Bool)
      → ((e : Event D) → p e ≡ true → q e ≡ false)
      → (es : List (Event D)) → keep p (keep q es) ≡ []
  keep-keep_none p q h [] = refl
  keep-keep_none p q h (e ∷ es) = ground (arith, h e, keep-keep_none p q h es)

  of_key-goes_to :
      (n : ℕ) (k : Bytes) (e : Event D) → of_key k e ≡ true → goes_to n (worker_for n k) e ≡ true
  unfolding of_key
  of_key-goes_to n k e h = ground arith

  of_key-goes_elsewhere :
      (n i : ℕ) (k : Bytes) (e : Event D)
      → worker_for n k ≢ i
      → of_key k e ≡ true
      → goes_to n i e ≡ false
  unfolding of_key
  of_key-goes_elsewhere n i k e d h = ground arith

  -- A new bus with nothing accepted and nothing taken.
  abbrev pub start : List WebhookConfig → ℤ → Trace D
  start webhooks n = record { bus = new webhooks n; accepted = []; taken = λ _. [] }

  start-Ordered : (webhooks : List WebhookConfig) (n : ℤ) → Ordered (pool_size n) (start webhooks n)
  unfolding new
  start-Ordered webhooks n = record {
    pool = length-replicate (pool_size n) (make_chan queue_size);
    some_worker = pool_size-pos n;
    opened = AllOpen-replicate D (pool_size n);
    in_order = λ i h. queue_of-replicate D i (pool_size n);
  }

  -- From a new bus, however publishers and workers interleave, no call panics or blocks; the worker of a
  -- key has taken, or still holds in its queue, exactly the accepted events of that key, in the order
  -- of acceptance; and no other worker has taken any of them.
  pub run_fifo :
      (webhooks : List WebhookConfig) (size : ℤ) (acts : List (Action D)) (k : Bytes) (i : ℕ)
      → i < pool_size size
      → let w = worker_for (pool_size size) k in
        (t : Trace D) × (run acts (start webhooks size) ≡ returns t)
        × (keep (of_key k) (t.taken w ++ queue_of w t.bus.workers) ≡ keep (of_key k) t.accepted)
        × ((w ≡ i) ⊎ (keep (of_key k) (t.taken i) ≡ []))
  run_fifo webhooks size acts k i h =
      let n : ℕ = pool_size size in
      let w : ℕ = worker_for n k in
      let (t, ran, v) = run-Ordered n acts (start webhooks size) (start-Ordered webhooks size) in
      (
        t,
        ran,
        ap (keep (of_key k)) (v.in_order w (worker_for-lt n k v.some_worker))
            ∙ keep-keep (of_key k) (goes_to n w) (of_key-goes_to n k) t.accepted,
        elim (ℕ_discrete w i) [
          | yes e ↦ inl e
          | no d ↦ inr (
              left_nil (keep (of_key k) (t.taken i)) (keep (of_key k) (queue_of i t.bus.workers)) (
                sym (keep-append (of_key k) (t.taken i) (queue_of i t.bus.workers))
                ∙ ap (keep (of_key k)) (v.in_order i h)
                ∙ keep-keep_none (of_key k) (goes_to n i) (λ e. of_key-goes_elsewhere n i k e d)
                    t.accepted))
        ],
      )
    where
      left_nil : (xs ys : List (Event D)) → xs ++ ys ≡ [] → xs ≡ []
      left_nil [] ys e = refl
      left_nil (x ∷ xs) ys e = cc

  -- The channel, if there is one, with its end closed.
  abbrev pub closed_queue : Option (Chan (Event D)) → Option (Chan (Event D))
  closed_queue none = none
  closed_queue (some c) = some (record c { closed = true })

  -- The channels with their ends closed.
  abbrev pub all_closed : List (Chan (Event D)) → List (Chan (Event D))
  all_closed [] = []
  all_closed (c ∷ cs) = record c { closed = true } ∷ all_closed cs
