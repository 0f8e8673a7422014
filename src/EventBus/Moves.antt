-- ===== src/EventBus/Moves.antt =====
-- One event enqueued, and one taken: the invariant is kept.
use mathlib.Core.List.{append_assoc, append-nil}
use ruseon_core.Common.{
  ℕ, ◌<◌, ◌≡◌, sym, ap, ◌∙◌, some, [], ◌∷◌, ◌++◌, length-set, get_elem?, set, arith, ℕ_discrete,
  subst,
}
use ruseon_core.Common.Go.{Chan}
use ruseon_core.Common.Heap.{update, update_self, update_ne}
use ruseon_core.EventBus.{Event, worker_for, key_of}
use ruseon_core.EventBus.Trace.{
  Trace, keep, keep-append, queue_of, queue_of-set_self, queue_of-set_ne, AllOpen-get, AllOpen-set,
  goes_to, Ordered, queue_at, keep_own, keep_other,
}

module _ {D : Type 0} where
  -- The trace with an event at the end of worker `w`'s queue.
  unfoldable pub appended : ℕ → Event D → Chan (Event D) → Trace D → Trace D
  appended w e c t = record t {
    bus = record (t.bus) {
      workers = set t.bus.workers w (record c { queue = c.queue ++ (e ∷ []) });
    };
    accepted = t.accepted ++ (e ∷ []);
  }

  pub appended-Ordered :
      (n : ℕ) (e : Event D) (c : Chan (Event D)) (t : Trace D)
      → Ordered n t
      → get_elem? t.bus.workers (worker_for n (key_of e)) ≡ some c
      → Ordered n (appended (worker_for n (key_of e)) e c t)
  unfolding appended
  appended-Ordered n e c t v at_w =
      let w : ℕ = worker_for n (key_of e) in
      let c' : Chan (Event D) = record c { queue = c.queue ++ (e ∷ []) } in
      record {
        pool = length-set t.bus.workers w c' ∙ v.pool;
        some_worker = v.some_worker;
        opened =
            AllOpen-set t.bus.workers w c' v.opened (AllOpen-get t.bus.workers w c v.opened at_w);
        in_order = λ i h. elim (ℕ_discrete w i) [
          | yes same ↦
              subst
                (λ j.
                  t.taken j ++ queue_of j (set t.bus.workers w c')
                  ≡ keep (goes_to n j) (t.accepted ++ (e ∷ [])))
                same (own (omega arith))
          | no other ↦
              ap (◌++◌ (t.taken i)) (queue_of-set_ne t.bus.workers w i c' other)
              ∙ v.in_order i h
              ∙ sym (append-nil (keep (goes_to n i) t.accepted))
              ∙ ap (◌++◌ (keep (goes_to n i) t.accepted)) (sym (keep_other n i e other))
              ∙ sym (keep-append (goes_to n i) t.accepted (e ∷ []))
        ];
      }
    where
      own :
          worker_for n (key_of e) < n
          → t.taken (worker_for n (key_of e))
              ++ queue_of (worker_for n (key_of e)) (
                  set t.bus.workers
                    (worker_for n (key_of e))
                    (record c { queue = c.queue ++ (e ∷ []) }))
            ≡ keep (goes_to n (worker_for n (key_of e))) (t.accepted ++ (e ∷ []))
      own h =
          let w : ℕ = worker_for n (key_of e) in
          ap (◌++◌ (t.taken w)) (
            queue_of-set_self t.bus.workers w (record c { queue = c.queue ++ (e ∷ []) })
              (omega (arith, v.pool)))
          ∙ sym (append_assoc (t.taken w) c.queue (e ∷ []))
          ∙ ap (λ es. es ++ (e ∷ []))
              (ap (◌++◌ (t.taken w)) (sym (queue_at t.bus.workers w c at_w)) ∙ v.in_order w h)
          ∙ ap (◌++◌ (keep (goes_to n w) t.accepted)) (sym (keep_own n e))
          ∙ sym (keep-append (goes_to n w) t.accepted (e ∷ []))

  unfoldable pub taken_one : ℕ → Event D → Chan (Event D) → Trace D → Trace D
  taken_one i e c t = record t {
    bus = record (t.bus) { workers = set t.bus.workers i c };
    taken = update ℕ_discrete t.taken i (t.taken i ++ (e ∷ []));
  }

  pub taken_one-Ordered :
      (n i : ℕ) (e : Event D) (c c' : Chan (Event D)) (t : Trace D)
      → Ordered n t
      → get_elem? t.bus.workers i ≡ some c
      → c.queue ≡ e ∷ c'.queue
      → c'.closed ≡ c.closed
      → Ordered n (taken_one i e c' t)
  unfolding taken_one
  taken_one-Ordered n i e c c' t v at_i q cl = record {
    pool = length-set t.bus.workers i c' ∙ v.pool;
    some_worker = v.some_worker;
    opened =
        AllOpen-set t.bus.workers i c' v.opened (cl ∙ AllOpen-get t.bus.workers i c v.opened at_i);
    in_order = λ j h. elim (ℕ_discrete i j) [
      | yes same ↦
          subst
            (λ k.
              update ℕ_discrete t.taken i (t.taken i ++ (e ∷ [])) k
                ++ queue_of k (set t.bus.workers i c')
              ≡ keep (goes_to n k) t.accepted)
            same (own (omega arith))
      | no other ↦
          rw (update_ne ℕ_discrete t.taken i j (t.taken i ++ (e ∷ [])) other)
            (ap (◌++◌ (t.taken j)) (queue_of-set_ne t.bus.workers i j c' other) ∙ v.in_order j h)
    ];
  }
    where
      own :
          i < n
          → update ℕ_discrete t.taken i (t.taken i ++ (e ∷ [])) i
              ++ queue_of i (set t.bus.workers i c')
            ≡ keep (goes_to n i) t.accepted
      own h = rw (update_self ℕ_discrete t.taken i (t.taken i ++ (e ∷ []))) (
          ap (◌++◌ (t.taken i ++ (e ∷ [])))
            (queue_of-set_self t.bus.workers i c' (omega (arith, v.pool)))
          ∙ append_assoc (t.taken i) (e ∷ []) c'.queue
          ∙ ap (◌++◌ (t.taken i)) (sym q ∙ sym (queue_at t.bus.workers i c at_i))
          ∙ v.in_order i h)
