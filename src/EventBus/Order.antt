-- ===== src/EventBus/Order.antt =====
-- Publishers and workers interleaved in any order.
use ruseon_core.Common.{
  ℕ, ◌+◌, ◌≡◌, refl, ap, ◌∙◌, true, false, ◌||◌, Option, none, some, List, [], ◌∷◌, ◌++◌, ltb,
  length, get_elem?, set, arith, Bool-cases, Option-cases, ◌⊎◌, inl, inr,
}
use ruseon_core.Common.Go.{returns, Chan, try_send}
use ruseon_core.Common.Bytes.{Bytes}
use ruseon_core.EventBus.{
  Event, EventBus, worker_for, key_of, enqueue, publish, take_event, no_webhooks, pop, new_event,
}
use ruseon_core.EventBus.Trace.{
  Trace, Action, publishes, takes, accept, after_take, step, run, get_elem?-lt, AllOpen-get,
  Ordered, worker_for-lt,
}
use ruseon_core.EventBus.Moves.{appended, appended-Ordered, taken_one, taken_one-Ordered}

module _ {D : Type 0} where
  module _ (e : Event D) (i : ℕ) (b : EventBus D) (c : Chan (Event D))
      (at_i : get_elem? b.workers i ≡ some c) (o : c.closed ≡ false) where
    enqueue_room :
        ltb (length c.queue) c.cap ≡ true
        → enqueue e i b
          ≡ returns (
            record b { workers = set b.workers i (record c { queue = c.queue ++ (e ∷ []) }) },
            some e,
          )
    unfolding enqueue try_send
    enqueue_room room = ground (arith, at_i, o, room)

    enqueue_full :
        ltb (length c.queue) c.cap ≡ false
        → enqueue e i b ≡ returns (record b { drops = b.drops + 1 }, none)
    unfolding enqueue try_send
    enqueue_full full = ground (arith, at_i, o, full)

  module _ (now : ℕ) (topic camera_id : Bytes) (payload : D) (b : EventBus D) where
    publish_off :
        (b.stopped || no_webhooks b.webhooks) ≡ true
        → publish now topic camera_id payload b ≡ returns (b, none)
    unfolding publish
    publish_off h = ground arith

    publish_on :
        (b.stopped || no_webhooks b.webhooks) ≡ false
        → let e = new_event now topic camera_id payload in
          publish now topic camera_id payload b
          ≡ enqueue e (worker_for (length b.workers) (key_of e)) b
    unfolding publish
    publish_on h = ground arith

  step_publishes :
      (now : ℕ) (topic camera_id : Bytes) (payload : D) (t : Trace D) (b : EventBus D)
      (o : Option (Event D))
      → publish now topic camera_id payload t.bus ≡ returns (b, o)
      → step (publishes now topic camera_id payload) t
        ≡ returns (record t { bus = b; accepted = accept o t.accepted })
  unfolding step
  step_publishes now topic camera_id payload t b o e = rw e

  publish-Ordered :
      (n now : ℕ) (topic camera_id : Bytes) (payload : D) (t : Trace D)
      → Ordered n t
      → (t' : Trace D) × (step (publishes now topic camera_id payload) t ≡ returns t')
        × Ordered n t'
  unfolding accept appended
  publish-Ordered n now topic camera_id payload t v =
      let e = new_event now topic camera_id payload in
      let there =
        get_elem?-lt t.bus.workers (worker_for n (key_of e))
          (omega (arith, v.pool, worker_for-lt n (key_of e) v.some_worker)) in
      let on : (t.bus.stopped || no_webhooks t.bus.webhooks) ≡ false
          → publish now topic camera_id payload t.bus ≡ enqueue e (worker_for n (key_of e)) t.bus =
        λ h.
          publish_on now topic camera_id payload t.bus h
          ∙ ap (λ k. enqueue e (worker_for k (key_of e)) t.bus) v.pool in
      elim (Bool-cases (t.bus.stopped || no_webhooks t.bus.webhooks)) [
        | inl off ↦ (
          t,
          step_publishes now topic camera_id payload t t.bus none
              (publish_off now topic camera_id payload t.bus off),
          v,
        )
        | inr h ↦ elim (Bool-cases (ltb (length (there.0).queue) (there.0).cap)) [
          | inl room ↦ (
            appended (worker_for n (key_of e)) e there.0 t,
            step_publishes now topic camera_id payload t _ (some e) (
                on h
                ∙ enqueue_room e (worker_for n (key_of e)) t.bus there.0 there.1
                    (AllOpen-get t.bus.workers _ there.0 v.opened there.1) room),
            appended-Ordered n e there.0 t v there.1,
          )
          | inr full ↦ (
            record t { bus = record (t.bus) { drops = t.bus.drops + 1 } },
            step_publishes now topic camera_id payload t _ none (
                on h
                ∙ enqueue_full e (worker_for n (key_of e)) t.bus there.0 there.1
                    (AllOpen-get t.bus.workers _ there.0 v.opened there.1) full),
            record {
              pool = v.pool;
              some_worker = v.some_worker;
              opened = v.opened;
              in_order = v.in_order;
            },
          )
        ]
      ]

  take_event-none :
      (i : ℕ) (b : EventBus D)
      → (get_elem? b.workers i ≡ none)
        ⊎ ((c : Chan (Event D)) × (get_elem? b.workers i ≡ some c) × (c.queue ≡ []))
      → take_event i b ≡ none
  unfolding take_event pop
  take_event-none i b (inl e) = rw (e, take_event)
  take_event-none i b (inr (c, e, q)) = rw (e, take_event) (rw q)

  take_event-some :
      (i : ℕ) (b : EventBus D) (c : Chan (Event D)) (e : Event D) (es : List (Event D))
      → get_elem? b.workers i ≡ some c
      → c.queue ≡ e ∷ es
      → take_event i b ≡ some (e, record b { workers = set b.workers i (record c { queue = es }) })
  unfolding take_event pop
  take_event-some i b c e es at_i q = rw (at_i, take_event) (rw q)

  take_none :
      (i : ℕ) (t : Trace D)
      → (get_elem? t.bus.workers i ≡ none)
        ⊎ ((c : Chan (Event D)) × (get_elem? t.bus.workers i ≡ some c) × (c.queue ≡ []))
      → step (takes i) t ≡ returns t
  unfolding step after_take
  take_none i t h = rw (take_event-none i t.bus h)

  take_some :
      (i : ℕ) (t : Trace D) (c : Chan (Event D)) (e : Event D) (es : List (Event D))
      → get_elem? t.bus.workers i ≡ some c
      → c.queue ≡ e ∷ es
      → step (takes i) t ≡ returns (taken_one i e (record c { queue = es }) t)
  unfolding step after_take taken_one
  take_some i t c e es at_i q = rw (take_event-some i t.bus c e es at_i q)

  List-cases :
      (xs : List (Event D)) → (xs ≡ []) ⊎ ((e : Event D) × (es : List (Event D)) × (xs ≡ e ∷ es))
  List-cases [] = inl refl
  List-cases (x ∷ xs) = inr (x, xs, refl)

  take-Ordered :
      (n i : ℕ) (t : Trace D)
      → Ordered n t
      → (t' : Trace D) × (step (takes i) t ≡ returns t') × Ordered n t'
  take-Ordered n i t v = elim (Option-cases (get_elem? t.bus.workers i)) [
    | inl e ↦ (t, take_none i t (inl e), v)
    | inr (c, at_i) ↦ elim (List-cases c.queue) [
      | inl q ↦ (t, take_none i t (inr (c, at_i, q)), v)
      | inr (e, es, q) ↦ (
        taken_one i e (record c { queue = es }) t,
        take_some i t c e es at_i q,
        taken_one-Ordered n i e c (record c { queue = es }) t v at_i q refl,
      )
    ]
  ]

  pub run-Ordered :
      (n : ℕ) (acts : List (Action D)) (t : Trace D)
      → Ordered n t
      → (t' : Trace D) × (run acts t ≡ returns t') × Ordered n t'
  unfolding run
  run-Ordered n [] t v = (t, refl, v)
  run-Ordered n (publishes now topic camera_id payload ∷ acts) t v =
      let (t1, one, v1) = publish-Ordered n now topic camera_id payload t v in
      let (t2, rest, v2) = run-Ordered n acts t1 v1 in (t2, rw one rest, v2)
  run-Ordered n (takes i ∷ acts) t v =
      let (t1, one, v1) = take-Ordered n i t v in
      let (t2, rest, v2) = run-Ordered n acts t1 v1 in (t2, rw one rest, v2)
