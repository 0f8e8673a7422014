-- ===== src/EventBus/Worker/Circuit.antt =====
-- The circuit breakers that the workers share, over any interleaving of their steps.
use ruseon_core.Common.{
  ap, ◌∙◌, ℕ_discrete, ℕ, ◌+◌, ◌<◌, ◌≡◌, ◌≢◌, sym, Bool, true, false, Option, some, List, [], ◌∷◌,
  arith, subst,
}
use ruseon_core.Common.Dict.{Dict, lookup-insert_self, lookup-insert_ne, lookup-erase_ne}
use ruseon_core.Common.Bytes.{Bytes, bytes_discrete}
use ruseon_core.Common.Heap.{update, update_self, update_ne}
use ruseon_core.EventBus.{WebhookConfig}
use ruseon_core.EventBus.Worker.{
  open_for, Point, idle, considers, sends, settle, Move, receives, checks, finishes, move, Pool,
  act, run,
}
use ruseon_core.EventBus.Worker.Check.{
  unlock_time, InFlight, Failed, Failed-send_failed, next_webhook_quiet, check-quiet, Checked,
  check-Checked,
}

settle_elsewhere :
    (after : ℕ) (response : Option ℕ) (wh : WebhookConfig) (was_open : Bool)
    (breakers : Dict Bytes ℕ) (url : Bytes)
    → wh.url ≢ url
    → unlock_time url (settle after response wh was_open breakers) ≡ unlock_time url breakers
unfolding settle
settle_elsewhere after response wh was_open breakers url n = ground (
  arith,
  lookup-insert_ne bytes_discrete wh.url url (after + open_for) breakers n,
  lookup-erase_ne bytes_discrete wh.url url breakers n,
)

settle-Failed :
    (after : ℕ) (response : Option ℕ) (wh : WebhookConfig) (was_open : Bool)
    (breakers : Dict Bytes ℕ)
    → Failed response
    → unlock_time wh.url (settle after response wh was_open breakers) ≡ some (after + 30000000000)
unfolding settle
settle-Failed after response wh was_open breakers h =
    rw (Failed-send_failed response h, settle)
      (lookup-insert_self bytes_discrete wh.url (after + 30000000000) breakers)

-- A check is made before a time.
abbrev pub InTime : ℕ → Move → Type 0
InTime t (checks now) = now < t
InTime t (receives topic marshals) = Unit {0}
InTime t (finishes after response) = Unit {0}

abbrev pub AllInTime : ℕ → List (ℕ × Move) → Type 0
AllInTime t [] = Unit {0}
AllInTime t ((i, m) ∷ ms) = InTime t m × AllInTime t ms

module _ (webhooks : List WebhookConfig) where
  move_quiet :
      (m : Move) (p : Point) (breakers : Dict Bytes ℕ) (url : Bytes) (t : ℕ)
      → unlock_time url breakers ≡ some t
      → ¬ InFlight url p
      → InTime t m
      → (¬ InFlight url (move webhooks m p breakers).0)
        × (unlock_time url (move webhooks m p breakers).1 ≡ some t)
  unfolding move
  move_quiet (receives topic true) idle breakers url t o q h =
      (next_webhook_quiet url topic webhooks, o)
  move_quiet (receives topic false) idle breakers url t o q h = (q, o)
  move_quiet (receives topic b) (considers topic' wh rest) breakers url t o q h = (q, o)
  move_quiet (receives topic b) (sends topic' wh was rest) breakers url t o q h = (q, o)
  move_quiet (checks now) idle breakers url t o q h = (q, o)
  move_quiet (checks now) (considers topic wh rest) breakers url t o q h =
      (check-quiet now topic wh rest breakers url t o h, o)
  move_quiet (checks now) (sends topic wh was rest) breakers url t o q h = (q, o)
  move_quiet (finishes after response) idle breakers url t o q h = (q, o)
  move_quiet (finishes after response) (considers topic wh rest) breakers url t o q h = (q, o)
  move_quiet (finishes after response) (sends topic wh was rest) breakers url t o q h =
      (next_webhook_quiet url topic rest, settle_elsewhere after response wh was breakers url q ∙ o)

  -- The circuit to a URL is open until a time, and no request to it is under way.
  abbrev pub IsShut : Bytes → ℕ → Pool webhooks → Type 0
  IsShut url t s = ((k : ℕ) → ¬ InFlight url (s.points k)) × (unlock_time url s.breakers ≡ some t)

  points_at :
      (i k : ℕ) (p : Point) (s : Pool webhooks) (P : Point → Type 0)
      → P p
      → (i ≢ k → P (s.points k))
      → P (update ℕ_discrete s.points i p k)
  points_at i k p s P own others = elim (ℕ_discrete i k) [
    | yes e ↦
        subst (λ j. P (update ℕ_discrete s.points i p j)) e
          (subst P (sym (update_self ℕ_discrete s.points i p)) own)
    | no n ↦ subst P (sym (update_ne ℕ_discrete s.points i k p n)) (others n)
  ]

  act-IsShut :
      (i : ℕ) (m : Move) (url : Bytes) (t : ℕ) (s : Pool webhooks)
      → IsShut url t s
      → InTime t m
      → IsShut url t (act webhooks i m s)
  unfolding act
  act-IsShut i m url t s (q, o) h =
      let (own, kept) = move_quiet m (s.points i) s.breakers url t o (q i) h in
      (
        λ k.
            points_at i k (move webhooks m (s.points i) s.breakers).0 s (λ p. ¬ InFlight url p) own
              (λ n. q k),
        kept,
      )

  run-IsShut :
      (ms : List (ℕ × Move)) (url : Bytes) (t : ℕ) (s : Pool webhooks)
      → IsShut url t s
      → AllInTime t ms
      → IsShut url t (run webhooks ms s)
  unfolding run
  run-IsShut [] url t s v h = v
  run-IsShut ((i, m) ∷ ms) url t s v (h, hs) =
      run-IsShut ms url t (act webhooks i m s) (act-IsShut i m url t s v h) hs

  -- A check of a webhook by a worker sends a request, and remembers whether there was a circuit breaker, if the
  -- filter is empty or allows the topic and the circuit of its URL is shut or was to be open until a time that has
  -- come; if not, the worker goes on to the next webhook. The breakers and the other workers stay as they are.
  pub check_lem :
      (i now : ℕ) (s : Pool webhooks) (topic : Bytes) (wh : WebhookConfig)
      (rest : List WebhookConfig)
      → s.points i ≡ considers topic wh rest
      → let s' = act webhooks i (checks now) s in
        Checked now topic wh rest (unlock_time wh.url s.breakers) (s'.points i)
        × (s'.breakers ≡ s.breakers)
        × ((k : ℕ) → i ≢ k → s'.points k ≡ s.points k)
  unfolding act move
  check_lem i now s topic wh rest e = (
    subst (Checked now topic wh rest (unlock_time wh.url s.breakers))
        (sym (
          update_self ℕ_discrete s.points i (move webhooks (checks now) (s.points i) s.breakers).0
          ∙ ap (λ p. (move webhooks (checks now) p s.breakers).0) e))
        (check-Checked now topic wh rest s.breakers),
    ap (λ p. (move webhooks (checks now) p s.breakers).1) e,
    λ k n.
        update_ne ℕ_discrete s.points i k (move webhooks (checks now) (s.points i) s.breakers).0 n,
  )

  -- When a worker's request to a URL has failed, and no other worker has one to that URL under
  -- way, then in whatever order all the workers go on, as long as the times read at their
  -- checks are less than 30 seconds after the failure, no worker has a request to that URL
  -- under way, and its circuit stays open until those 30 seconds have passed.
  pub finishes-IsShut :
      (i after : ℕ) (response : Option ℕ) (s : Pool webhooks) (topic : Bytes) (wh : WebhookConfig)
      (was_open : Bool) (rest : List WebhookConfig) (ms : List (ℕ × Move))
      → s.points i ≡ sends topic wh was_open rest
      → Failed response
      → ((k : ℕ) → i ≢ k → ¬ InFlight wh.url (s.points k))
      → AllInTime (after + 30000000000) ms
      → IsShut wh.url
          (after + 30000000000)
          (run webhooks ms (act webhooks i (finishes after response) s))
  unfolding act move
  finishes-IsShut i after response s topic wh was_open rest ms e failed alone h =
      run-IsShut ms wh.url (after + 30000000000) (act webhooks i (finishes after response) s)
        (
          λ k.
              points_at i k (move webhooks (finishes after response) (s.points i) s.breakers).0 s
                (λ p. ¬ InFlight wh.url p)
                (subst
                  (λ p. ¬ InFlight wh.url (move webhooks (finishes after response) p s.breakers).0)
                  (sym e) (next_webhook_quiet wh.url topic rest))
                (alone k),
          ap (λ p. unlock_time wh.url (move webhooks (finishes after response) p s.breakers).1) e
              ∙ settle-Failed after response wh was_open s.breakers failed,
        )
        h
