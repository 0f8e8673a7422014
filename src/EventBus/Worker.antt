-- ===== src/EventBus/Worker.antt =====
-- `workerLoop` of pkg/eventbus/eventbus.go: workers that deliver events to the webhooks. They share the
-- circuit breakers, and a worker lets go of the lock while its HTTP request is under way, so that each
-- part of a delivery between two such points is a step of its own.
pub mod Filter
pub mod Check
pub mod Circuit
mod Tests
use ruseon_core.Common.{
  ℕ_discrete, ℕ, ◌+◌, Bool, true, false, not, Option, none, some, List, [], ◌∷◌, ltb, if◌then◌else◌,
}
use ruseon_core.Common.Dict.{Dict, lookup, insert, erase}
use ruseon_core.Common.Bytes.{Bytes, bytes_discrete}
use ruseon_core.Common.Heap.{update}
use ruseon_core.EventBus.{WebhookConfig, matches_topic, send_failed}

-- 30 seconds; times are in nanoseconds.
abbrev pub open_for : ℕ
open_for = 30000000000

pub blocked : ℕ → Option ℕ → Bool
blocked now none = false
blocked now (some unlock) = ltb now unlock

pub is_open : Option ℕ → Bool
is_open none = false
is_open (some t) = true

-- Where a worker is in its loop, with the topic of its event: it waits for an event; it has come to a webhook
-- with others behind it; or it has read the breaker of one and goes on to send it a request or waits for
-- the answer, with the `isOpen` that it has read.
pub data Point : Type 0 where
  idle : Point
  considers : Bytes → WebhookConfig → List WebhookConfig → Point
  sends : Bytes → WebhookConfig → Bool → List WebhookConfig → Point

-- The head of the loop over the webhooks.
abbrev pub next_webhook : Bytes → List WebhookConfig → Point
next_webhook topic [] = idle
next_webhook topic (wh ∷ rest) = considers topic wh rest

-- From the filter to the request: the breaker is read here, once.
pub check : ℕ → Bytes → WebhookConfig → List WebhookConfig → Dict Bytes ℕ → Point
unfolding blocked is_open
check now topic wh rest breakers =
    let unlock = lookup bytes_discrete wh.url breakers in
    if not (matches_topic wh.topics topic)
    then next_webhook topic rest
    else if blocked now unlock
    then next_webhook topic rest
    else sends topic wh (is_open unlock) rest

-- After the request: the breakers, given the time then and how it ended.
pub settle : ℕ → Option ℕ → WebhookConfig → Bool → Dict Bytes ℕ → Dict Bytes ℕ
settle after response wh was_open breakers =
    if send_failed response
    then insert bytes_discrete wh.url (after + open_for) breakers
    else if was_open
    then erase bytes_discrete wh.url breakers
    else breakers

-- What a worker may do next: take an event, whose payload marshals or not; check a webhook at a time; and
-- see its request end at a time with a status, or with `none` on an error.
pub data Move : Type 0 where
  receives : Bytes → Bool → Move
  checks : ℕ → Move
  finishes : ℕ → Option ℕ → Move

module _ (webhooks : List WebhookConfig) where
  -- One worker's step on the shared breakers; a move for which it is not ready changes nothing.
  pub move : Move → Point → Dict Bytes ℕ → Point × Dict Bytes ℕ
  unfolding check settle
  move (receives topic marshals) idle breakers =
      (if marshals then next_webhook topic webhooks else idle, breakers)
  move (checks now) (considers topic wh rest) breakers =
      (check now topic wh rest breakers, breakers)
  move (finishes after response) (sends topic wh was_open rest) breakers =
      (next_webhook topic rest, settle after response wh was_open breakers)
  move m p breakers = (p, breakers)

  -- The workers of the pool and the breakers.
  pub record Pool : Type 0 where
    pub breakers : Dict Bytes ℕ
    pub points : ℕ → Point

  -- A step of worker `i`.
  pub act : ℕ → Move → Pool → Pool
  unfolding move
  act i m s =
      let (p, breakers) = move m (s.points i) s.breakers in
      record { breakers = breakers; points = update ℕ_discrete s.points i p }

  -- Steps of any workers in any order.
  pub run : List (ℕ × Move) → Pool → Pool
  unfolding act
  run [] s = s
  run ((i, m) ∷ ms) s = run ms (act i m s)
