-- ===== src/EventBus.antt =====
-- pkg/eventbus/eventbus.go and pkg/eventbus/webhook.go: publishing to a pool of workers, and (in Worker) the
-- delivery of events to the webhooks. Strings are lists of bytes. What the code does not decide
-- itself is an argument: the times read, and how each HTTP request ends.
pub mod Trace
pub mod Moves
pub mod Order
pub mod Fifo
pub mod Worker
mod Tests
use Prim.Native.Nat.{bit_xor}
use ruseon_core.Common.{
  ℕ, zero, suc, ◌+◌, ◌-◌, ◌*◌, ◌%◌, ◌^◌, Bool, true, false, not, ◌&&◌, ◌||◌, Option, none, some,
  List, [], ◌∷◌, ◌++◌, ltb, leb, if◌then◌else◌, length, get_elem?, set, replicate, ite, ℕ_discrete,
}
use ruseon_core.Common.Int.{ℤ, pos, negsuc}
use ruseon_core.Common.Dict.{Dict, lookup, insert, erase}
use ruseon_core.Common.Bytes.{Bytes, bytes_discrete, bytes_eq}
use ruseon_core.Common.Go.{
  Outcome, returns, panics, blocks, ◌>>=◌, Chan, make_chan, try_send, close_chan,
}

pub record Event (D : Type 0) : Type 0 where
  pub id : Bytes
  pub timestamp_ms : ℕ
  pub topic : Bytes
  pub camera_id : Bytes
  pub payload : D

pub record WebhookConfig : Type 0 where
  pub url : Bytes
  pub topics : List Bytes
  pub secret : Bytes

-- `drops` is the counter `EventbusDropsTotal`; times are in nanoseconds.
pub record EventBus (D : Type 0) : Type 0 where
  pub webhooks : List WebhookConfig
  pub workers : List (Chan (Event D))
  pub circuit_breakers : Dict Bytes ℕ
  pub stopped : Bool
  pub drops : ℕ

abbrev pub pool_size : ℤ → ℕ
pool_size (pos zero) = 4
pool_size (pos (suc n)) = suc n
pool_size (negsuc n) = 4

abbrev pub queue_size : ℕ
queue_size = 1000

-- FNV-1a over 32 bits, as in `hash/fnv`.
unfoldable pub fnv32a_from : ℕ → Bytes → ℕ
fnv32a_from h [] = h
fnv32a_from h (b ∷ bs) = fnv32a_from (bit_xor h b * 16777619 % 2 ^ 32) bs

unfoldable pub fnv32a : Bytes → ℕ
unfolding fnv32a_from
fnv32a bs = fnv32a_from 2166136261 bs

-- The worker for a key, of a pool of `n`.
unfoldable pub worker_for : ℕ → Bytes → ℕ
unfolding fnv32a
worker_for n key = fnv32a key % n

-- The ordering key: the camera, or the topic if there is none.
abbrev pub key_of_parts : Bytes → Bytes → Bytes
key_of_parts [] topic = topic
key_of_parts (b ∷ bs) topic = b ∷ bs

-- `matchesTopic`
pub listed : List Bytes → Bytes → Bool
listed [] topic = false
listed (t ∷ ts) topic = bytes_eq t (b'*' ∷ []) || bytes_eq t topic || listed ts topic

unfoldable pub matches_topic : List Bytes → Bytes → Bool
unfolding listed
matches_topic [] topic = true
matches_topic (t ∷ ts) topic = listed (t ∷ ts) topic

-- `sendWebhook` fails on an error and on a status that is not 2xx.
unfoldable pub send_failed : Option ℕ → Bool
send_failed none = true
send_failed (some status) = ltb status 200 || leb 300 status

no_webhooks : List WebhookConfig → Bool
no_webhooks [] = true
no_webhooks (w ∷ ws) = false

module _ {D : Type 0} where
  pub key_of : Event D → Bytes
  key_of e = key_of_parts e.camera_id e.topic

  pub new : List WebhookConfig → ℤ → EventBus D
  new webhooks n = record {
    webhooks = webhooks;
    workers = replicate (pool_size n) (make_chan queue_size);
    circuit_breakers = [];
    stopped = false;
    drops = 0;
  }

  -- The send to worker `i`; the option is the event that went into its queue.
  pub enqueue : Event D → ℕ → EventBus D → Outcome (EventBus D × Option (Event D))
  enqueue e i b = elim (get_elem? b.workers i) [
    | none ↦ panics
    | some c ↦ try_send e c >>= λ r.
        if r.1
        then returns (record b { workers = set b.workers i r.0 }, some e)
        else returns (record b { drops = b.drops + 1 }, none)
  ]

  abbrev pub new_event : ℕ → Bytes → Bytes → D → Event D
  new_event now topic camera_id payload = record {
    id = [];
    timestamp_ms = now;
    topic = topic;
    camera_id = camera_id;
    payload = payload;
  }

  pub publish : ℕ → Bytes → Bytes → D → EventBus D → Outcome (EventBus D × Option (Event D))
  unfolding no_webhooks
  publish now topic camera_id payload b =
      let e = new_event now topic camera_id payload in
      if b.stopped || no_webhooks b.webhooks
      then returns (b, none)
      else enqueue e (worker_for (length b.workers) (key_of e)) b

  close_all : List (Chan (Event D)) → Outcome (List (Chan (Event D)))
  close_all [] = returns []
  close_all (c ∷ cs) = close_chan c >>= λ c'. close_all cs >>= λ cs'. returns (c' ∷ cs')

  -- `Stop`, up to the wait for the workers; the flag `stopped` also says that it has run once.
  pub stop : EventBus D → Outcome (EventBus D)
  unfolding close_all
  stop b =
      if b.stopped
      then returns b
      else close_all b.workers >>= λ cs. returns (record b { workers = cs; stopped = true })

  pop : Chan (Event D) → Option (Event D × Chan (Event D))
  pop c = elim c.queue [ [] ↦ none | e ∷ es ↦ some (e, record c { queue = es }) ]

  -- A worker's `range` over its channel takes the next event; with none there it waits, or ends.
  pub take_event : ℕ → EventBus D → Option (Event D × EventBus D)
  unfolding pop
  take_event i b = elim (get_elem? b.workers i) [
    | none ↦ none
    | some c ↦ elim (pop c) [
      | none ↦ none
      | some (e, c') ↦ some (e, record b { workers = set b.workers i c' })
    ]
  ]
