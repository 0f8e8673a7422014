-- ===== src/Stream/Metadata.antt =====
-- internal/stream/metadata.go: the broadcast of AI metadata to subscribers. A subscriber's address is a
-- number, and its channel is in the heap. A message is any value; each method is one step.
pub mod Delivery
pub mod Lifecycle
mod Tests
use ruseon_core.Common.{ℕ, ◌+◌, Option, none, some, List, [], ◌∷◌, ℕ_discrete}
use ruseon_core.Common.Dict.{Dict, lookup, insert, erase}
use ruseon_core.Common.Go.{Outcome, returns, ◌>>=◌, Chan, make_chan, try_send, close_chan}
use ruseon_core.Common.Heap.{update}

module _ (R : Type 0) where
  pub record MetadataBroadcaster : Type 0 where
    pub subscribers : Dict ℕ (Unit {0})
    pub channels : ℕ → Chan R
    pub next_subscriber : ℕ
    pub latest : Option R

module _ {R : Type 0} where
  abbrev pub new_metadata_broadcaster : MetadataBroadcaster R
  new_metadata_broadcaster = record {
    subscribers = [];
    channels = λ id. make_chan 0;
    next_subscriber = 0;
    latest = none;
  }

  -- The latest payload goes into the new channel, if there is one.
  unfoldable pub preload : Option R → Chan R → Outcome (Chan R)
  preload none c = returns c
  preload (some req) c = try_send req c >>= λ r. returns r.0

  unfoldable pub subscribe : MetadataBroadcaster R → Outcome (MetadataBroadcaster R × ℕ)
  unfolding preload
  subscribe m = preload m.latest (make_chan 10) >>= λ c. returns (
    record m {
      subscribers = insert ℕ_discrete m.next_subscriber tt m.subscribers;
      channels = update ℕ_discrete m.channels m.next_subscriber c;
      next_subscriber = m.next_subscriber + 1;
    },
    m.next_subscriber,
  )

  unfoldable pub unsubscribe : ℕ → MetadataBroadcaster R → Outcome (MetadataBroadcaster R)
  unsubscribe id m = elim (lookup ℕ_discrete id m.subscribers) [
    | none ↦ returns m
    | some _ ↦ close_chan (m.channels id) >>= λ c. returns (record m {
      subscribers = erase ℕ_discrete id m.subscribers;
      channels = update ℕ_discrete m.channels id c;
    })
  ]

  -- The loop of `Broadcast`: a full channel is passed over.
  unfoldable pub send_each : R → Dict ℕ (Unit {0}) → (ℕ → Chan R) → Outcome (ℕ → Chan R)
  send_each req [] channels = returns channels
  send_each req ((id, _) ∷ subs) channels =
      try_send req (channels id) >>= λ r. send_each req subs (update ℕ_discrete channels id r.0)

  unfoldable pub broadcast : R → MetadataBroadcaster R → Outcome (MetadataBroadcaster R)
  unfolding send_each
  broadcast req m = send_each req m.subscribers m.channels >>= λ channels.
      returns (record m { latest = some req; channels = channels })
