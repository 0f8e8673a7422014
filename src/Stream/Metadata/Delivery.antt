-- ===== src/Stream/Metadata/Delivery.antt =====
-- What subscribers get from a broadcast.
use native.Mathlib.Omega.{arith}
use ruseon_core.Common.{
  ℕ, ◌<◌, ◌≡◌, refl, sym, ap, ◌∙◌, subst, Bool, false, Option, none, some, [], ◌∷◌, ◌++◌,
  ℕ_discrete, length, if◌then◌else◌, ltb,
}
use ruseon_core.Common.Dict.{Dict, lookup, lookup_here, lookup_other}
use ruseon_core.Common.Go.{returns, ◌>>=◌, Chan, try_send}
use ruseon_core.Common.Heap.{update, update_self, update_ne}
use ruseon_core.Stream.Metadata.{MetadataBroadcaster, send_each, broadcast}

module _ {R : Type 0} where
  -- A channel after an offer: at most its capacity waits in it.
  pub offered : R → Chan R → Chan R
  offered req c =
      if ltb (length c.queue) c.cap then record c { queue = c.queue ++ (req ∷ []) } else c

  offered_open : (req : R) (c : Chan R) → c.closed ≡ false → (offered req c).closed ≡ false
  unfolding offered
  offered_open req c o = ground (arith, o)

  -- A subscriber is offered the message, and nobody else is.
  pub received : R → Option (Unit {0}) → Chan R → Chan R
  received req none c = c
  received req (some _) c = offered req c

  try_send-offered :
      (req : R) (c : Chan R)
      → c.closed ≡ false
      → (b : Bool) × (try_send req c ≡ returns (offered req c, b))
  unfolding try_send offered
  try_send-offered req c open_ = (ltb (length c.queue) c.cap, ground (arith, open_))

  -- The registered channels are open, and their addresses are in use.
  unfoldable pub AllOpen : Dict ℕ (Unit {0}) → (ℕ → Chan R) → ℕ → Type 0
  AllOpen [] channels next = Unit
  AllOpen ((id, _) ∷ subs) channels next =
      ((channels id).closed ≡ false)
      × (id < next)
      × (lookup ℕ_discrete id subs ≡ none)
      × AllOpen subs channels next

  pub AllOpen-update :
      (subs : Dict ℕ (Unit {0})) (channels : ℕ → Chan R) (next id : ℕ) (c : Chan R)
      → c.closed ≡ false
      → AllOpen subs channels next
      → AllOpen subs (update ℕ_discrete channels id c) next
  unfolding AllOpen
  AllOpen-update [] channels next id c o h = _
  AllOpen-update ((k, _) ∷ subs) channels next id c o (open_, low, fresh, rest) = (
    elim (ℕ_discrete id k) [
      | yes same ↦
          ap (λ i. (update ℕ_discrete channels id c i).closed) (sym same)
          ∙ ap (λ x. x.closed) (update_self ℕ_discrete channels id c)
          ∙ o
      | no other ↦ ap (λ x. x.closed) (update_ne ℕ_discrete channels id k c other) ∙ open_
    ],
    low,
    fresh,
    AllOpen-update subs channels next id c o rest,
  )

  send_each_lem :
      (req : R) (subs : Dict ℕ (Unit {0})) (channels : ℕ → Chan R) (next : ℕ)
      → AllOpen subs channels next
      → (channels' : ℕ → Chan R) × (send_each req subs channels ≡ returns channels')
        × AllOpen subs channels' next
        × ((id : ℕ) → channels' id ≡ received req (lookup ℕ_discrete id subs) (channels id))
  unfolding send_each AllOpen received lookup
  send_each_lem req [] channels next h = (channels, refl, _, λ id. refl)
  send_each_lem req ((k, u) ∷ subs) channels next (open_, low, fresh, rest) =
      let (b, e) = try_send-offered req (channels k) open_ in
      let still = offered_open req (channels k) open_ in
      let after = update ℕ_discrete channels k (offered req (channels k)) in
      let (channels', runs, opens, each) =
        send_each_lem req subs after next
          (AllOpen-update subs channels next k (offered req (channels k)) still rest) in
      let at_k : channels' k ≡ offered req (channels k) =
        each k
        ∙ ap (λ o. received req o (after k)) fresh
        ∙ update_self ℕ_discrete channels k (offered req (channels k)) in
      (
        channels',
        ap (λ r. r >>= λ x. send_each req subs (update ℕ_discrete channels k x.0)) e ∙ runs,
        (ap (λ c. c.closed) at_k ∙ still, low, fresh, opens),
        λ id. elim (ℕ_discrete k id) [
          | yes same ↦
              subst
                (λ i. channels' i ≡ received req (lookup ℕ_discrete i ((k, u) ∷ subs)) (channels i))
                same
                (at_k
                  ∙ sym (
                      ap (λ o. received req o (channels k))
                        (lookup_here ℕ_discrete k k u subs refl)))
          | no other ↦ each id ∙ (λ i.
              received req (sym (lookup_other ℕ_discrete k id u subs other) i)
                (update_ne ℕ_discrete channels k id (offered req (channels k)) other i))
        ],
      )

  -- The state between calls.
  unfoldable pub IsValid : MetadataBroadcaster R → Type 0
  IsValid m = AllOpen m.subscribers m.channels m.next_subscriber

  -- `Broadcast` does not panic or wait: it offers the payload to each subscriber, which gets it if its
  -- channel has room, leaves every other channel as it was, and remembers the payload for later subscribers.
  pub broadcast_lem :
      (req : R) (m : MetadataBroadcaster R) (id : ℕ)
      → IsValid m
      → (m' : MetadataBroadcaster R) × (broadcast req m ≡ returns m')
        × IsValid m'
        × (m'.latest ≡ some req)
        × (m'.subscribers ≡ m.subscribers)
        × (m'.channels id ≡ received req (lookup ℕ_discrete id m.subscribers) (m.channels id))
  unfolding broadcast IsValid
  broadcast_lem req m id h =
      let (channels', runs, opens, each) =
        send_each_lem req m.subscribers m.channels m.next_subscriber h in
      (
        record m { latest = some req; channels = channels' },
        ap (λ r. r >>= λ c. returns (record m { latest = some req; channels = c })) runs,
        opens,
        refl,
        refl,
        each id,
      )
