-- ===== src/Stream/Metadata/Lifecycle.antt =====
-- The channels of the registered subscribers across calls.
use native.Mathlib.Omega.{arith}
use ruseon_core.Common.{
  ℕ, ◌+◌, ◌≡◌, ◌≢◌, refl, sym, ap, ◌∙◌, subst, true, false, Option, none, some, List, [], ◌∷◌,
  ℕ_discrete, Option-cases, inl, inr, if_neg,
}
use ruseon_core.Common.Dict.{
  Dict, lookup, insert, erase, erase_here, erase_other, lookup-insert_ne, lookup-erase_ne,
}
use ruseon_core.Common.Go.{Outcome, returns, ◌>>=◌, Chan, make_chan, try_send, close_chan}
use ruseon_core.Common.Heap.{update, update_self, update_ne}
use ruseon_core.Stream.Metadata.{
  MetadataBroadcaster, new_metadata_broadcaster, preload, subscribe, unsubscribe, broadcast,
}
use ruseon_core.Stream.Metadata.Delivery.{AllOpen, IsValid, broadcast_lem}

insert_other :
    (k n : ℕ) (u v : Unit {0}) (subs : Dict ℕ (Unit {0}))
    → k ≢ n
    → insert ℕ_discrete n v ((k, u) ∷ subs) ≡ (k, u) ∷ insert ℕ_discrete n v subs
unfolding insert
insert_other k n u v subs other = if_neg (ℕ_discrete k n) other _ _

pub data Op (R : Type 0) : Type 0 where
  sub : Op R
  unsub : ℕ → Op R
  send_all : R → Op R

module _ {R : Type 0} where
  AllOpen-erase :
      (subs : Dict ℕ (Unit {0})) (channels : ℕ → Chan R) (next id : ℕ) (c : Chan R)
      → AllOpen subs channels next
      → AllOpen (erase ℕ_discrete id subs) (update ℕ_discrete channels id c) next
  unfolding AllOpen erase
  AllOpen-erase [] channels next id c h = _
  AllOpen-erase ((k, u) ∷ subs) channels next id c (open_, low, fresh, rest) =
      elim (ℕ_discrete k id) [
        | yes same ↦
            subst (λ l. AllOpen l (update ℕ_discrete channels id c) next)
              (sym (erase_here ℕ_discrete k id u subs same))
              (AllOpen-erase subs channels next id c rest)
        | no other ↦
            subst (λ l. AllOpen l (update ℕ_discrete channels id c) next)
              (sym (erase_other ℕ_discrete k id u subs other))
              (
                ap (λ x. x.closed) (update_ne ℕ_discrete channels id k c (λ e. other (sym e)))
                    ∙ open_,
                low,
                lookup-erase_ne ℕ_discrete id k subs (λ e. other (sym e)) ∙ fresh,
                AllOpen-erase subs channels next id c rest,
              )
      ]

  AllOpen-insert :
      (subs : Dict ℕ (Unit {0})) (channels : ℕ → Chan R) (n : ℕ) (c : Chan R)
      → c.closed ≡ false
      → AllOpen subs channels n
      → AllOpen (insert ℕ_discrete n tt subs) (update ℕ_discrete channels n c) (n + 1)
  unfolding AllOpen insert lookup
  AllOpen-insert [] channels n c o h =
      (ap (λ x. x.closed) (update_self ℕ_discrete channels n c) ∙ o, omega arith, refl, _)
  AllOpen-insert ((k, u) ∷ subs) channels n c o (open_, low, fresh, rest) =
      let other : k ≢ n = λ e. absurd (omega (arith, e, low)) in
      subst (λ l. AllOpen l (update ℕ_discrete channels n c) (n + 1))
        (sym (insert_other k n u tt subs other))
        (
          ap (λ x. x.closed) (update_ne ℕ_discrete channels n k c (λ e. other (sym e))) ∙ open_,
          omega (arith, low),
          lookup-insert_ne ℕ_discrete n k tt subs (λ e. other (sym e)) ∙ fresh,
          AllOpen-insert subs channels n c o rest,
        )

  preload_lem :
      (latest : Option R)
      → (c : Chan R) × (preload latest (make_chan 10) ≡ returns c) × (c.closed ≡ false)
  unfolding preload try_send
  preload_lem none = (_, refl, refl)
  preload_lem (some req) = (_, refl, refl)

  subscribe-IsValid :
      (m : MetadataBroadcaster R)
      → IsValid m
      → (m' : MetadataBroadcaster R) × (subscribe m ≡ returns (m', m.next_subscriber)) × IsValid m'
  unfolding subscribe IsValid
  subscribe-IsValid m h =
      let (c, e, o) = preload_lem m.latest in
      (
        _,
        ap
            (λ r. r >>= λ c. returns (
              record m {
                subscribers = insert ℕ_discrete m.next_subscriber tt m.subscribers;
                channels = update ℕ_discrete m.channels m.next_subscriber c;
                next_subscriber = m.next_subscriber + 1;
              },
              m.next_subscriber,
            ))
            e,
        AllOpen-insert m.subscribers m.channels m.next_subscriber c o h,
      )

  registered_open :
      (subs : Dict ℕ (Unit {0})) (channels : ℕ → Chan R) (next id : ℕ) (u : Unit {0})
      → AllOpen subs channels next
      → lookup ℕ_discrete id subs ≡ some u
      → (channels id).closed ≡ false
  unfolding AllOpen lookup
  registered_open [] channels next id u h e = ground (arith, e)
  registered_open ((k, v) ∷ subs) channels next id u (open_, low, fresh, rest) e =
      elim (ℕ_discrete k id) [
        | yes same ↦ ap (λ i. (channels i).closed) (sym same) ∙ open_
        | no other ↦
            registered_open subs channels next id u rest
              (sym (if_neg (ℕ_discrete k id) other (some v) (lookup ℕ_discrete id subs)) ∙ e)
      ]

  unsubscribe-IsValid :
      (id : ℕ) (m : MetadataBroadcaster R)
      → IsValid m
      → (m' : MetadataBroadcaster R) × (unsubscribe id m ≡ returns m') × IsValid m'
  unfolding unsubscribe IsValid close_chan
  unsubscribe-IsValid id m h = elim (Option-cases (lookup ℕ_discrete id m.subscribers)) [
    | inl e ↦ (m, ground (arith, e), h)
    | inr (u, e) ↦
        let o = registered_open m.subscribers m.channels m.next_subscriber id u h e in
        (
          record m {
            subscribers = erase ℕ_discrete id m.subscribers;
            channels = update ℕ_discrete m.channels id (record (m.channels id) { closed = true });
          },
          ground (arith, e, o),
          AllOpen-erase m.subscribers m.channels m.next_subscriber id _ h,
        )
  ]

  pub step : Op R → MetadataBroadcaster R → Outcome (MetadataBroadcaster R)
  step sub m = subscribe m >>= λ r. returns r.0
  step (unsub id) m = unsubscribe id m
  step (send_all req) m = broadcast req m

  pub run : List (Op R) → MetadataBroadcaster R → Outcome (MetadataBroadcaster R)
  run [] m = returns m
  run (o ∷ os) m = step o m >>= run os

  step-IsValid :
      (o : Op R) (m : MetadataBroadcaster R)
      → IsValid m
      → (m' : MetadataBroadcaster R) × (step o m ≡ returns m') × IsValid m'
  unfolding step
  step-IsValid sub m h =
      let (m', e, v) = subscribe-IsValid m h in (m', ap (λ r. r >>= λ x. returns x.0) e, v)
  step-IsValid (unsub id) m h = unsubscribe-IsValid id m h
  step-IsValid (send_all req) m h = let (m', e, v, _, _, _) = broadcast_lem req m 0 h in (m', e, v)

  run-IsValid :
      (os : List (Op R)) (m : MetadataBroadcaster R)
      → IsValid m
      → (m' : MetadataBroadcaster R) × (run os m ≡ returns m') × IsValid m'
  unfolding run
  run-IsValid [] m h = (m, refl, h)
  run-IsValid (o ∷ os) m h =
      let (m', e, v) = step-IsValid o m h in
      let (m'', e', v') = run-IsValid os m' v in (m'', ap (λ r. r >>= run os) e ∙ e', v')

  -- From a new broadcaster, any sequence of calls of `Subscribe`, `Unsubscribe` and `Broadcast` returns, without
  -- a panic on a closed channel and without waiting on a full one, to a state in which the channels of all
  -- registered subscribers are open.
  pub new_metadata_broadcaster-IsValid :
      (os : List (Op R))
      → (m : MetadataBroadcaster R) × (run os new_metadata_broadcaster ≡ returns m) × IsValid m
  unfolding IsValid AllOpen
  new_metadata_broadcaster-IsValid os = run-IsValid os new_metadata_broadcaster _
