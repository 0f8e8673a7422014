-- ===== src/Stream/Metadata/Tests.antt =====
-- A broadcaster with one subscriber that already has a payload.
use ruseon_core.Common.{ℕ, ◌≡◌, refl, some, [], ◌∷◌, ℕ_discrete, false, arith}
use ruseon_core.Common.Dict.{lookup}
use ruseon_core.Common.Go.{returns}
use ruseon_core.Stream.Metadata.{MetadataBroadcaster, new_metadata_broadcaster, broadcast}
use ruseon_core.Stream.Metadata.Delivery.{received, IsValid, AllOpen, broadcast_lem}
use ruseon_core.Stream.Metadata.Lifecycle.{
  sub, unsub, send_all, run, new_metadata_broadcaster-IsValid,
}

abbrev one_viewer : MetadataBroadcaster ℕ
one_viewer = record new_metadata_broadcaster {
  subscribers = (0, tt) ∷ [];
  channels = λ id. record { queue = 7 ∷ []; cap = 10; closed = false };
  next_subscriber = 1;
}

broadcast_lem_example :
    (m' : MetadataBroadcaster ℕ) × (broadcast 8 one_viewer ≡ returns m')
    × IsValid m'
    × (m'.latest ≡ some 8)
    × (m'.subscribers ≡ one_viewer.subscribers)
    × (m'.channels 0
        ≡ received 8 (lookup ℕ_discrete 0 one_viewer.subscribers) (one_viewer.channels 0))
unfolding IsValid AllOpen lookup
broadcast_lem_example = broadcast_lem 8 one_viewer 0 (refl, omega arith, refl, _)

new_metadata_broadcaster-IsValid_example :
    (m : MetadataBroadcaster ℕ) × (run
        (sub ∷ send_all 5 ∷ sub ∷ unsub 0 ∷ send_all 6 ∷ unsub 0 ∷ [])
        new_metadata_broadcaster
      ≡ returns m)
    × IsValid m
new_metadata_broadcaster-IsValid_example =
    new_metadata_broadcaster-IsValid (sub ∷ send_all 5 ∷ sub ∷ unsub 0 ∷ send_all 6 ∷ unsub 0 ∷ [])
