-- ===== src/EventBus/Worker/Filter.antt =====
-- The topic filter of a webhook.
use ruseon_core.Common.{◌≡◌, refl, true, List, [], ◌∷◌, arith, ◌↔◌, ◌⊎◌, inl, inr}
use ruseon_core.Common.Bytes.{Bytes, bytes_discrete}
use ruseon_core.EventBus.{matches_topic, listed}

-- A topic is in the filter, or the wildcard is.
pub data Allowed (topic : Bytes) : List Bytes → Type 0 where
  here : {t : Bytes} {ts : List Bytes} → t ≡ topic → Allowed topic (t ∷ ts)
  wildcard : {t : Bytes} {ts : List Bytes} → t ≡ b'*' ∷ [] → Allowed topic (t ∷ ts)
  there : {t : Bytes} {ts : List Bytes} → Allowed topic ts → Allowed topic (t ∷ ts)

listed-Allowed : (ts : List Bytes) (topic : Bytes) → listed ts topic ≡ true → Allowed topic ts
unfolding listed
listed-Allowed [] topic h = cc
listed-Allowed (t ∷ ts) topic h = elim (bytes_discrete t (b'*' ∷ [])) [
  | yes e ↦ wildcard e
  | no n ↦ elim (bytes_discrete t topic) [
    | yes e ↦ here e
    | no m ↦ there (listed-Allowed ts topic (ground arith))
  ]
]

Allowed-listed : (topic : Bytes) {ts : List Bytes} → Allowed topic ts → listed ts topic ≡ true
unfolding listed
Allowed-listed topic (here e) = ground arith
Allowed-listed topic (wildcard e) = ground arith
Allowed-listed topic (there a) = ground (arith, Allowed-listed topic a)

-- A webhook takes a topic exactly if its filter is empty or allows the topic.
pub matches_topic_iff :
    (ts : List Bytes) (topic : Bytes)
    → (matches_topic ts topic ≡ true) ↔ ((ts ≡ []) ⊎ Allowed topic ts)
unfolding matches_topic
matches_topic_iff [] topic = (λ h. inl refl, λ h. refl)
matches_topic_iff (t ∷ ts) topic = (
  λ h. inr (listed-Allowed (t ∷ ts) topic h),
  λ h. elim h [ inl e ↦ cc | inr a ↦ Allowed-listed topic a ],
)
