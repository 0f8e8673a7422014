-- ===== src/EventBus/Worker/Check.antt =====
-- When a worker sends a request to a webhook.
use ruseon_core.Common.{
  Bool, ap, ◌∙◌, Bool-cases, ℕ, ◌<◌, ◌≤◌, ◌≡◌, refl, sym, true, false, Option, none, some, List, [],
  ◌∷◌, arith, ◌↔◌, ◌⊎◌, inl, inr, subst,
}
use ruseon_core.Common.Dict.{Dict, lookup}
use ruseon_core.Common.Bytes.{Bytes, bytes_discrete}
use ruseon_core.EventBus.{WebhookConfig, matches_topic, send_failed}
use ruseon_core.EventBus.Worker.{
  blocked, is_open, Point, idle, considers, sends, next_webhook, check,
}
use ruseon_core.EventBus.Worker.Filter.{Allowed, matches_topic_iff}

-- The time until which the circuit to a URL is open, if it is.
abbrev pub unlock_time : Bytes → Dict Bytes ℕ → Option ℕ
unlock_time url breakers = lookup bytes_discrete url breakers

-- A request of a worker to the URL is under way, from the check that lets it through to its end.
abbrev pub InFlight : Bytes → Point → Type 0
InFlight url idle = ⊥
InFlight url (considers topic wh rest) = ⊥
InFlight url (sends topic wh was_open rest) = wh.url ≡ url

-- The circuit does not hold a request back at a time.
abbrev pub LetsPass : ℕ → Option ℕ → Type 0
LetsPass now none = Unit {0}
LetsPass now (some unlock) = unlock ≤ now

-- A request that ended in an error or with a status that is not 2xx.
abbrev pub Failed : Option ℕ → Type 0
Failed none = Unit {0}
Failed (some status) = (status < 200) ⊎ (300 ≤ status)

pub Failed-send_failed : (response : Option ℕ) → Failed response → send_failed response ≡ true
unfolding send_failed
Failed-send_failed none h = refl
Failed-send_failed (some status) h = ground arith

pub blocked_iff : (now : ℕ) (o : Option ℕ) → (blocked now o ≡ false) ↔ LetsPass now o
unfolding blocked
blocked_iff now none = (λ h. tt, λ h. refl)
blocked_iff now (some t) = (λ h. ground arith, λ h. ground arith)

pub next_webhook_quiet :
    (url topic : Bytes) (whs : List WebhookConfig) → ¬ InFlight url (next_webhook topic whs)
next_webhook_quiet url topic [] f = f
next_webhook_quiet url topic (wh ∷ rest) f = f

check-sends :
    (now : ℕ) (topic : Bytes) (wh : WebhookConfig) (rest : List WebhookConfig)
    (breakers : Dict Bytes ℕ)
    → matches_topic wh.topics topic ≡ true
    → blocked now (unlock_time wh.url breakers) ≡ false
    → check now topic wh rest breakers ≡ sends topic wh (is_open (unlock_time wh.url breakers)) rest
unfolding check
check-sends now topic wh rest breakers m b = rw (m, b, check) refl

check-next_webhook :
    (now : ℕ) (topic : Bytes) (wh : WebhookConfig) (rest : List WebhookConfig)
    (breakers : Dict Bytes ℕ)
    → (matches_topic wh.topics topic ≡ false) ⊎ (blocked now (unlock_time wh.url breakers) ≡ true)
    → check now topic wh rest breakers ≡ next_webhook topic rest
unfolding check
check-next_webhook now topic wh rest breakers (inl m) = rw (m, check) refl
check-next_webhook now topic wh rest breakers (inr b) =
    elim (Bool-cases (matches_topic wh.topics topic)) [
      | inl m ↦ rw (m, b, check) refl
      | inr m ↦ rw (m, check) refl
    ]

-- A check ends with a request, or at the next webhook.
check-cases :
    (now : ℕ) (topic : Bytes) (wh : WebhookConfig) (rest : List WebhookConfig)
    (breakers : Dict Bytes ℕ)
    → ((check now topic wh rest breakers ≡ next_webhook topic rest)
        × ((matches_topic wh.topics topic ≡ false)
            ⊎ (blocked now (unlock_time wh.url breakers) ≡ true)))
      ⊎ ((check now topic wh rest breakers
            ≡ sends topic wh (is_open (unlock_time wh.url breakers)) rest)
          × (matches_topic wh.topics topic ≡ true)
          × (blocked now (unlock_time wh.url breakers) ≡ false))
check-cases now topic wh rest breakers = elim (Bool-cases (matches_topic wh.topics topic)) [
  | inr m ↦ inl (check-next_webhook now topic wh rest breakers (inl m), inl m)
  | inl m ↦ elim (Bool-cases (blocked now (unlock_time wh.url breakers))) [
    | inl b ↦ inl (check-next_webhook now topic wh rest breakers (inr b), inr b)
    | inr b ↦ inr (check-sends now topic wh rest breakers m b, m, b)
  ]
]

-- The worker remembers whether there was a circuit breaker.
abbrev pub Remembers : Bool → Option ℕ → Type 0
Remembers true none = ⊥
Remembers true (some unlock) = Unit {0}
Remembers false none = Unit {0}
Remembers false (some unlock) = ⊥

is_open-Remembers : (o : Option ℕ) → Remembers (is_open o) o
unfolding is_open
is_open-Remembers none = tt
is_open-Remembers (some t) = tt

-- The webhook takes the topic, and its circuit lets a request pass.
abbrev pub Due : ℕ → Bytes → WebhookConfig → Option ℕ → Type 0
Due now topic wh unlock = ((wh.topics ≡ []) ⊎ Allowed topic wh.topics) × LetsPass now unlock

-- Where a check ends: with a request under way if one is due, and at the next webhook if not.
abbrev pub Checked : ℕ → Bytes → WebhookConfig → List WebhookConfig → Option ℕ → Point → Type 0
Checked now topic wh rest unlock p =
    (Due now topic wh unlock
      × ((opened : Bool) × (p ≡ sends topic wh opened rest) × Remembers opened unlock))
    ⊎ ((p ≡ next_webhook topic rest) × (¬ Due now topic wh unlock))

pub check-Checked :
    (now : ℕ) (topic : Bytes) (wh : WebhookConfig) (rest : List WebhookConfig)
    (breakers : Dict Bytes ℕ)
    → Checked now topic wh rest (unlock_time wh.url breakers) (check now topic wh rest breakers)
check-Checked now topic wh rest breakers =
    let unlock = unlock_time wh.url breakers in
    elim (check-cases now topic wh rest breakers) [
      | inl (e, inl m) ↦ inr (e, λ (a, l). cc (m, (matches_topic_iff wh.topics topic).1 a))
      | inl (e, inr b) ↦ inr (e, λ (a, l). cc (b, (blocked_iff now unlock).1 l))
      | inr (e, m, b) ↦ inl (
        ((matches_topic_iff wh.topics topic).0 m, (blocked_iff now unlock).0 b),
        (is_open unlock, e, is_open-Remembers unlock),
      )
    ]

-- While the circuit to a URL is open until a time, a check before that time sends nothing to it.
pub check-quiet :
    (now : ℕ) (topic : Bytes) (wh : WebhookConfig) (rest : List WebhookConfig)
    (breakers : Dict Bytes ℕ) (url : Bytes) (t : ℕ)
    → unlock_time url breakers ≡ some t
    → now < t
    → ¬ InFlight url (check now topic wh rest breakers)
unfolding blocked
check-quiet now topic wh rest breakers url t o h = elim (check-cases now topic wh rest breakers) [
  | inl (e, m) ↦ subst (λ p. ¬ InFlight url p) (sym e) (next_webhook_quiet url topic rest)
  | inr (e, m, b) ↦
      subst (λ p. ¬ InFlight url p) (sym e)
        (λ same.
          let at_url : unlock_time wh.url breakers ≡ some t =
            ap (λ u. unlock_time u breakers) same ∙ o in
          let pass : LetsPass now (some t) =
            (blocked_iff now (some t)).0 (ap (blocked now) (sym at_url) ∙ b) in
          omega (arith, pass))
]
