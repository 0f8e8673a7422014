-- ===== src/Stream/Billing.antt =====
-- internal/stream/billing.go: the traffic that one minute adds to what is still to be written.
use native.Mathlib.Omega.{arith}
use mathlib.Core.Option.{some-injective, none-ne-some}
use ruseon_core.Common.{
  ℕ, ◌+◌, ◌-◌, ◌%◌, ◌^◌, ◌≤◌, ◌<◌, ◌≡◌, ◌≢◌, refl, sym, ap, ◌∙◌, subst, Option, none, some, [], ◌∷◌,
  if◌then◌else◌, ltb, ◌==◌, ==_iff, ◌⊎◌, inl, inr, Option-cases, Bool-cases,
}
use ruseon_core.Common.Bytes.{Bytes, bytes_discrete}
use ruseon_core.Common.Dict.{
  Dict, lookup, insert, lookup-insert_self, lookup-insert_ne, lookup_here, lookup_other,
}
use ruseon_core.Common.Go.{add64, two64}
use ruseon_core.Storage.{Error}

-- `lastBytes` and `pendingDelta`; a key that is missing reads as 0.
pub record Billing : Type 0 where
  pub last_bytes : Dict Bytes ℕ
  pub pending_delta : Dict Bytes ℕ

abbrev pub or_zero : Option ℕ → ℕ
or_zero none = 0
or_zero (some n) = n

abbrev pub at : Bytes → Dict Bytes ℕ → ℕ
at id m = or_zero (lookup bytes_discrete id m)

-- What a counter has gained: all of it after a restart.
unfoldable pub delta : ℕ → ℕ → ℕ
delta prev current =
    if ltb prev current then current - prev else if ltb current prev then current else 0

-- One round of the loop over the streams. `pendingDelta` gets no entry where nothing was gained.
unfoldable pub collect_stream : Bytes → ℕ → Billing → Billing
unfolding delta
collect_stream id current b =
    let gained = delta (at id b.last_bytes) current in
    record {
      last_bytes = insert bytes_discrete id current b.last_bytes;
      pending_delta =
          if at id b.last_bytes == current
          then b.pending_delta
          else insert bytes_discrete id (add64 (at id b.pending_delta) gained) b.pending_delta;
    }

unfoldable pub collect_streams : Dict Bytes ℕ → Billing → Billing
collect_streams [] b = b
collect_streams ((id, current) ∷ streams) b = collect_streams streams (collect_stream id current b)

-- The deletion from `lastBytes` of the streams that are gone.
unfoldable pub keep_known : Dict Bytes ℕ → Dict Bytes ℕ → Dict Bytes ℕ
keep_known streams [] = []
keep_known streams ((id, last) ∷ m) =
    let rest = keep_known streams m in
    elim (lookup bytes_discrete id streams) [ none ↦ rest | some current ↦ (id, last) ∷ rest ]

-- `collectBillingDelta`, on the IDs of the streams with their `BytesReceived`.
pub collect_billing_delta : Dict Bytes ℕ → Billing → Billing
collect_billing_delta streams b =
    let b' = collect_streams streams b in
    record b' { last_bytes = keep_known streams b'.last_bytes }

-- One tick of the task: `flush` is `flushBilling`. What was pending is dropped only if that succeeded.
pub tick : Dict Bytes ℕ → (Dict Bytes ℕ → Option Error) → Billing → Billing
tick streams flush b =
    let b' = collect_billing_delta streams b in
    elim b'.pending_delta [
      | [] ↦ b'
      | p ∷ ps ↦ elim (flush (p ∷ ps)) [ none ↦ record b' { pending_delta = [] } | some e ↦ b' ]
    ]

-- No ID occurs twice.
unfoldable pub IsDistinct : Dict Bytes ℕ → Type 0
IsDistinct [] = Unit
IsDistinct ((k, n) ∷ m) = (lookup bytes_discrete k m ≡ none) × IsDistinct m

collect_stream_self :
    (id : Bytes) (current : ℕ) (b : Billing)
    → at id b.pending_delta < two64
    → (at id (collect_stream id current b).pending_delta
        ≡ add64 (at id b.pending_delta) (delta (at id b.last_bytes) current))
      × (lookup bytes_discrete id (collect_stream id current b).last_bytes ≡ some current)
unfolding collect_stream delta
collect_stream_self id current b h = (
  elim (Bool-cases (at id b.last_bytes == current)) [
    | inl t ↦ rw t (ground (arith, (==_iff (at id b.last_bytes) current).0 t))
    | inr f ↦ rw f (
        ap or_zero (
          lookup-insert_self bytes_discrete id
            (add64 (at id b.pending_delta) (delta (at id b.last_bytes) current)) b.pending_delta))
  ],
  lookup-insert_self bytes_discrete id current b.last_bytes,
)

collect_stream_ne :
    (id k : Bytes) (current : ℕ) (b : Billing)
    → id ≢ k
    → (lookup bytes_discrete k (collect_stream id current b).pending_delta
        ≡ lookup bytes_discrete k b.pending_delta)
      × (lookup bytes_discrete k (collect_stream id current b).last_bytes
          ≡ lookup bytes_discrete k b.last_bytes)
unfolding collect_stream
collect_stream_ne id k current b n = (
  ground (
    arith,
    lookup-insert_ne bytes_discrete id k
        (add64 (at id b.pending_delta) (delta (at id b.last_bytes) current)) b.pending_delta n,
  ),
  lookup-insert_ne bytes_discrete id k current b.last_bytes n,
)

collect_streams_other :
    (id : Bytes) (streams : Dict Bytes ℕ) (b : Billing)
    → lookup bytes_discrete id streams ≡ none
    → (lookup bytes_discrete id (collect_streams streams b).pending_delta
        ≡ lookup bytes_discrete id b.pending_delta)
      × (lookup bytes_discrete id (collect_streams streams b).last_bytes
          ≡ lookup bytes_discrete id b.last_bytes)
unfolding collect_streams
collect_streams_other id [] b h = (refl, refl)
collect_streams_other id ((k, current) ∷ streams) b h = elim (bytes_discrete k id) [
  | yes same ↦
      absurd (none-ne-some current (sym h ∙ lookup_here bytes_discrete k id current streams same))
  | no other ↦
      let (p, l) = collect_stream_ne k id current b other in
      let (p', l') =
        collect_streams_other id streams (collect_stream k current b)
          (sym (lookup_other bytes_discrete k id current streams other) ∙ h) in
      (p' ∙ p, l' ∙ l)
]

collect_streams_self :
    (id : Bytes) (current : ℕ) (streams : Dict Bytes ℕ) (b : Billing)
    → IsDistinct streams
    → at id b.pending_delta < two64
    → lookup bytes_discrete id streams ≡ some current
    → (at id (collect_streams streams b).pending_delta
        ≡ add64 (at id b.pending_delta) (delta (at id b.last_bytes) current))
      × (lookup bytes_discrete id (collect_streams streams b).last_bytes ≡ some current)
unfolding collect_streams IsDistinct lookup
collect_streams_self id current [] b d h e = absurd (none-ne-some current e)
collect_streams_self id current ((k, n) ∷ streams) b (fresh, d) h e = elim (bytes_discrete k id) [
  | yes same ↦
      let same_count : n ≡ current =
        some-injective n current (sym (lookup_here bytes_discrete k id n streams same) ∙ e) in
      let (p, l) = collect_stream_self id current b h in
      let (p', l') =
        collect_streams_other id streams (collect_stream id current b)
          (ap (λ i. lookup bytes_discrete i streams) (sym same) ∙ fresh) in
      subst
        (λ i.
          (at id (collect_streams streams (collect_stream i n b)).pending_delta
            ≡ add64 (at id b.pending_delta) (delta (at id b.last_bytes) current))
          × (lookup bytes_discrete id (collect_streams streams (collect_stream i n b)).last_bytes
              ≡ some current))
        (sym same)
        (subst
          (λ c.
            (at id (collect_streams streams (collect_stream id c b)).pending_delta
              ≡ add64 (at id b.pending_delta) (delta (at id b.last_bytes) current))
            × (lookup bytes_discrete id (collect_streams streams (collect_stream id c b)).last_bytes
                ≡ some current))
          (sym same_count) (ap or_zero p' ∙ p, l' ∙ l))
  | no other ↦
      let (p, l) = collect_stream_ne k id n b other in
      let (p', l') =
        collect_streams_self id current streams (collect_stream k n b) d
          (subst (λ o. or_zero o < two64) (sym p) h)
          (sym (lookup_other bytes_discrete k id n streams other) ∙ e) in
      (p' ∙ (λ i. add64 (or_zero (p i)) (delta (or_zero (l i)) current)), l')
]

lookup-keep_known-some :
    (id : Bytes) (current : ℕ) (streams m : Dict Bytes ℕ)
    → lookup bytes_discrete id streams ≡ some current
    → lookup bytes_discrete id (keep_known streams m) ≡ lookup bytes_discrete id m
unfolding keep_known lookup
lookup-keep_known-some id current streams [] h = refl
lookup-keep_known-some id current streams ((k, n) ∷ m) h = elim (bytes_discrete k id) [
  | yes same ↦ ground (
    arith,
    lookup-keep_known-some id current streams m h,
    same,
    ap (λ i. lookup bytes_discrete i streams) same ∙ h,
  )
  | no other ↦ ground (arith, lookup-keep_known-some id current streams m h, other)
]

lookup-keep_known-none :
    (id : Bytes) (streams m : Dict Bytes ℕ)
    → lookup bytes_discrete id streams ≡ none
    → lookup bytes_discrete id (keep_known streams m) ≡ none
unfolding keep_known lookup
lookup-keep_known-none id streams [] h = refl
lookup-keep_known-none id streams ((k, n) ∷ m) h = elim (bytes_discrete k id) [
  | yes same ↦ ground (
    arith,
    lookup-keep_known-none id streams m h,
    same,
    ap (λ i. lookup bytes_discrete i streams) same ∙ h,
  )
  | no other ↦ ground (arith, lookup-keep_known-none id streams m h, other)
]

-- What is pending after a counter went from one value to another, modulo 2^64.
abbrev pub Gained : ℕ → ℕ → ℕ → ℕ → Type 0
Gained prev current old new =
    ((prev ≤ current) × (new ≡ (old + (current - prev)) % 2 ^ 64))
    ⊎ ((current < prev) × (new ≡ (old + current) % 2 ^ 64))

delta-Gained : (prev current old : ℕ) → Gained prev current old (add64 old (delta prev current))
unfolding delta
delta-Gained prev current old = elim (Bool-cases (ltb current prev)) [
  | inl t ↦ inr (ground arith, ground arith)
  | inr f ↦ inl (ground arith, ground arith)
]

-- One collection adds to what is pending for a stream that is there, modulo 2^64, what its counter has gained
-- since the last one, or the whole counter if it has become smaller, and remembers the counter. For
-- an ID with no stream it leaves what is pending as it was and forgets the counter.
pub collect_billing_delta_lem :
    (id : Bytes) (streams : Dict Bytes ℕ) (b : Billing)
    → IsDistinct streams
    → at id b.pending_delta < two64
    → (let b' = collect_billing_delta streams b in
        ((lookup bytes_discrete id streams ≡ none)
          × (at id b'.pending_delta ≡ at id b.pending_delta)
          × (lookup bytes_discrete id b'.last_bytes ≡ none))
        ⊎ ((current : ℕ) × (lookup bytes_discrete id streams ≡ some current)
            × Gained (at id b.last_bytes) current (at id b.pending_delta) (at id b'.pending_delta)
            × (lookup bytes_discrete id b'.last_bytes ≡ some current)))
unfolding collect_billing_delta
collect_billing_delta_lem id streams b d h =
    elim (Option-cases (lookup bytes_discrete id streams)) [
      | inl e ↦
          let (p, l) = collect_streams_other id streams b e in
          inl (
            e,
            ap or_zero p,
            lookup-keep_known-none id streams (collect_streams streams b).last_bytes e,
          )
      | inr (current, e) ↦
          let (p, l) = collect_streams_self id current streams b d h e in
          inr (
            current,
            e,
            subst (Gained (at id b.last_bytes) current (at id b.pending_delta)) (sym p)
                (delta-Gained (at id b.last_bytes) current (at id b.pending_delta)),
            lookup-keep_known-some id current streams (collect_streams streams b).last_bytes e ∙ l,
          )
    ]
