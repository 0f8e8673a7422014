-- ===== src/Rtsp/Timestamp/Unwrap.antt =====
-- The unwrapper follows the true timeline.
use ruseon_core.Common.{ℕ, ◌+◌, ◌%◌, ◌<◌, ◌≡◌, refl, true, List, [], ◌∷◌, map, arith, ap, ◌∙◌}
use ruseon_core.Common.Go.{two64}
use ruseon_core.Rtsp.Timestamp.{
  TimestampUnwrapper, two32, half_range, next_epoch, unwrap, unwrap_all, new_timestamp_unwrapper,
}

-- The unwrapper has last seen the true time `t`.
pub record At (t : ℕ) (u : TimestampUnwrapper) : Type 0 where
  pub started : u.initialized ≡ true
  pub low : u.last_ts ≡ t % two32
  pub whole : u.epoch + u.last_ts ≡ t

-- Two true times less than half the 32-bit range apart.
abbrev pub Near : ℕ → ℕ → Type 0
Near t t' = (t < t' + half_range) × (t' < t + half_range)

-- An unwrapper that stands at a true time, given the low 32 bits of another that is less than half the
-- 32-bit range away, forwards or backwards, answers that time and stands at it, over any number of
-- rollovers; both times are below 2^64.
pub unwrap-At :
    (t t' : ℕ) (u : TimestampUnwrapper)
    → At t u
    → Near t t'
    → t < two64
    → t' < two64
    → ((unwrap (t' % two32) u).0 ≡ t') × At t' (unwrap (t' % two32) u).1
unfolding unwrap next_epoch
unwrap-At t t' u v near small small' = ground arith

-- Every time is below 2^64 and near the one before it.
abbrev pub Continuous : ℕ → List ℕ → Type 0
Continuous t [] = Unit {0}
Continuous t (t' ∷ ts) = (t' < two64) × Near t t' × Continuous t' ts

unwrap_all-At :
    (t : ℕ) (ts : List ℕ) (u : TimestampUnwrapper)
    → At t u
    → t < two64
    → Continuous t ts
    → unwrap_all (map (λ x. x % two32) ts) u ≡ ts
unfolding unwrap_all
unwrap_all-At t [] u v s c = refl
unwrap_all-At t (t' ∷ ts) u v s c =
    let (now, v') = unwrap-At t t' u v c.1 s c.0 in
    ap (λ x. x ∷ unwrap_all (map (λ x. x % two32) ts) (unwrap (t' % two32) u).1) now
    ∙ ap (◌∷◌ t') (unwrap_all-At t' ts (unwrap (t' % two32) u).1 v' c.0 c.2)

first-At :
    (t : ℕ)
    → t < two32
    → At t (unwrap (t % two32) new_timestamp_unwrapper).1
      × ((unwrap (t % two32) new_timestamp_unwrapper).0 ≡ t)
unfolding unwrap new_timestamp_unwrapper
first-At t h = (record { started = refl; low = refl; whole = omega arith }, omega arith)

-- Cutting a stream's times to 32 bits and unwrapping them gives the times back, if the first is below
-- 2^32 and each is near the one before it.
pub unwrap_all-map :
    (t : ℕ) (ts : List ℕ)
    → t < two32
    → Continuous t ts
    → unwrap_all (map (λ x. x % two32) (t ∷ ts)) new_timestamp_unwrapper ≡ t ∷ ts
unfolding unwrap_all
unwrap_all-map t ts h c =
    ap
      (λ x. x ∷ unwrap_all (map (λ x. x % two32) ts) (unwrap (t % two32) new_timestamp_unwrapper).1)
      (first-At t h).1
    ∙ ap (◌∷◌ t) (unwrap_all-At t ts _ (first-At t h).0 (omega arith) c)
